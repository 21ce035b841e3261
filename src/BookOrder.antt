-- ===== src/BookOrder.antt =====
-- src/state/l3_book/order.rs: a node of the list that a price level keeps.
use perpl_dex_sdk.Prelude.{Option, none}
use perpl_dex_sdk.Types.{OrderId, OrderSide, side}
use perpl_dex_sdk.Order.{Order}

pub record BookOrder (U : Type 0) : Type 0 where
  pub order : Order U
  pub prev : Option OrderId
  pub next : Option OrderId

module _ {U : Type 0} where
  unfoldable pub new : Order U → BookOrder U
  new o = record { order = o; prev = none; next = none }

  abbrev pub order_side : BookOrder U → OrderSide
  order_side o = side o.order.type

  unfoldable pub update_order : Order U → BookOrder U → BookOrder U
  update_order order o = record o { order = order }

  unfoldable pub set_prev : Option OrderId → BookOrder U → BookOrder U
  set_prev prev o = record o { prev = prev }

  unfoldable pub set_next : Option OrderId → BookOrder U → BookOrder U
  set_next next o = record o { next = next }

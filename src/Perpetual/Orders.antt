-- ===== src/Perpetual/Orders.antt =====
-- src/state/perpetual.rs: the calls of a perpetual contract into its order book.
use perpl_dex_sdk.Prelude.{
  Bool, List, not, ◌&&◌, ◌==◌, ltb, if◌then◌else◌, Result, and_then, or_fail, map_err,
}
use perpl_dex_sdk.Amount.{Amount}
use perpl_dex_sdk.Types.{PerpetualId, OrderId}
use perpl_dex_sdk.Numbers.{Numbers}
use perpl_dex_sdk.Order.{Order}
use perpl_dex_sdk.BookError.{OrderBookError}
use perpl_dex_sdk.DexError.{DexError, order_not_found, order_book}
use perpl_dex_sdk.OrderBook.{OrderBook, get_order_data}
use perpl_dex_sdk.OrderBook.Ops
use perpl_dex_sdk.OrderBook.Snapshot
use perpl_dex_sdk.OrderBook.Ops.{remove_order_by_id, move_to_back}
use perpl_dex_sdk.Perpetual.{Perpetual}

-- The four routes of `update_order` through the book.
pub data Route : Type 0 where
  reprice enlarge renew amend : Route

module _ {U : Type 0} ⦃d : Amount U⦄ where
  -- An order that has expired and gets another expiry.
  abbrev pub renewed : Order U → Order U → Bool
  renewed prev order =
      ltb 0 prev.expiry_block
      && ltb prev.expiry_block order.instant.block_number
      && not (prev.expiry_block == order.expiry_block)

  -- The conditions of `update_order`, for the order in the book and the new one.
  unfoldable pub route : Order U → Order U → Route
  route prev order =
      if not (d.eq prev.price order.price)
      then reprice
      else if d.lt prev.size order.size
      then enlarge
      else if renewed prev order
      then renew
      else amend

  -- The call of each route.
  unfoldable pub routed :
      Route → Order U → OrderBook U → OrderBook U × Result (OrderBookError U) (Unit {0})
  routed reprice order b =
      and_then (remove_order_by_id order.order_id b) λ _ b'. Ops.add_order order b'
  routed enlarge order b = move_to_back order b
  routed renew order b = move_to_back order b
  routed amend order b = Ops.update_order order b

  -- `update_order` of the contract `id`, on its book.
  unfoldable pub update_book :
      {R : Type 0}
      → PerpetualId
      → Order U
      → OrderBook U
      → OrderBook U × Result (DexError U R) (Unit {0})
  unfolding route routed
  update_book id order b =
      or_fail (get_order_data order.order_id b) (order_not_found id order.order_id) b
        λ prev. map_err order_book (routed (route prev order) order b)

module _ (n : Numbers) {R : Type 0} where
  open n use {UD64, ud64}

  -- What a call on `self.l3_book` makes of the contract.
  unfoldable pub on_book :
      {A : Type 0}
      → (OrderBook UD64 → OrderBook UD64 × Result (DexError UD64 R) A)
      → Perpetual n
      → Perpetual n × Result (DexError UD64 R) A
  on_book f p = let (b, r) = f p.l3_book in (record p { l3_book = b }, r)

  unfoldable pub add_order :
      Order UD64 → Perpetual n → Perpetual n × Result (DexError UD64 R) (Unit {0})
  unfolding on_book
  add_order order p = on_book (λ b. map_err order_book (Ops.add_order ⦃d = ud64⦄ order b)) p

  unfoldable pub update_order :
      Order UD64 → Perpetual n → Perpetual n × Result (DexError UD64 R) (Unit {0})
  unfolding on_book update_book
  update_order order p = on_book (update_book ⦃d = ud64⦄ p.id order) p

  unfoldable pub remove_order :
      OrderId → Perpetual n → Perpetual n × Result (DexError UD64 R) (Order UD64)
  unfolding on_book
  remove_order order_id p =
      on_book
        (λ b.
          map_err (λ _. order_not_found p.id order_id) (remove_order_by_id ⦃d = ud64⦄ order_id b))
        p

  unfoldable pub add_orders_from_snapshot :
      List (Order UD64) → Perpetual n → Perpetual n × Result (DexError UD64 R) (Unit {0})
  unfolding on_book
  add_orders_from_snapshot orders p =
      on_book (λ b. map_err order_book (Snapshot.add_orders_from_snapshot ⦃d = ud64⦄ orders b)) p

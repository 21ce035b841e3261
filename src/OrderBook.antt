-- ===== src/OrderBook.antt =====
-- src/state/l3_book/mod.rs: the order book and its operations. A method on `&mut self` returns the
-- book that it leaves, beside its result.
pub mod Ops
pub mod Iteration
pub mod Impact
pub mod Queue
pub mod Rep
pub mod View
pub mod Member
pub mod Update
pub mod Add
pub mod Placed
pub mod Remove
pub mod Moved
pub mod Move
pub mod Walk
pub mod Ordered
pub mod Best
pub mod Failures
pub mod Sides
pub mod Snapshot
pub mod Grouping
pub mod BuildLevel
pub mod Loading
pub mod Reload
pub mod Saved
pub mod Reached
use mathlib.Core.Option
use perpl_dex_sdk.Prelude.{
  ℕ, Bool, true, false, not, ◌||◌, ◌&&◌, Option, none, some, is_some, unwrap_or, List, [], ◌∷◌,
  ◌++◌, ◌==◌, ltb, if◌then◌else◌, Result, ok, err, or_fail, ◌≡◌, arith, refl,
}
use perpl_dex_sdk.Amount.{Amount}
use perpl_dex_sdk.Types.{OrderId, OrderSide, ask, bid, side}
use perpl_dex_sdk.Table
use perpl_dex_sdk.Table.{Table, Ranking}
use perpl_dex_sdk.BookKeys.{by_id, upwards, downwards}
use perpl_dex_sdk.Order.{Order}
use perpl_dex_sdk.BookError.{
  OrderBookError, order_already_exists, order_not_found, invalid_order_size, invalid_order_price,
  level_not_found,
}
use perpl_dex_sdk.BookOrder
use perpl_dex_sdk.BookOrder.{BookOrder, order_side, set_prev, set_next, update_order}
use perpl_dex_sdk.BookLevel
use perpl_dex_sdk.BookLevel.{BookLevel, set_head, set_tail, add_size, sub_size, update_size}

pub record OrderBook (U : Type 0) : Type 0 where
  pub orders : Table OrderId (BookOrder U)
  pub asks : Table U (BookLevel U)
  pub bids : Table U (BookLevel U)

module _ {U : Type 0} ⦃d : Amount U⦄ where
  unfoldable pub new : OrderBook U
  new = record { orders = []; asks = []; bids = [] }

  -- `first_key_value` of either side, with the level's size.
  unfoldable pub first_key_value : Table U (BookLevel U) → Option (U × U)
  first_key_value [] = none
  first_key_value ((price, level) ∷ m) = some (price, level.cached_size)

  unfoldable pub best_ask : OrderBook U → Option (U × U)
  unfolding first_key_value
  best_ask b = first_key_value b.asks

  unfoldable pub best_bid : OrderBook U → Option (U × U)
  unfolding first_key_value
  best_bid b = first_key_value b.bids

  unfoldable pub get_order : OrderId → OrderBook U → Option (BookOrder U)
  get_order id b = Table.get by_id id b.orders

  unfoldable pub get_order_data : OrderId → OrderBook U → Option (Order U)
  get_order_data id b = Option.map (λ o. o.order) (get_order id b)

  -- `get_level`; `ask_level` and `bid_level` are its two cases.
  unfoldable pub get_level : OrderSide → U → OrderBook U → Option (BookLevel U)
  get_level ask price b = Table.get upwards price b.asks
  get_level bid price b = Table.get downwards price b.bids

  -- A write through `get_level_mut`.
  unfoldable pub modify_level :
      OrderSide → U → (BookLevel U → BookLevel U) → OrderBook U → OrderBook U
  modify_level ask price f b = record b { asks = Table.modify upwards price f b.asks }
  modify_level bid price f b = record b { bids = Table.modify downwards price f b.bids }

  unfoldable pub insert_level : OrderSide → U → BookLevel U → OrderBook U → OrderBook U
  insert_level ask price l b = record b { asks = Table.insert upwards price l b.asks }
  insert_level bid price l b = record b { bids = Table.insert downwards price l b.bids }

  -- `entry(price).or_default()`: the level, and the book that holds it.
  unfoldable pub get_or_create_level : OrderSide → U → OrderBook U → BookLevel U × OrderBook U
  unfolding insert_level
  get_or_create_level s price b = elim (get_level s price b) [
    | some l ↦ (l, b)
    | none ↦ (BookLevel.new, insert_level s price BookLevel.new b)
  ]

  unfoldable pub remove_level : OrderSide → U → OrderBook U → OrderBook U
  remove_level ask price b = record b { asks = Table.remove upwards price b.asks }
  remove_level bid price b = record b { bids = Table.remove downwards price b.bids }

  -- `if let Some(o) = self.orders.get_mut(&id) { f(o) }`
  unfoldable pub modify_order : OrderId → (BookOrder U → BookOrder U) → OrderBook U → OrderBook U
  modify_order id f b = record b { orders = Table.modify by_id id f b.orders }

  -- `self.orders.insert(id, node)` and `self.orders.remove(&id)`
  unfoldable pub insert_order : OrderId → BookOrder U → OrderBook U → OrderBook U
  insert_order id node b = record b { orders = Table.insert by_id id node b.orders }

  unfoldable pub drop_order : OrderId → OrderBook U → OrderBook U
  drop_order id b = record b { orders = Table.remove by_id id b.orders }

  unfoldable pub modify_linked :
      Option OrderId → (BookOrder U → BookOrder U) → OrderBook U → OrderBook U
  modify_linked none f b = b
  modify_linked (some id) f b = modify_order id f b

  unfoldable pub unlink_node : Option OrderId → Option OrderId → OrderBook U → OrderBook U
  unlink_node prev_id next_id b =
      modify_linked next_id (set_prev prev_id) (modify_linked prev_id (set_next next_id) b)

  -- What `link_at_tail` does to the level.
  unfoldable pub append_to_level : OrderId → U → BookLevel U → BookLevel U
  append_to_level order_id size l =
      add_size size
        (set_tail (some order_id) (if BookLevel.is_empty l then set_head (some order_id) l else l))

  unfoldable pub link_at_tail :
      OrderSide → U → Option OrderId → OrderId → U → OrderBook U → OrderBook U
  link_at_tail s price old_tail order_id size b =
      let linked = modify_linked old_tail (set_next (some order_id)) b in
      modify_level s price (append_to_level order_id size) (get_or_create_level s price linked).1

-- ===== src/OrderBook/Snapshot.antt =====
-- src/state/l3_book/mod.rs: `add_orders_from_snapshot`, which loads orders with their links.
use perpl_dex_sdk.Prelude.{
  Bool, true, false, not, ◌&&◌, Option, none, some, map_or, List, [], ◌∷◌, ◌++◌, map, has,
  if◌then◌else◌, Result, ok, err, and_then,
}
use perpl_dex_sdk.Amount.{Amount}
use perpl_dex_sdk.Types.{OrderId, OrderSide, side}
use perpl_dex_sdk.Table
use perpl_dex_sdk.Table.{Table}
use perpl_dex_sdk.BookKeys.{by_id}
use perpl_dex_sdk.Order.{Order}
use perpl_dex_sdk.BookError
use perpl_dex_sdk.BookError.{
  OrderBookError, invalid_order_size, invalid_order_price, dangling_order_reference,
}
use perpl_dex_sdk.BookOrder
use perpl_dex_sdk.BookOrder.{BookOrder, set_prev, set_next}
use perpl_dex_sdk.BookLevel
use perpl_dex_sdk.BookLevel.{BookLevel, set_head, set_tail, add_size}
use perpl_dex_sdk.OrderBook.{OrderBook, insert_order, insert_level}
use perpl_dex_sdk.OrderBook.Rep.{same_side}

-- An entry of the hash map `level_orders`: a level with the identifiers of its orders.
pub record Group (U : Type 0) : Type 0 where
  pub price : U
  pub side : OrderSide
  pub ids : List OrderId

-- The link, if it is to an order outside of `ids`.
unfoldable pub dangling : List OrderId → Option OrderId → Option OrderId
dangling ids none = none
dangling ids (some r) = if has r ids then none else some r

unfoldable pub find_id : (OrderId → Bool) → List OrderId → Option OrderId
find_id test [] = none
find_id test (id ∷ ids) = if test id then some id else find_id test ids

module _ {U : Type 0} ⦃d : Amount U⦄ where
  -- The checks of the first pass.
  unfoldable pub fault : List OrderId → Order U → Option (OrderBookError U)
  unfolding dangling
  fault ids order =
      if d.eq order.size d.zero
      then some (invalid_order_size order.order_id order.size)
      else if d.eq order.price d.zero
      then some (invalid_order_price order.order_id order.price)
      else elim (dangling ids order.prev_order_id) [
        | some r ↦ some (dangling_order_reference order.order_id r BookError.prev)
        | none ↦ elim (dangling ids order.next_order_id) [
          | some r ↦ some (dangling_order_reference order.order_id r BookError.next)
          | none ↦ none
        ]
      ]

  unfoldable pub snapshot_node : Order U → BookOrder U
  snapshot_node order =
      set_next order.next_order_id (set_prev order.prev_order_id (BookOrder.new order))

  -- The first pass. What it has inserted before an error stays.
  unfoldable pub insert_all :
      List OrderId
      → List (Order U)
      → OrderBook U
      → OrderBook U × Result (OrderBookError U) (Unit {0})
  unfolding fault snapshot_node
  insert_all ids [] b = (b, ok tt)
  insert_all ids (order ∷ orders) b = elim (fault ids order) [
    | some e ↦ (b, err e)
    | none ↦ insert_all ids orders (insert_order order.order_id (snapshot_node order) b)
  ]

  -- `level_orders.entry(key).or_default().push(id)`
  unfoldable pub push_id : U → OrderSide → OrderId → List (Group U) → List (Group U)
  push_id price s id [] = record { price = price; side = s; ids = id ∷ [] } ∷ []
  push_id price s id (g ∷ groups) =
      if same_side s g.side && d.eq price g.price
      then record g { ids = g.ids ++ id ∷ [] } ∷ groups
      else g ∷ push_id price s id groups

  unfoldable pub group_orders : List (Order U) → List (Group U) → List (Group U)
  unfolding push_id
  group_orders [] groups = groups
  group_orders (order ∷ orders) groups =
      group_orders orders (push_id order.price (side order.type) order.order_id groups)

  -- Whether a link of the order leads out of `ids`.
  unfoldable pub is_end :
      (BookOrder U → Option OrderId) → List OrderId → Table OrderId (BookOrder U) → OrderId → Bool
  is_end link ids nodes id =
      map_or false (λ o. map_or true (λ p. not (has p ids)) (link o)) (Table.get by_id id nodes)

  unfoldable pub add_sizes : Table OrderId (BookOrder U) → List OrderId → BookLevel U → BookLevel U
  add_sizes nodes [] level = level
  add_sizes nodes (id ∷ ids) level =
      add_sizes nodes ids
        (map_or level (λ o. add_size o.order.size level) (Table.get by_id id nodes))

  unfoldable pub build_level : Table OrderId (BookOrder U) → List OrderId → BookLevel U
  unfolding is_end find_id add_sizes
  build_level nodes ids =
      let head = find_id (is_end (λ o. o.prev) ids nodes) ids in
      let tail = find_id (is_end (λ o. o.next) ids nodes) ids in
      add_sizes nodes ids (set_tail tail (set_head head BookLevel.new))

  -- The second pass, over the levels in the order in which they were met. (The hash map has no order;
  -- its keys are different levels.)
  unfoldable pub build_levels : List (Group U) → OrderBook U → OrderBook U
  unfolding build_level
  build_levels [] b = b
  build_levels (g ∷ groups) b =
      build_levels groups (insert_level g.side g.price (build_level b.orders g.ids) b)

  unfoldable pub add_orders_from_snapshot :
      List (Order U) → OrderBook U → OrderBook U × Result (OrderBookError U) (Unit {0})
  unfolding insert_all group_orders build_levels
  add_orders_from_snapshot orders b =
      and_then (insert_all (map (λ o. o.order_id) orders) orders b)
        λ _ b'. (build_levels (group_orders orders []) b', ok tt)

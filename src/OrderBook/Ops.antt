-- ===== src/OrderBook/Ops.antt =====
-- src/state/l3_book/mod.rs: the operations that change the book.
use perpl_dex_sdk.Prelude.{
  Option, none, some, Bool, false, ◌==◌, if◌then◌else◌, Result, ok, err, or_fail,
}
use perpl_dex_sdk.Amount.{Amount}
use perpl_dex_sdk.Types.{OrderId, side}
use perpl_dex_sdk.Order.{Order}
use perpl_dex_sdk.BookError.{
  OrderBookError, order_already_exists, order_not_found, invalid_order_size, invalid_order_price,
  level_not_found,
}
use perpl_dex_sdk.BookOrder
use perpl_dex_sdk.BookOrder.{BookOrder, order_side, set_prev, set_next, update_order as update_node}
use perpl_dex_sdk.BookLevel
use perpl_dex_sdk.BookLevel.{BookLevel, set_head, set_tail, sub_size, update_size}
use perpl_dex_sdk.OrderBook.{
  OrderBook, get_order, get_level, modify_level, get_or_create_level, remove_level, modify_order,
  insert_order, drop_order, modify_linked, unlink_node, link_at_tail,
}

-- `level.head() == Some(order_id)`
abbrev pub is_id : OrderId → Option OrderId → Bool
is_id id none = false
is_id id (some j) = j == id

module _ {U : Type 0} ⦃d : Amount U⦄ where
  -- `add_order` behind its three checks.
  unfoldable pub append_order : Order U → OrderBook U → OrderBook U
  append_order order b =
      let s = side order.type in
      let (level, b') = get_or_create_level s order.price b in
      let node = set_prev level.tail (BookOrder.new order) in
      link_at_tail s order.price level.tail order.order_id order.size
        (insert_order order.order_id node b')

  unfoldable pub add_order :
      Order U → OrderBook U → OrderBook U × Result (OrderBookError U) (Unit {0})
  add_order order b =
      if d.eq order.size d.zero
      then (b, err (invalid_order_size order.order_id order.size))
      else if d.eq order.price d.zero
      then (b, err (invalid_order_price order.order_id order.price))
      else elim (get_order order.order_id b) [
        | some existing ↦ (b, err (order_already_exists order.order_id existing.order.price))
        | none ↦ (append_order order b, ok tt)
      ]

  unfoldable pub update_order :
      Order U → OrderBook U → OrderBook U × Result (OrderBookError U) (Unit {0})
  update_order order b =
      if d.eq order.size d.zero
      then (b, err (invalid_order_size order.order_id order.size))
      else or_fail (get_order order.order_id b) (order_not_found order.order_id) b λ node.
        let price = node.order.price in
        let s = order_side node in
        let b' = modify_order order.order_id (update_node order) b in
        or_fail (get_level s price b') (level_not_found price s) b'
          λ _. (modify_level s price (update_size node.order.size order.size) b', ok tt)

  -- What `remove_order_by_id` does to the level of an order with these links.
  unfoldable pub detach : OrderId → Option OrderId → Option OrderId → U → BookLevel U → BookLevel U
  detach id prev_id next_id size l =
      let l1 = if is_id id l.head then set_head next_id l else l in
      let l2 = if is_id id l1.tail then set_tail prev_id l1 else l1 in sub_size size l2

  unfoldable pub remove_order_by_id :
      OrderId → OrderBook U → OrderBook U × Result (OrderBookError U) (Order U)
  unfolding detach
  remove_order_by_id id b = or_fail (get_order id b) (order_not_found id) b λ node.
      let price = node.order.price in
      let s = order_side node in
      let b1 = unlink_node node.prev node.next b in
      or_fail (get_level s price b1) (level_not_found price s) b1 λ level.
        let level' = detach id node.prev node.next node.order.size level in
        let b2 = modify_level s price (detach id node.prev node.next node.order.size) b1 in
        let b3 = if BookLevel.is_empty level' then remove_level s price b2 else b2 in
        or_fail (get_order id b3) (order_not_found id) b3
          λ removed. (drop_order id b3, ok removed.order)

  -- The node of the order that goes to the back.
  unfoldable pub relink_last : Order U → Option OrderId → BookOrder U → BookOrder U
  relink_last order old_tail node = update_node order (set_next none (set_prev old_tail node))

  -- `move_to_back` of an order that is not the tail of its level.
  unfoldable pub move_behind_tail :
      Order U → BookOrder U → OrderBook U → OrderBook U × Result (OrderBookError U) (Unit {0})
  unfolding relink_last
  move_behind_tail order node b =
      let id = order.order_id in
      let price = node.order.price in
      let s = order_side node in
      let b1 = unlink_node node.prev node.next b in
      or_fail (get_level s price b1) (level_not_found price s) b1 λ level.
        let b2 =
          modify_level s price (λ l. if is_id id l.head then set_head node.next l else l) b1 in
        let b3 = modify_linked level.tail (set_next (some id)) b2 in
        let b4 = modify_order id (relink_last order level.tail) b3 in
        or_fail (get_level s price b4) (level_not_found price s) b4 λ _. (
          modify_level s price (λ l. update_size node.order.size order.size (set_tail (some id) l))
              b4,
          ok tt,
        )

  unfoldable pub move_to_back :
      Order U → OrderBook U → OrderBook U × Result (OrderBookError U) (Unit {0})
  unfolding move_behind_tail
  move_to_back order b =
      let id = order.order_id in
      or_fail (get_order id b) (order_not_found id) b λ node.
        let price = node.order.price in
        let s = order_side node in
        or_fail (get_level s price b) (level_not_found price s) b λ level.
          if is_id id level.tail
          then (let b' = modify_order id (update_node order) b in
              or_fail (get_level s price b') (level_not_found price s) b'
                λ _. (modify_level s price (update_size node.order.size order.size) b', ok tt))
          else move_behind_tail order node b

-- ===== src/Examples/Books.antt =====
-- A book of three asks at one price.
use mathlib.Core.Option
use Prim.Native.Nat.{min}
use perpl_dex_sdk.Prelude.{
  ◌≤◌, ℕ, ◌*◌, ◌/◌, ◌↔◌, ◌∷◌, ◌+◌, ◌≡◌, refl, none, some, List, [], ◌++◌, arith, ok,
}
use perpl_dex_sdk.Types.{OrderId, ask, OrderType, side}
use perpl_dex_sdk.Order.{Order}
use perpl_dex_sdk.BookOrder
use perpl_dex_sdk.BookOrder.{BookOrder, order_side, set_prev, set_next}
use perpl_dex_sdk.BookLevel
use perpl_dex_sdk.BookLevel.{BookLevel, set_head, set_tail, add_size}
use perpl_dex_sdk.Table
use perpl_dex_sdk.Table.{Table}
use perpl_dex_sdk.OrderBook.Impact.{
  Wide, impact, fold_levels, filled_of, impact_filled, impact-none,
}
use perpl_dex_sdk.OrderBook
use perpl_dex_sdk.OrderBook.{
  OrderBook, best_ask, best_bid, first_key_value, get_order, get_level, get_or_create_level,
  link_at_tail, modify_linked, modify_order, modify_level, insert_order, append_to_level,
}
use perpl_dex_sdk.OrderBook.Ops.{
  add_order, append_order, update_order, remove_order_by_id, move_to_back,
}
use perpl_dex_sdk.OrderBook.Queue.{total}
use perpl_dex_sdk.OrderBook.Rep.{Rep, Queues, nodes, requeue, Rep-new}
use perpl_dex_sdk.OrderBook.Add.{add_order-Rep}
use perpl_dex_sdk.OrderBook.Remove.{remove_order_by_id-Rep}
use perpl_dex_sdk.OrderBook.Move.{move_to_back-Rep}
use perpl_dex_sdk.OrderBook.Update.{update_order-Rep}
use perpl_dex_sdk.OrderBook.Failures
use perpl_dex_sdk.OrderBook.Failures.{run, run-failed}
use perpl_dex_sdk.OrderBook.Sides.{side_orders-queues}
use perpl_dex_sdk.OrderBook.Reached.{fresh, adds}
use perpl_dex_sdk.OrderBook.Best.{best_ask-lowest, best_bid-highest}
use perpl_dex_sdk.OrderBook.Walk.{level_orders-queue, ids}
use perpl_dex_sdk.OrderBook.Iteration.{ask_orders, bid_orders, level_orders, total_orders}
use perpl_dex_sdk.Examples.Scale.{amounts}

-- An ask of a size at price 100.
abbrev pub ask_of : OrderId → ℕ → Order ℕ
ask_of id size = record {
  instant = record { block_number = 50; block_timestamp = 0 };
  request_id = none;
  order_id = id;
  type = OrderType.open_short;
  account_id = 100;
  price = 100;
  size = size;
  expiry_block = 0;
  leverage = 0;
  post_only = none;
  fill_or_kill = none;
  immediate_or_cancel = none;
  prev_order_id = none;
  next_order_id = none;
}

abbrev pub empty_queues : Queues
empty_queues s k = []

abbrev pub book1 : OrderBook ℕ
book1 = (add_order ⦃d = amounts⦄ (ask_of 1 5) (OrderBook.new ⦃d = amounts⦄)).0

abbrev pub queues1 : Queues
queues1 = requeue empty_queues ask 100 ([] ++ 1 ∷ [])

abbrev pub book2 : OrderBook ℕ
book2 = (add_order ⦃d = amounts⦄ (ask_of 2 7) book1).0

abbrev pub queues2 : Queues
queues2 = requeue queues1 ask 100 (1 ∷ 2 ∷ [])

-- The first order of the book, once the second one stands behind it.
abbrev pub node1 : BookOrder ℕ
node1 = record { order = ask_of 1 5; prev = none; next = some 2 }

pub book1-Rep : Rep ⦃d = amounts⦄ book1 queues1
unfolding side get_order Table.get OrderBook.new
book1-Rep =
    (add_order-Rep ⦃d = amounts⦄ (Rep-new ⦃d = amounts⦄) (ask_of 1 5) refl (omega arith) refl
      refl).1

-- The second order goes behind the first.
add_order-Rep_example :
    ((add_order ⦃d = amounts⦄ (ask_of 2 7) book1).1 ≡ ok tt)
    × Rep ⦃d = amounts⦄ book2 queues2
    × (Option.map (λ (o : BookOrder ℕ). o.order) (get_order ⦃d = amounts⦄ 2 book2)
        ≡ some (ask_of 2 7))
unfolding OrderBook.new side add_order append_order get_order get_level get_or_create_level
    link_at_tail modify_linked modify_order modify_level insert_order append_to_level Table.get
    Table.insert Table.modify set_prev set_next set_head set_tail add_size BookOrder.new
    BookLevel.new BookLevel.is_empty
add_order-Rep_example =
    add_order-Rep ⦃d = amounts⦄ book1-Rep (ask_of 2 7) refl (omega arith) refl refl

pub found1 : get_order ⦃d = amounts⦄ 1 book2 ≡ some node1
unfolding OrderBook.new side add_order append_order get_order get_level get_or_create_level
    link_at_tail modify_linked modify_order modify_level insert_order append_to_level Table.get
    Table.insert Table.modify set_prev set_next set_head set_tail add_size BookOrder.new
    BookLevel.new BookLevel.is_empty
found1 = refl

pub book2-Rep : Rep ⦃d = amounts⦄ book2 queues2
unfolding OrderBook.new side add_order append_order get_order get_level get_or_create_level
    link_at_tail modify_linked modify_order modify_level insert_order append_to_level Table.get
    Table.insert Table.modify set_prev set_next set_head set_tail add_size BookOrder.new
    BookLevel.new BookLevel.is_empty
book2-Rep = (add_order-Rep ⦃d = amounts⦄ book1-Rep (ask_of 2 7) refl (omega arith) refl refl).1

pub total2 : total ⦃d = amounts⦄ (nodes ⦃d = amounts⦄ book2) (1 ∷ 2 ∷ []) ≡ 12
unfolding OrderBook.new side add_order append_order get_order get_level get_or_create_level
    link_at_tail modify_linked modify_order modify_level insert_order append_to_level Table.get
    Table.insert Table.modify set_prev set_next set_head set_tail add_size BookOrder.new
    BookLevel.new BookLevel.is_empty
total2 = refl

-- The first order leaves, and the second one is alone.
remove_order_by_id-Rep_example :
    ((remove_order_by_id ⦃d = amounts⦄ 1 book2).1 ≡ ok (ask_of 1 5))
    × Rep ⦃d = amounts⦄
        (remove_order_by_id ⦃d = amounts⦄ 1 book2).0
        (requeue queues2 ask 100 (2 ∷ []))
    × (get_order ⦃d = amounts⦄ 1 (remove_order_by_id ⦃d = amounts⦄ 1 book2).0 ≡ none)
unfolding side
remove_order_by_id-Rep_example = remove_order_by_id-Rep ⦃d = amounts⦄ book2-Rep 1 node1 found1

-- The first order shrinks to 3, and stays in front.
update_order-Rep_example :
    ((update_order ⦃d = amounts⦄ (ask_of 1 3) book2).1 ≡ ok tt)
    × Rep ⦃d = amounts⦄ (update_order ⦃d = amounts⦄ (ask_of 1 3) book2).0 queues2
    × (get_order ⦃d = amounts⦄ 1 (update_order ⦃d = amounts⦄ (ask_of 1 3) book2).0
        ≡ some (record node1 { order = ask_of 1 3 }))
unfolding side
update_order-Rep_example =
    update_order-Rep ⦃d = amounts⦄ book2-Rep (ask_of 1 3) node1 found1 refl refl
      (omega (arith, total2)) refl

-- The first order grows to 9, and goes behind the second.
move_to_back-Rep_example :
    ((move_to_back ⦃d = amounts⦄ (ask_of 1 9) book2).1 ≡ ok tt)
    × Rep ⦃d = amounts⦄
        (move_to_back ⦃d = amounts⦄ (ask_of 1 9) book2).0
        (requeue queues2 ask 100 (2 ∷ 1 ∷ []))
    × (Option.map
          (λ (o : BookOrder ℕ). o.order)
          (get_order ⦃d = amounts⦄ 1 (move_to_back ⦃d = amounts⦄ (ask_of 1 9) book2).0)
        ≡ some (ask_of 1 9))
unfolding side
move_to_back-Rep_example =
    move_to_back-Rep ⦃d = amounts⦄ book2-Rep (ask_of 1 9) node1 found1 refl refl
      (omega (arith, total2))

-- The level at 100, and a walk over it.
abbrev level2 : BookLevel ℕ
level2 = record { head = some 1; tail = some 2; cached_size = 12; cached_count = 2 }

level_orders-queue_example :
    (os : List (BookOrder ℕ)) × (level_orders ⦃d = amounts⦄ 3 book2 level2 ≡ some os)
    × (ids ⦃d = amounts⦄ os ≡ 1 ∷ 2 ∷ [])
unfolding OrderBook.new side add_order append_order get_order get_level get_or_create_level
    link_at_tail modify_linked modify_order modify_level insert_order append_to_level Table.get
    Table.insert Table.modify set_prev set_next set_head set_tail add_size BookOrder.new
    BookLevel.new BookLevel.is_empty total_orders
level_orders-queue_example =
    level_orders-queue ⦃d = amounts⦄ book2-Rep ask 100 level2 3 refl (omega arith)

-- Products and averages of whole numbers.
abbrev wide : Wide ℕ ℕ
wide = record { w_zero = 0; widen = λ a. a; narrow = λ a. a; w_add = ◌+◌; w_mul = ◌*◌; w_div = ◌/◌ }

abbrev level_of : ℕ → BookLevel ℕ
level_of size = record { head = some 1; tail = some 1; cached_size = size; cached_count = 1 }

-- 5 at 100 and 7 at 110, of which 8 are wanted.
abbrev two_levels : Table ℕ (BookLevel ℕ)
two_levels = (100, level_of 5) ∷ (110, level_of 7) ∷ []

impact_filled_example : amounts.units (filled_of ⦃d = amounts⦄ wide (110, 8, 103)) ≡ min 8 12
unfolding impact fold_levels
impact_filled_example = impact_filled ⦃d = amounts⦄ wide two_levels 8 (110, 8, 103) refl

impact-none_example : (impact ⦃d = amounts⦄ wide two_levels 0 ≡ none) ↔ (min 0 12 ≡ 0)
impact-none_example = impact-none ⦃d = amounts⦄ wide two_levels 0

-- The best ask of the book is at 100, as is its first order.
best_ask-lowest_example : amounts.units 100 ≤ amounts.units node1.order.price
unfolding OrderBook.new side add_order append_order get_order get_level get_or_create_level
    link_at_tail modify_linked modify_order modify_level insert_order append_to_level Table.get
    Table.insert Table.modify set_prev set_next set_head set_tail add_size BookOrder.new
    BookLevel.new BookLevel.is_empty best_ask first_key_value
best_ask-lowest_example =
    best_ask-lowest ⦃d = amounts⦄ (adds (ask_of 2 7) (adds (ask_of 1 5) fresh)) book2-Rep 100 12
      refl 1 node1 found1 refl

-- A book of one bid at 90.
abbrev bid_of : Order ℕ
bid_of = record (ask_of 3 4) { type = OrderType.open_long; price = 90 }

abbrev bid_book : OrderBook ℕ
bid_book = (add_order ⦃d = amounts⦄ bid_of (OrderBook.new ⦃d = amounts⦄)).0

abbrev bid_node : BookOrder ℕ
bid_node = record { order = bid_of; prev = none; next = none }

best_bid-highest_example : amounts.units bid_node.order.price ≤ amounts.units 90
unfolding OrderBook.new side add_order append_order get_order get_level get_or_create_level
    link_at_tail modify_linked modify_order modify_level insert_order append_to_level Table.get
    Table.insert Table.modify set_prev set_next set_head set_tail add_size BookOrder.new
    BookLevel.new BookLevel.is_empty best_bid first_key_value
best_bid-highest_example =
    best_bid-highest ⦃d = amounts⦄ (adds bid_of fresh)
      (add_order-Rep ⦃d = amounts⦄ (Rep-new ⦃d = amounts⦄) bid_of refl (omega arith) refl refl).1 90
      4 refl 3 bid_node refl refl

-- A second order with the same identifier is refused.
run-failed_example : (run ⦃d = amounts⦄ (Failures.adds (ask_of 1 5)) book2).0 ≡ book2
unfolding OrderBook.new side add_order append_order get_order get_level get_or_create_level
    link_at_tail modify_linked modify_order modify_level insert_order append_to_level Table.get
    Table.insert Table.modify set_prev set_next set_head set_tail add_size BookOrder.new
    BookLevel.new BookLevel.is_empty
run-failed_example = run-failed ⦃d = amounts⦄ book2-Rep (Failures.adds (ask_of 1 5)) refl

side_orders-queues_example :
    ((os : List (BookOrder ℕ)) × (ask_orders ⦃d = amounts⦄ 3 book2 ≡ some os)
      × (ids ⦃d = amounts⦄ os ≡ 1 ∷ 2 ∷ []))
    × ((os : List (BookOrder ℕ)) × (bid_orders ⦃d = amounts⦄ 3 book2 ≡ some os)
        × (ids ⦃d = amounts⦄ os ≡ []))
unfolding OrderBook.new side add_order append_order get_order get_level get_or_create_level
    link_at_tail modify_linked modify_order modify_level insert_order append_to_level Table.get
    Table.insert Table.modify set_prev set_next set_head set_tail add_size BookOrder.new
    BookLevel.new BookLevel.is_empty total_orders
side_orders-queues_example =
    side_orders-queues ⦃d = amounts⦄ book2-Rep 3 (omega arith)
      (adds (ask_of 2 7) (adds (ask_of 1 5) fresh))

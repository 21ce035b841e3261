-- ===== src/OrderBook/Reached.antt =====
-- The books that the operations of src/state/l3_book/mod.rs make, the loading of a snapshot included.
use perpl_dex_sdk.Prelude.{List, [], ◌∷◌, map, Option-cases, inl, inr, Result, ok, err, and_then}
use perpl_dex_sdk.Amount.{Amount}
use perpl_dex_sdk.Types.{OrderId}
use perpl_dex_sdk.Order.{Order}
use perpl_dex_sdk.BookError.{OrderBookError}
use perpl_dex_sdk.OrderBook
use perpl_dex_sdk.OrderBook.{OrderBook, insert_order, insert_level}
use perpl_dex_sdk.OrderBook.Ops.{add_order, update_order, remove_order_by_id, move_to_back}
use perpl_dex_sdk.OrderBook.Snapshot.{
  Group, fault, snapshot_node, insert_all, group_orders, build_level, build_levels,
  add_orders_from_snapshot,
}
use perpl_dex_sdk.OrderBook.Ordered.{
  IsOrdered, IsOrdered-new, IsOrdered-insert_level, IsOrdered-insert_order, add_order-IsOrdered,
  update_order-IsOrdered, remove_order_by_id-IsOrdered, move_to_back-IsOrdered,
}

module _ {U : Type 0} ⦃d : Amount U⦄ where
  insert_all-IsOrdered :
      (ids : List OrderId) (orders : List (Order U)) (b : OrderBook U)
      → IsOrdered b
      → IsOrdered (insert_all ids orders b).0
  unfolding insert_all
  insert_all-IsOrdered ids [] b o = o
  insert_all-IsOrdered ids (order ∷ orders) b o = elim (Option-cases (fault ids order)) [
    | inl fine ↦
        rw (fine, insert_all)
          (insert_all-IsOrdered ids orders (insert_order order.order_id (snapshot_node order) b)
            (IsOrdered-insert_order order.order_id (snapshot_node order) b o))
    | inr (e, bad) ↦ rw (bad, insert_all) o
  ]

  build_levels-IsOrdered :
      (groups : List (Group U)) (b : OrderBook U) → IsOrdered b → IsOrdered (build_levels groups b)
  unfolding build_levels
  build_levels-IsOrdered [] b o = o
  build_levels-IsOrdered (g ∷ groups) b o =
      build_levels-IsOrdered groups (insert_level g.side g.price (build_level b.orders g.ids) b)
        (IsOrdered-insert_level g.side g.price (build_level b.orders g.ids) b o)

  both_passes :
      (r : OrderBook U × Result (OrderBookError U) (Unit {0})) (groups : List (Group U))
      → IsOrdered r.0
      → IsOrdered (and_then {B = Unit {0}} r (λ _ b'. (build_levels groups b', ok tt))).0
  both_passes (b, ok a) groups o = build_levels-IsOrdered groups b o
  both_passes (b, err e) groups o = o

  add_orders_from_snapshot-IsOrdered :
      (orders : List (Order U)) (b : OrderBook U)
      → IsOrdered b
      → IsOrdered (add_orders_from_snapshot orders b).0
  unfolding add_orders_from_snapshot
  add_orders_from_snapshot-IsOrdered orders b o =
      both_passes (insert_all (map (λ o. o.order_id) orders) orders b) (group_orders orders [])
        (insert_all-IsOrdered (map (λ o. o.order_id) orders) orders b o)

  -- Every change of a book, from the new one on.
  pub data Reached : OrderBook U → Type 0 where
    fresh : Reached OrderBook.new
    adds : {b : OrderBook U} (order : Order U) → Reached b → Reached (add_order order b).0
    updates : {b : OrderBook U} (order : Order U) → Reached b → Reached (update_order order b).0
    removes : {b : OrderBook U} (id : OrderId) → Reached b → Reached (remove_order_by_id id b).0
    moves : {b : OrderBook U} (order : Order U) → Reached b → Reached (move_to_back order b).0
    loads :
        {b : OrderBook U} (orders : List (Order U))
        → Reached b
        → Reached (add_orders_from_snapshot orders b).0

  pub Reached-IsOrdered : {b : OrderBook U} → Reached b → IsOrdered b
  Reached-IsOrdered fresh = IsOrdered-new
  Reached-IsOrdered (adds order r) = add_order-IsOrdered order _ (Reached-IsOrdered r)
  Reached-IsOrdered (updates order r) = update_order-IsOrdered order _ (Reached-IsOrdered r)
  Reached-IsOrdered (removes id r) = remove_order_by_id-IsOrdered id _ (Reached-IsOrdered r)
  Reached-IsOrdered (moves order r) = move_to_back-IsOrdered order _ (Reached-IsOrdered r)
  Reached-IsOrdered (loads orders r) =
      add_orders_from_snapshot-IsOrdered orders _ (Reached-IsOrdered r)

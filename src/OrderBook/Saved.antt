-- ===== src/OrderBook/Saved.antt =====
-- A book that is saved with the links of its queues and loaded again, by `add_orders_from_snapshot` of
-- src/state/l3_book/mod.rs.
use mathlib.Core.Option
use perpl_dex_sdk.Prelude.{
  ℕ, ◌≤◌, ◌≡◌, refl, true, Option, none, some, List, [], ◌∷◌, has, Distinct, Option-cases, inl, inr,
  ap, sym, ◌∙◌, subst, some_inj, ok,
}
use perpl_dex_sdk.Amount.{Amount}
use perpl_dex_sdk.Types.{OrderId, OrderSide}
use perpl_dex_sdk.Order.{Order, with_links}
use perpl_dex_sdk.BookOrder
use perpl_dex_sdk.BookOrder.{BookOrder, order_side, set_prev, set_next}
use perpl_dex_sdk.OrderBook
use perpl_dex_sdk.OrderBook.{OrderBook, get_order}
use perpl_dex_sdk.OrderBook.Queue.{Nodes, Seg, total, total_frame, size_of}
use perpl_dex_sdk.OrderBook.Rep.{Rep, Queues, nodes}
use perpl_dex_sdk.OrderBook.Snapshot.{snapshot_node, add_orders_from_snapshot}
use perpl_dex_sdk.OrderBook.Loading.{snapshot_nodes, Sound}
use perpl_dex_sdk.OrderBook.Reload.{Forms, ids_of, loads}

module _ {U : Type 0} ⦃d : Amount U⦄ where
  -- An order of a book as a snapshot has it: with its links.
  abbrev pub saved : BookOrder U → Order U
  saved o = with_links o.prev o.next o.order

  -- The node that a snapshot makes of a node.
  abbrev pub resaved : BookOrder U → BookOrder U
  resaved o = snapshot_node (saved o)

  Seg-resaved :
      (h g : Nodes U) (s : OrderSide) (k : ℕ) (p : Option OrderId) (xs : List OrderId)
      (n : Option OrderId)
      → ((y : OrderId) → g y ≡ Option.map resaved (h y))
      → Seg h s k p xs n
      → Seg g s k p xs n
  unfolding snapshot_node with_links set_next set_prev BookOrder.new
  Seg-resaved h g s k p [] n e a = tt
  Seg-resaved h g s k p (x ∷ xs) n e (a, rest) = (
    record {
      node = resaved a.node;
      found = e x ∙ ap (Option.map resaved) a.found;
      prev_is = a.prev_is;
      next_is = a.next_is;
      side_is = a.side_is;
      key_is = a.key_is;
      id_is = a.id_is;
    },
    Seg-resaved h g s k (some x) xs n e rest,
  )

  size-resaved :
      (h g : Nodes U) (y : OrderId)
      → ((y : OrderId) → g y ≡ Option.map resaved (h y))
      → size_of (g y) ≡ size_of (h y)
  unfolding snapshot_node with_links set_next set_prev BookOrder.new
  size-resaved h g y e = elim (Option-cases (h y)) [
    | inl a ↦ rw (e y, a) refl
    | inr (o, a) ↦ rw (e y, a) refl
  ]

  Forms-resaved :
      (b : OrderBook U) (q : Queues) (g : Nodes U)
      → Rep b q
      → ((y : OrderId) → g y ≡ Option.map resaved (get_order y b))
      → Forms g q
  unfolding snapshot_node with_links set_next set_prev BookOrder.new
  Forms-resaved b q g rep e = record {
    linked = λ s k. Seg-resaved (nodes b) g s k none (q s k) none e (rep.linked s k);
    distinct = rep.distinct;
    queued = λ y o h. elim (Option-cases (get_order y b)) [
      | inl a ↦ absurd (cc (sym h ∙ e y ∙ ap (Option.map resaved) a))
      | inr (o', a) ↦
          let same : resaved o' ≡ o = some_inj (sym (e y ∙ ap (Option.map resaved) a) ∙ h) in
          subst (λ (o : BookOrder U). has y (q (order_side o) (d.units o.order.price)) ≡ true) same
            (rep.queued y o' a)
    ];
  }

  -- The orders of a consistent book, saved with their links, each once and in any order, and without a
  -- fault, are loaded into a new book without an error. The loaded book holds the same queues, and
  -- under each identifier the order that was saved. The sizes of each level together fit the decimal
  -- type.
  pub add_orders_from_snapshot-saved :
      (b : OrderBook U) (q : Queues) (orders : List (Order U))
      → Rep b q
      → ((y : OrderId) → snapshot_nodes orders y ≡ Option.map resaved (get_order y b))
      → Distinct (ids_of orders)
      → Sound (ids_of orders) orders
      → ((s : OrderSide) (k : ℕ) → total (nodes b) (q s k) ≤ d.cap)
      → ((add_orders_from_snapshot orders OrderBook.new).1 ≡ ok tt)
        × Rep (add_orders_from_snapshot orders OrderBook.new).0 q
        × ((y : OrderId)
            → get_order y (add_orders_from_snapshot orders OrderBook.new).0
              ≡ Option.map resaved (get_order y b))
  add_orders_from_snapshot-saved b q orders rep is dis sound room =
      let (succeeds, holds, same) =
        loads q orders (Forms-resaved b q (snapshot_nodes orders) rep is) dis sound (λ s k.
          subst (λ m. m ≤ d.cap)
            (sym (
              total_frame (nodes b) (snapshot_nodes orders) (q s k)
                (λ y m. size-resaved (nodes b) (snapshot_nodes orders) y is)))
            (room s k)) in
      (succeeds, holds, λ y. same y ∙ is y)

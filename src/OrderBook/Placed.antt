-- ===== src/OrderBook/Placed.antt =====
-- Where an order of the book stands: its queue before and behind it, its links and its level.
use perpl_dex_sdk.Prelude.{
  ◌≡◌, true, false, Option, none, some, List, ◌∷◌, ◌++◌, arith, ◌==◌, has, Distinct, first, last,
  has-append, ap, sym, ◌∙◌, subst, some_inj, drop_all, drop_all-split, split, Distinct-split,
  Distinct-without,
}
use perpl_dex_sdk.Amount.{Amount}
use perpl_dex_sdk.Types.{OrderId}
use perpl_dex_sdk.BookOrder.{BookOrder, order_side, set_next, set_prev}
use perpl_dex_sdk.BookLevel.{BookLevel}
use perpl_dex_sdk.OrderBook.{OrderBook, get_order, get_level}
use perpl_dex_sdk.OrderBook.Queue.{
  Nodes, Seg, Seg-Node, Seg-unlinked, size_at, size_of, alter_linked, unlinked, alter-last,
  alter-first, size-set_next, size-set_prev,
}
use perpl_dex_sdk.OrderBook.Rep.{Rep, Holds, Queues, nodes}
use perpl_dex_sdk.OrderBook.Member.{queue_of, level_of_nonempty}

module _ {U : Type 0} ⦃d : Amount U⦄ where
  pub size-unlinked :
      (p n : Option OrderId) (h : Nodes U) (y : OrderId) → size_of (unlinked p n h y) ≡ size_at h y
  size-unlinked p n h y =
      size-set_prev n p (alter_linked p (set_next n) h) y ∙ size-set_next p n h y

  pub record Placed (b : OrderBook U) (q : Queues) (id : OrderId) (node : BookOrder U)
      : Type 0 where
    pub member : has id (queue_of q node) ≡ true
    pub front : List OrderId
    pub back : List OrderId
    pub splits : queue_of q node ≡ front ++ id ∷ back
    pub distinct : Distinct (front ++ id ∷ back)
    pub prev_is : node.prev ≡ last front none
    pub next_is : node.next ≡ first back none
    pub level : BookLevel U
    pub has_level : get_level (order_side node) node.order.price b ≡ some level
    pub holds : Holds (nodes b) (front ++ id ∷ back) level
    pub without : drop_all id (queue_of q node) ≡ front ++ back
    pub out : has id (front ++ back) ≡ false
    pub out_front : has id front ≡ false
    pub out_back : has id back ≡ false
    pub distinct_without : Distinct (front ++ back)
    pub linked_without :
        Seg
          (unlinked node.prev node.next (nodes b))
          (order_side node)
          (d.units node.order.price)
          none
          (front ++ back)
          none

  -- Every order of the book has its place.
  pub place :
      {b : OrderBook U} {q : Queues}
      → Rep b q
      → (id : OrderId) (node : BookOrder U) → get_order id b ≡ some node
      → Placed b q id node
  place {b} {q} rep id node found =
      let s = order_side node in
      let k = d.units node.order.price in
      let m = rep.queued id node found in
      let parts = split id (queue_of q node) m in
      let front = parts.before in
      let back = parts.after in
      let dis : Distinct (front ++ id ∷ back) = subst Distinct parts.splits (rep.distinct s k) in
      let linked : Seg (nodes b) s k none (front ++ id ∷ back) none =
        subst (λ xs. Seg (nodes b) s k none xs none) parts.splits (rep.linked s k) in
      let own = Seg-Node (nodes b) s k front back id linked in
      let same : own.node ≡ node = some_inj (sym own.found ∙ found) in
      let level =
        level_of_nonempty (nodes b) (queue_of q node) id _ m (rep.levels s node.order.price) in
      let free = Distinct-split front id back dis in
      let prev_is : node.prev ≡ last front none =
        ap (λ (o : BookOrder U). o.prev) (sym same) ∙ own.prev_is in
      let next_is : node.next ≡ first back none =
        ap (λ (o : BookOrder U). o.next) (sym same) ∙ own.next_is in
      record {
        member = m;
        front = front;
        back = back;
        splits = parts.splits;
        distinct = dis;
        prev_is = prev_is;
        next_is = next_is;
        level = level.0;
        has_level = level.1;
        holds = subst (λ xs. Holds (nodes b) xs level.0) parts.splits level.2;
        without = ap (drop_all id) parts.splits ∙ drop_all-split front id back free.0 free.1;
        out = ground (arith, has-append id front back, free.0, free.1);
        out_front = free.0;
        out_back = free.1;
        distinct_without = Distinct-without front id back dis;
        linked_without =
            subst (λ p. Seg (unlinked p node.next (nodes b)) s k none (front ++ back) none)
              (sym prev_is)
              (subst
                (λ n. Seg (unlinked (last front none) n (nodes b)) s k none (front ++ back) none)
                (sym next_is) (Seg-unlinked (nodes b) s k front back id dis linked));
      }

  -- Unlinking writes only at the neighbours, which are in the queue.
  pub unlinked_outside :
      {b : OrderBook U} {q : Queues} {id : OrderId} {node : BookOrder U} (at : Placed b q id node)
      (y : OrderId)
      → has y (at.front ++ at.back) ≡ false
      → unlinked node.prev node.next (nodes b) y ≡ get_order y b
  unlinked_outside {b} at y away =
      let parts = has-append y at.front at.back in
      let left : has y at.front ≡ false = ground (arith, parts, away) in
      let right : has y at.back ≡ false = ground (arith, parts, away) in
      rw (at.prev_is, at.next_is)
        (alter-first (set_prev (last at.front none)) _ at.back y right
          ∙ alter-last (set_next (first at.back none)) (nodes b) at.front y left)

  -- What is not in the queue is not in the rest of it.
  pub away_rest :
      {b : OrderBook U} {q : Queues} {id : OrderId} {node : BookOrder U} (at : Placed b q id node)
      (y : OrderId)
      → has y (queue_of q node) ≡ false
      → has y (at.front ++ at.back) ≡ false
  away_rest {id} at y away = ground (
    arith,
    ap (has y) at.splits,
    has-append y at.front at.back,
    has-append y at.front (id ∷ at.back),
  )

  pub spared_by_unlink :
      {b : OrderBook U} {q : Queues} {id : OrderId} {node : BookOrder U} (at : Placed b q id node)
      (y : OrderId)
      → has y (queue_of q node) ≡ false
      → unlinked node.prev node.next (nodes b) y ≡ get_order y b
  spared_by_unlink {id} at y away = unlinked_outside at y (away_rest at y away)

  -- The others of the queue stay in it.
  pub rest_has :
      {b : OrderBook U} {q : Queues} {id : OrderId} {node : BookOrder U} (at : Placed b q id node)
      (y : OrderId)
      → has y (queue_of q node) ≡ true
      → (id == y) ≡ false
      → has y (at.front ++ at.back) ≡ true
  rest_has {id} at y m ne = ground (
    arith,
    ap (has y) at.splits,
    has-append y at.front at.back,
    has-append y at.front (id ∷ at.back),
  )

-- ===== src/OrderBook/Remove.antt =====
-- `remove_order_by_id`: the order leaves its queue, and a level that is left empty goes.
use perpl_dex_sdk.Prelude.{
  ℕ, ◌+◌, ◌-◌, ◌%◌, ◌^◌, ◌≡◌, refl, true, false, Option, none, some, List, [], ◌∷◌, ◌++◌, arith,
  ◌==◌, ==_iff, ==_refl, if◌then◌else◌, has, Distinct, first, last, last-append, length,
  length-append, is_some, Bool-cases, inl, inr, ap, ◌∙◌, ok, drop_all, Distinct-split,
}
use perpl_dex_sdk.Amount.{Amount}
use perpl_dex_sdk.Types.{OrderId, OrderSide}
use perpl_dex_sdk.BookOrder.{BookOrder, order_side}
use perpl_dex_sdk.BookLevel
use perpl_dex_sdk.BookLevel.{BookLevel, sub_size, set_tail, set_head}
use perpl_dex_sdk.OrderBook.{
  OrderBook, get_order, get_level, modify_level, remove_level, unlink_node, drop_order,
}
use perpl_dex_sdk.OrderBook.Ops.{is_id, detach, remove_order_by_id}
use perpl_dex_sdk.OrderBook.Queue.{
  Nodes, Seg-frame, total, total-append, total_frame, size_at, size_of, unlinked,
}
use perpl_dex_sdk.OrderBook.View.{
  get_order-modify_level, get_order-remove_level, get_order-unlink_node, get_order-drop_order,
  get_level-modify_level, get_level-remove_level, get_level-same, get_level-unlink_node,
  get_level-drop_order,
}
use perpl_dex_sdk.OrderBook.Rep.{
  Rep, Holds, LevelIs, Queues, nodes, requeue, same_level, same_level_refl, Requeued, Rep-requeue,
  total-elsewhere,
}
use perpl_dex_sdk.OrderBook.Member.{queue_of, LevelIs-key, member_elsewhere}
use perpl_dex_sdk.OrderBook.Placed.{
  Placed, place, size-unlinked, spared_by_unlink, unlinked_outside, rest_has,
}

pub is_id-last :
    (id : OrderId) (xs : List OrderId) → has id xs ≡ false → is_id id (last xs none) ≡ false
is_id-last id [] out = refl
is_id-last id (x ∷ []) out = ground arith
is_id-last id (x ∷ y ∷ xs) out = is_id-last id (y ∷ xs) (ground arith)

-- The ends of a queue without one of its members.
pub first_without :
    (id : OrderId) (xs ys : List OrderId)
    → has id xs ≡ false
    → (if is_id id (first (xs ++ id ∷ ys) none) then first ys none else first (xs ++ id ∷ ys) none)
      ≡ first (xs ++ ys) none
first_without id [] ys out = ground arith
first_without id (x ∷ xs) ys out = ground arith

pub last_without :
    (id : OrderId) (xs ys : List OrderId)
    → has id ys ≡ false
    → (if is_id id (last (xs ++ id ∷ ys) none) then last xs none else last (xs ++ id ∷ ys) none)
      ≡ last (xs ++ ys) none
last_without id xs [] out = rw (last-append xs (id ∷ []) none, last-append xs [] none, ==_refl id)
last_without id xs (y ∷ ys) out =
    rw (last-append xs (id ∷ y ∷ ys) none, last-append xs (y ∷ ys) none, is_id-last id (y ∷ ys) out)

module _ {U : Type 0} ⦃d : Amount U⦄ where
  detach_fields :
      (id : OrderId) (p n : Option OrderId) (size : U) (l : BookLevel U)
      → ((detach id p n size l).head ≡ (if is_id id l.head then n else l.head))
        × ((detach id p n size l).tail ≡ (if is_id id l.tail then p else l.tail))
        × ((detach id p n size l).cached_size ≡ d.sub l.cached_size size)
        × ((detach id p n size l).cached_count ≡ (l.cached_count + 2 ^ 32 - 1) % 2 ^ 32)
  unfolding detach sub_size set_head set_tail
  detach_fields id p n size l = ground arith

  abbrev pub pruned : BookLevel U → Option (BookLevel U)
  pruned l = if BookLevel.is_empty l then none else some l

  pruned-LevelIs :
      (h : Nodes U) (zs : List OrderId) (l : BookLevel U)
      → l.head ≡ first zs none
      → l.tail ≡ last zs none
      → d.units l.cached_size ≡ total h zs
      → l.cached_count ≡ length zs % 2 ^ 32
      → LevelIs h zs (pruned l)
  unfolding BookLevel.is_empty
  pruned-LevelIs h [] l eh et es ec = rw eh refl
  pruned-LevelIs h (z ∷ zs) l eh et es ec =
      let filled : is_some l.head ≡ true = ap is_some eh in
      rw filled
        (record { head_is = eh; tail_is = et; size_is = es; count_is = ec; nonempty = refl })

  detach-LevelIs :
      (h g : Nodes U) (xs ys : List OrderId) (id : OrderId) (size : U) (l : BookLevel U)
      → Distinct (xs ++ id ∷ ys)
      → ((y : OrderId) → has y (xs ++ ys) ≡ true → size_at g y ≡ size_at h y)
      → size_at h id ≡ d.units size
      → Holds h (xs ++ id ∷ ys) l
      → LevelIs g (xs ++ ys) (pruned (detach id (last xs none) (first ys none) size l))
  detach-LevelIs h g xs ys id size l dis same at a =
      let fields = detach_fields id (last xs none) (first ys none) size l in
      let free = Distinct-split xs id ys dis in
      pruned-LevelIs g (xs ++ ys) (detach id (last xs none) (first ys none) size l)
        (fields.0 ∙ rw a.head_is (first_without id xs ys free.0))
        (fields.1 ∙ rw a.tail_is (last_without id xs ys free.1))
        (ap d.units fields.2
          ∙ omega (
            arith,
            a.size_is,
            at,
            total-append h xs (id ∷ ys),
            total-append h xs ys,
            total_frame h g (xs ++ ys) same,
            d.units_sub l.cached_size size
                (omega (arith, a.size_is, at, total-append h xs (id ∷ ys))),
          ))
        (fields.3 ∙ omega (arith, a.count_is, length-append xs (id ∷ ys), length-append xs ys))

  detach-LevelIs_links :
      (h g : Nodes U) (xs ys : List OrderId) (id : OrderId) (p n : Option OrderId) (size : U)
      (l : BookLevel U)
      → p ≡ last xs none
      → n ≡ first ys none
      → Distinct (xs ++ id ∷ ys)
      → ((y : OrderId) → has y (xs ++ ys) ≡ true → size_at g y ≡ size_at h y)
      → size_at h id ≡ d.units size
      → Holds h (xs ++ id ∷ ys) l
      → LevelIs g (xs ++ ys) (pruned (detach id p n size l))
  detach-LevelIs_links h g xs ys id p n size l ep en dis same at a =
      rw (ep, en) (detach-LevelIs h g xs ys id size l dis same at a)

  -- The book that a successful removal leaves.
  pub removed : OrderId → BookOrder U → BookLevel U → OrderBook U → OrderBook U
  removed id node level b =
      let s = order_side node in
      let b1 = unlink_node node.prev node.next b in
      let change = detach id node.prev node.next node.order.size in
      let b2 = modify_level s node.order.price change b1 in
      drop_order id
        (if BookLevel.is_empty (change level) then remove_level s node.order.price b2 else b2)

  module _ (id : OrderId) (node : BookOrder U) (level : BookLevel U) (b : OrderBook U) where
    abbrev change : BookLevel U → BookLevel U
    change = detach id node.prev node.next node.order.size

    abbrev unlinked_book : OrderBook U
    unlinked_book = unlink_node node.prev node.next b

    abbrev levelled_book : OrderBook U
    levelled_book =
        let b2 = modify_level (order_side node) node.order.price change unlinked_book in
        if BookLevel.is_empty (change level)
        then remove_level (order_side node) node.order.price b2
        else b2

    get_order-levelled :
        (y : OrderId) → get_order y levelled_book ≡ unlinked node.prev node.next (nodes b) y
    get_order-levelled y =
        let b2 = modify_level (order_side node) node.order.price change unlinked_book in
        ground (
          arith,
          get_order-remove_level (order_side node) node.order.price b2 y,
          get_order-modify_level (order_side node) node.order.price change unlinked_book y,
          get_order-unlink_node node.prev node.next b y,
        )

    get_order-removed :
        (y : OrderId)
        → get_order y (removed id node level b)
          ≡ (if id == y then none else unlinked node.prev node.next (nodes b) y)
    unfolding removed
    get_order-removed y =
        get_order-drop_order id levelled_book y
        ∙ ap (λ (o : Option (BookOrder U)). if id == y then none else o) (get_order-levelled y)

    get_level-removed :
        get_level (order_side node) node.order.price b ≡ some level
        → (s : OrderSide) (p : U)
        → get_level s p (removed id node level b) ≡ (
            if same_level (order_side node) (d.units node.order.price) s (d.units p)
            then pruned (change level)
            else get_level s p b)
    unfolding removed
    get_level-removed e s p =
        let b2 = modify_level (order_side node) node.order.price change unlinked_book in
        ground (
          arith,
          get_level-drop_order id levelled_book s p,
          get_level-remove_level (order_side node) node.order.price b2 s p,
          get_level-modify_level (order_side node) node.order.price change unlinked_book s p,
          get_level-unlink_node node.prev node.next b s p,
          get_level-same (order_side node) node.order.price s p b,
        )

  module _ {b : OrderBook U} {q : Queues} (rep : Rep b q) (id : OrderId) (node : BookOrder U)
      (found : get_order id b ≡ some node) where
    at : Placed b q id node
    at = place rep id node found

    after : OrderBook U
    after = removed id node at.level b

    others_after :
        (y : OrderId)
        → (id == y) ≡ false
        → get_order y after ≡ unlinked node.prev node.next (nodes b) y
    unfolding after
    others_after y ne = get_order-removed id node at.level b y ∙ rw ne

    gone_after : get_order id after ≡ none
    unfolding after
    gone_after = get_order-removed id node at.level b id ∙ rw (==_refl id)

    rest_after :
        (y : OrderId)
        → has y (at.front ++ at.back) ≡ true
        → get_order y after ≡ unlinked node.prev node.next (nodes b) y
    rest_after y m = others_after y (ground (arith, at.out, ==_iff id y))

    level_after :
        LevelIs
          (nodes after)
          (at.front ++ at.back)
          (get_level (order_side node) node.order.price after)
    unfolding after
    level_after =
        rw
          (
            get_level-removed id node at.level b at.has_level (order_side node) node.order.price,
            same_level_refl (order_side node) (d.units node.order.price),
          )
          (detach-LevelIs_links (nodes b) (nodes after) at.front at.back id node.prev node.next
            node.order.size at.level at.prev_is at.next_is at.distinct
            (λ y m. ap size_of (rest_after y m) ∙ size-unlinked node.prev node.next (nodes b) y)
            (ap size_of found) at.holds)

    Requeued-removed :
        Requeued b q (order_side node) (d.units node.order.price) id (at.front ++ at.back) after
    unfolding after
    Requeued-removed = record {
      spared = λ y away ne. others_after y ne ∙ spared_by_unlink at y away;
      elsewhere = member_elsewhere rep (order_side node) (d.units node.order.price) id at.member;
      linked = Seg-frame _ _ _ _ none (at.front ++ at.back) none rest_after at.linked_without;
      distinct = at.distinct_without;
      level = λ price e. LevelIs-key _ _ _ node.order.price price _ e level_after;
      other_levels =
          λ s' price ne. get_level-removed id node at.level b at.has_level s' price ∙ rw ne;
      kept = λ y o e t. elim (Bool-cases (id == y)) [
        | inl same ↦ absurd (cc (e, get_order-removed id node at.level b y, same))
        | inr ne ↦ rest_has at y (ground arith) ne
      ];
    }

    removed_lem : remove_order_by_id id b ≡ (removed id node at.level b, ok node.order)
    unfolding remove_order_by_id removed
    removed_lem = rw (
      found,
      get_level-unlink_node node.prev node.next b (order_side node) node.order.price,
      at.has_level,
      get_order-levelled id node at.level b id,
      unlinked_outside at id at.out,
      found,
    )

    -- On a book that holds the queues `q`, `remove_order_by_id` of an order of the book succeeds and returns the order. The book no
    -- longer holds it, its queue is the old one without it, and every other queue stays.
    pub remove_order_by_id-Rep :
        ((remove_order_by_id id b).1 ≡ ok node.order)
        × Rep
            (remove_order_by_id id b).0
            (requeue q (order_side node) (d.units node.order.price) (drop_all id (queue_of q node)))
        × (get_order id (remove_order_by_id id b).0 ≡ none)
    unfolding after
    remove_order_by_id-Rep =
        rw (removed_lem, at.without) (refl, Rep-requeue rep Requeued-removed, gone_after)

    pub total-remove_order_by_id :
        (s : OrderSide) (k : ℕ)
        → same_level (order_side node) (d.units node.order.price) s k ≡ false
        → total (nodes (remove_order_by_id id b).0) (q s k) ≡ total (nodes b) (q s k)
    unfolding after
    total-remove_order_by_id s k ne = rw removed_lem (total-elsewhere rep Requeued-removed s k ne)

-- ===== src/OrderBook/Add.antt =====
-- `add_order`: a new order goes behind the last one of its level, which is made if need be.
use mathlib.Core.Option
use perpl_dex_sdk.Prelude.{
  ◌+◌, ◌≤◌, ◌≡◌, refl, true, false, Option, none, some, List, [], ◌∷◌, ◌++◌, arith, ◌==◌, ==_iff,
  ==_refl, if◌then◌else◌, has, last, last-append, length-append, is_some, has-append, ap, sym, ◌∙◌,
  ok, Distinct-snoc,
}
use perpl_dex_sdk.Amount.{Amount}
use perpl_dex_sdk.Types.{OrderId, OrderSide, side}
use perpl_dex_sdk.Order.{Order}
use perpl_dex_sdk.BookOrder
use perpl_dex_sdk.BookOrder.{BookOrder, order_side, set_next, set_prev}
use perpl_dex_sdk.BookLevel
use perpl_dex_sdk.BookLevel.{BookLevel, add_size, set_tail, set_head}
use perpl_dex_sdk.OrderBook.{
  OrderBook, get_order, get_level, get_or_create_level, insert_order, modify_linked, link_at_tail,
  append_to_level,
}
use perpl_dex_sdk.OrderBook.Ops.{append_order, add_order}
use perpl_dex_sdk.OrderBook.Queue.{
  Nodes, total, total-append, total_frame, Seg-snoc, size_at, size_of, alter_linked, alter-last,
  size-set_next,
}
use perpl_dex_sdk.OrderBook.View.{
  get_order-insert_order, get_level-insert_order, get_order-modify_level, get_order-modify_linked,
  get_level-modify_level, get_level-modify_linked, level_or_new, get_or_create_level-level,
  get_order-get_or_create_level, get_level-get_or_create_level, alter_linked-cong,
}
use perpl_dex_sdk.OrderBook.Rep.{
  Rep, Holds, LevelIs, Queues, nodes, requeue, same_level, same_level_refl, Requeued, Rep-requeue,
}
use perpl_dex_sdk.OrderBook.Member.{LevelIs-key, absent}

module _ {U : Type 0} ⦃d : Amount U⦄ where
  -- The order map after the new node and the link to it.
  abbrev pub put_node : OrderId → BookOrder U → Nodes U → Nodes U
  put_node id node h y = if id == y then some node else h y

  module _ (order : Order U) (b : OrderBook U) where
    abbrev old_level : BookLevel U
    old_level = level_or_new (get_level (side order.type) order.price b)

    abbrev new_node : BookOrder U
    new_node = set_prev old_level.tail (BookOrder.new order)

    get_order-append_order :
        (y : OrderId)
        → get_order y (append_order order b)
          ≡ alter_linked old_level.tail
              (set_next (some order.order_id))
              (put_node order.order_id new_node (nodes b))
              y
    unfolding append_order link_at_tail
    get_order-append_order y =
        let t = side order.type in
        let (level, b') = get_or_create_level t order.price b in
        let node = set_prev level.tail (BookOrder.new order) in
        let next = set_next (some order.order_id) in
        get_order-modify_level t order.price _ _ y
        ∙ get_order-get_or_create_level t order.price _ y
        ∙ get_order-modify_linked level.tail next (insert_order order.order_id node b') y
        ∙ alter_linked-cong level.tail next (nodes (insert_order order.order_id node b'))
            (put_node order.order_id node (nodes b)) y
            (get_order-insert_order order.order_id node b' y
              ∙ ap (λ (o : Option (BookOrder U)). if order.order_id == y then some node else o)
                  (get_order-get_or_create_level t order.price b y))
        ∙ ap
            (λ (l : BookLevel U).
              alter_linked l.tail next
                (put_node order.order_id (set_prev l.tail (BookOrder.new order)) (nodes b)) y)
            (get_or_create_level-level t order.price b)

    get_level-append_order :
        (s : OrderSide) (p : U)
        → get_level s p (append_order order b) ≡ (
            if same_level (side order.type) (d.units order.price) s (d.units p)
            then some (append_to_level order.order_id order.size old_level)
            else get_level s p b)
    unfolding append_order link_at_tail
    get_level-append_order s p =
        let t = side order.type in
        let (level, b') = get_or_create_level t order.price b in
        let node = set_prev level.tail (BookOrder.new order) in
        let next = set_next (some order.order_id) in
        let b2 = insert_order order.order_id node b' in
        let b3 = modify_linked level.tail next b2 in
        ground (
          arith,
          get_level-modify_level t order.price (append_to_level order.order_id order.size)
              (get_or_create_level t order.price b3).1 s p,
          get_level-get_or_create_level t order.price b3 s p,
          get_level-modify_linked level.tail next b2 s p,
          get_level-modify_linked level.tail next b2 t order.price,
          get_level-insert_order order.order_id node b' s p,
          get_level-insert_order order.order_id node b' t order.price,
          get_level-get_or_create_level t order.price b s p,
          get_level-get_or_create_level t order.price b t order.price,
          same_level_refl t (d.units order.price),
        )

  append_to_level-Holds :
      (h g : Nodes U) (xs : List OrderId) (id : OrderId) (size : U) (l : Option (BookLevel U))
      → ((y : OrderId) → has y xs ≡ true → size_at g y ≡ size_at h y)
      → size_at g id ≡ d.units size
      → total h xs + d.units size ≤ d.cap
      → LevelIs h xs l
      → Holds g (xs ++ id ∷ []) (append_to_level id size (level_or_new l))
  unfolding append_to_level BookLevel.new add_size set_tail set_head BookLevel.is_empty
  append_to_level-Holds h g xs id size none same new small a = rw a (record {
    head_is = refl;
    tail_is = refl;
    size_is =
        omega
          (arith, new, d.units_zero, d.units_add d.zero size (omega (arith, small, d.units_zero)));
    count_is = omega arith;
    nonempty = refl;
  })
  append_to_level-Holds h g [] id size (some l) same new small a = absurd (cc a.nonempty)
  append_to_level-Holds h g (x ∷ xs) id size (some l) same new small a =
      let filled : is_some l.head ≡ true = ap is_some a.head_is in
      rw filled (record {
        head_is = a.head_is;
        tail_is = sym (last-append (x ∷ xs) (id ∷ []) none);
        size_is = omega (
          arith,
          new,
          a.size_is,
          total-append g (x ∷ xs) (id ∷ []),
          total_frame h g (x ∷ xs) same,
          d.units_add l.cached_size size (omega (arith, a.size_is)),
        );
        count_is = omega (arith, a.count_is, length-append (x ∷ xs) (id ∷ []));
        nonempty = refl;
      })

  module _ {b : OrderBook U} {q : Queues} (rep : Rep b q) (order : Order U)
      (fresh : get_order order.order_id b ≡ none)
      (small : total (nodes b) (q (side order.type) (d.units order.price)) + d.units order.size
        ≤ d.cap) where
    abbrev queue : List OrderId
    queue = q (side order.type) (d.units order.price)

    old_tail_is : (old_level order b).tail ≡ last queue none
    unfolding BookLevel.new
    old_tail_is =
        tail_of (get_level (side order.type) order.price b)
          (rep.levels (side order.type) order.price)
      where
        tail_of :
            (l : Option (BookLevel U))
            → LevelIs (nodes b) queue l
            → (level_or_new l).tail ≡ last queue none
        tail_of none a = rw a
        tail_of (some l) a = a.tail_is

    out : has order.order_id queue ≡ false
    out = absent rep order.order_id fresh (side order.type) (d.units order.price)

    node_after :
        (y : OrderId)
        → get_order y (append_order order b)
          ≡ alter_linked
              (last queue none)
              (set_next (some order.order_id))
              (put_node order.order_id (set_prev (last queue none) (BookOrder.new order)) (nodes b))
              y
    node_after y =
        get_order-append_order order b y
        ∙ ap
            (λ (t : Option OrderId).
              alter_linked t (set_next (some order.order_id))
                (put_node order.order_id (set_prev t (BookOrder.new order)) (nodes b)) y)
            old_tail_is

    new_after :
        get_order order.order_id (append_order order b)
        ≡ some (set_prev (last queue none) (BookOrder.new order))
    new_after =
        node_after order.order_id
        ∙ alter-last (set_next (some order.order_id)) _ queue order.order_id out
        ∙ rw (==_refl order.order_id)

    old_after :
        (y : OrderId)
        → has y queue ≡ true
        → get_order y (append_order order b)
          ≡ alter_linked (last queue none) (set_next (some order.order_id)) (nodes b) y
    old_after y m =
        node_after y
        ∙ alter_linked-cong (last queue none) (set_next (some order.order_id)) _ (nodes b) y
            (ground (arith, out, ==_iff order.order_id y))

    size_after :
        (y : OrderId)
        → has y queue ≡ true
        → size_at (nodes (append_order order b)) y ≡ size_at (nodes b) y
    size_after y m =
        ap size_of (old_after y m)
        ∙ size-set_next (last queue none) (some order.order_id) (nodes b) y

    level_after :
        LevelIs
          (nodes (append_order order b))
          (queue ++ order.order_id ∷ [])
          (get_level (side order.type) order.price (append_order order b))
    unfolding set_prev BookOrder.new
    level_after =
        rw
          (
            get_level-append_order order b (side order.type) order.price,
            same_level_refl (side order.type) (d.units order.price),
          )
          (append_to_level-Holds (nodes b) (nodes (append_order order b)) queue order.order_id
            order.size (get_level (side order.type) order.price b) size_after (ap size_of new_after)
            small (rep.levels (side order.type) order.price))

    Requeued-append_order :
        Requeued b q
          (side order.type)
          (d.units order.price)
          order.order_id
          (queue ++ order.order_id ∷ [])
          (append_order order b)
    unfolding set_prev BookOrder.new
    Requeued-append_order = record {
      spared = λ y away ne.
          node_after y ∙ alter-last (set_next (some order.order_id)) _ queue y away ∙ rw ne;
      elsewhere = λ s' k' ne. absent rep order.order_id fresh s' k';
      linked =
          Seg-snoc (nodes b) _ _ _ queue order.order_id
            (rep.distinct (side order.type) (d.units order.price))
            (rep.linked (side order.type) (d.units order.price)) old_after
            (record {
              node = set_prev (last queue none) (BookOrder.new order);
              found = new_after;
              prev_is = refl;
              next_is = refl;
              side_is = refl;
              key_is = refl;
              id_is = refl;
            });
      distinct =
          Distinct-snoc queue order.order_id (rep.distinct (side order.type) (d.units order.price))
            out;
      level = λ price e. LevelIs-key _ _ _ order.price price _ e level_after;
      other_levels = λ s' price ne. get_level-append_order order b s' price ∙ rw ne;
      kept = λ y o e t.
          ground (arith, has-append y queue (order.order_id ∷ []), ==_iff order.order_id y);
    }

    -- On a book that holds the queues `q`, `add_order` of an order with a fresh identifier, a size
    -- and a price that are not zero and room for its size at its level succeeds, and puts the order
    -- behind the others of its level; every other queue stays.
    pub add_order-Rep :
        d.eq order.size d.zero ≡ false
        → d.eq order.price d.zero ≡ false
        → ((add_order order b).1 ≡ ok tt)
          × Rep (add_order order b).0 (
              requeue q
                (side order.type)
                (d.units order.price)
                (q (side order.type) (d.units order.price) ++ order.order_id ∷ []))
          × (Option.map
                (λ (o : BookOrder U). o.order)
                (get_order order.order_id (add_order order b).0)
              ≡ some order)
    unfolding add_order set_prev BookOrder.new
    add_order-Rep sized priced =
        rw (sized, priced, fresh)
          (refl, Rep-requeue rep Requeued-append_order, ap (Option.map (λ o. o.order)) new_after)

-- ===== src/OrderBook/Reload.antt =====
-- `add_orders_from_snapshot` of src/state/l3_book/mod.rs against the book that the snapshot is of.
use perpl_dex_sdk.Prelude.{
  ℕ, ◌≤◌, ◌≡◌, refl, Bool, true, false, not, Option, none, some, map_or, List, [], ◌∷◌, map, has,
  Distinct, arith, ◌==◌, ==_iff, ==_refl, if◌then◌else◌, is_empty, Bool-cases, Option-cases, inl,
  inr, ap, sym, ◌∙◌, subst, Result, ok, and_then_ok,
}
use perpl_dex_sdk.Amount.{Amount}
use perpl_dex_sdk.Types.{OrderId, OrderSide, side}
use perpl_dex_sdk.Table
use perpl_dex_sdk.BookKeys.{by_id}
use perpl_dex_sdk.Order.{Order}
use perpl_dex_sdk.BookError.{OrderBookError}
use perpl_dex_sdk.BookOrder
use perpl_dex_sdk.BookOrder.{BookOrder, order_side, set_prev, set_next}
use perpl_dex_sdk.OrderBook
use perpl_dex_sdk.OrderBook.{OrderBook, get_order, get_level, insert_order, insert_level}
use perpl_dex_sdk.OrderBook.Queue.{Nodes, Seg, Seg-frame, Seg-member, total, total_frame, size_of}
use perpl_dex_sdk.OrderBook.Rep.{
  Rep, Queues, LevelIs, LevelIs-frame, level_of_new, nodes, same_level, same_level_of, at_level,
}
use perpl_dex_sdk.OrderBook.Snapshot.{
  snapshot_node, insert_all, group_orders, build_level, build_levels, add_orders_from_snapshot,
}
use perpl_dex_sdk.OrderBook.Grouping.{has_group, ids_at, group_orders-ids_at, no_entries}
use perpl_dex_sdk.OrderBook.BuildLevel.{SameIds, build_level-Holds, no_ids}
use perpl_dex_sdk.OrderBook.Loading.{
  snapshot_nodes, over, over-ext, Sound, Inserted, insert_all-Inserted, orders-build_levels,
  get_level-build_levels, get_level-Grouped,
}

some_entry {ℓ} : {A : Type ℓ} (xs : List A) → not (is_empty xs) ≡ true → is_empty xs ≡ false
some_entry [] h = absurd (cc h)
some_entry (x ∷ xs) h = refl

SameIds-nonempty : (xs ys : List ℕ) → SameIds xs ys → is_empty xs ≡ false → is_empty ys ≡ false
SameIds-nonempty [] ys same h = absurd (cc h)
SameIds-nonempty (x ∷ xs) [] same h = absurd (ground (arith, same x, ==_refl x))
SameIds-nonempty (x ∷ xs) (y ∷ ys) same h = refl

module _ {U : Type 0} ⦃d : Amount U⦄ where
  -- Whether a node stands at a level.
  abbrev at_place : OrderSide → ℕ → Option (BookOrder U) → Bool
  at_place s k n = map_or false (λ o. same_level (order_side o) (d.units o.order.price) s k) n

  abbrev pub ids_of : List (Order U) → List OrderId
  ids_of orders = map (λ o. o.order_id) orders

  not_there :
      (s : OrderSide) (k : ℕ) (orders : List (Order U)) (y : OrderId)
      → has y (ids_of orders) ≡ false
      → has y (ids_at s k orders) ≡ false
  not_there s k [] y h = refl
  not_there s k (o ∷ os) y h = elim (Bool-cases (same_level (side o.type) (d.units o.price) s k)) [
    | inl e ↦ rw e (ground (arith, not_there s k os y))
    | inr e ↦ rw e (not_there s k os y (ground arith))
  ]

  Distinct-ids_at :
      (s : OrderSide) (k : ℕ) (orders : List (Order U))
      → Distinct (ids_of orders)
      → Distinct (ids_at s k orders)
  Distinct-ids_at s k [] dis = tt
  Distinct-ids_at s k (o ∷ os) dis =
      elim (Bool-cases (same_level (side o.type) (d.units o.price) s k)) [
        | inl e ↦ rw e (not_there s k os o.order_id dis.0, Distinct-ids_at s k os dis.1)
        | inr e ↦ rw e (Distinct-ids_at s k os dis.1)
      ]

  place_behind :
      (s : OrderSide) (k : ℕ) (h : Nodes U) (o : Order U) (os : List (Order U)) (y : OrderId)
      → Distinct (ids_of (o ∷ os))
      → (if has y (ids_of os)
          then has y (ids_at s k os)
          else at_place s k (if o.order_id == y then some (snapshot_node o) else h y))
        ≡ (if has y (ids_of (o ∷ os)) then has y (ids_at s k (o ∷ os)) else at_place s k (h y))
  unfolding snapshot_node set_next set_prev BookOrder.new
  place_behind s k h o os y dis = elim (Bool-cases (o.order_id == y)) [
    | inl e ↦
        let same = (==_iff o.order_id y).0 e in
        let out : has y (ids_of os) ≡ false = subst (λ i. has i (ids_of os) ≡ false) same dis.0 in
        let none_at = not_there s k os y out in
        let back : (y == o.order_id) ≡ true = ground (arith, e) in
        elim (Bool-cases (same_level (side o.type) (d.units o.price) s k)) [
          | inl l ↦ rw (out, e, back, l, back) refl
          | inr l ↦ rw (out, e, back, l, none_at) refl
        ]
    | inr e ↦
        let back : (y == o.order_id) ≡ false = ground (arith, e) in
        elim (Bool-cases (same_level (side o.type) (d.units o.price) s k)) [
          | inl l ↦ rw (e, back, l, back) refl
          | inr l ↦ rw (e, back, l) refl
        ]
  ]

  at_place-over :
      (s : OrderSide) (k : ℕ) (h : Nodes U) (orders : List (Order U)) (y : OrderId)
      → Distinct (ids_of orders)
      → at_place s k (over h orders y)
        ≡ (if has y (ids_of orders) then has y (ids_at s k orders) else at_place s k (h y))
  at_place-over s k h [] y dis = refl
  at_place-over s k h (o ∷ os) y dis =
      at_place-over s k (λ y. if o.order_id == y then some (snapshot_node o) else h y) os y dis.1
      ∙ place_behind s k h o os y dis

  -- The orders of a level are those whose nodes stand at it.
  has-ids_at :
      (s : OrderSide) (k : ℕ) (orders : List (Order U)) (y : OrderId)
      → Distinct (ids_of orders)
      → has y (ids_at s k orders) ≡ at_place s k (snapshot_nodes orders y)
  has-ids_at s k orders y dis =
      let here = at_place-over s k (λ y. none) orders y dis in
      elim (Bool-cases (has y (ids_of orders))) [
        | inl m ↦ sym (here ∙ rw m refl)
        | inr m ↦ not_there s k orders y m ∙ sym (here ∙ rw m refl)
      ]

  -- Orders with their links, which form the queues `q`.
  pub record Forms (h : Nodes U) (q : Queues) : Type 0 where
    pub linked : (s : OrderSide) (k : ℕ) → Seg h s k none (q s k) none
    pub distinct : (s : OrderSide) (k : ℕ) → Distinct (q s k)
    pub queued :
        (y : OrderId) (o : BookOrder U)
        → h y ≡ some o
        → has y (q (order_side o) (d.units o.order.price)) ≡ true

  -- The orders of a level are those of its queue.
  has-at_place :
      (h : Nodes U) (q : Queues) (s : OrderSide) (k : ℕ) (y : OrderId)
      → Forms h q
      → at_place s k (h y) ≡ has y (q s k)
  has-at_place h q s k y forms = elim (Bool-cases (has y (q s k))) [
    | inl m ↦
        let u = Seg-member h s k none (q s k) none y (forms.linked s k) m in
        rw (u.1, m) (same_level_of (order_side u.0) (d.units u.0.order.price) s k u.2 u.3)
    | inr m ↦ elim (Option-cases (h y)) [
      | inl e ↦ rw (e, m) refl
      | inr (o, e) ↦ elim (Bool-cases (same_level (order_side o) (d.units o.order.price) s k)) [
        | inr l ↦ rw (e, m, l) refl
        | inl l ↦
            let n =
              at_level (λ t j. has y (q t j) ≡ true) (order_side o) (d.units o.order.price) s k l
                (forms.queued y o e) in
            absurd (cc (n, m))
      ]
    ]
  ]

  no_nodes : (y : OrderId) → get_order {U = U} y OrderBook.new ≡ none
  unfolding OrderBook.new get_order Table.get
  no_nodes y = refl

  get_order-orders :
      (b c : OrderBook U) (y : OrderId) → b.orders ≡ c.orders → get_order y b ≡ get_order y c
  unfolding get_order
  get_order-orders b c y e = ap (Table.get by_id y) e

  module _ (q : Queues) (orders : List (Order U)) (forms : Forms (snapshot_nodes orders) q)
      (dis : Distinct (ids_of orders)) (sound : Sound (ids_of orders) orders) where
    -- The book behind the first pass, and behind the second.
    abbrev first_pass : OrderBook U
    first_pass = (insert_all (ids_of orders) orders OrderBook.new).0

    abbrev loaded : OrderBook U
    loaded = build_levels (group_orders orders []) first_pass

    passed : Inserted OrderBook.new orders (insert_all (ids_of orders) orders OrderBook.new)
    passed = insert_all-Inserted (ids_of orders) orders OrderBook.new sound

    get_order-first_pass : (y : OrderId) → get_order y first_pass ≡ snapshot_nodes orders y
    get_order-first_pass y =
        passed.holds y ∙ over-ext (nodes OrderBook.new) (λ y. none) orders y no_nodes

    get_order-loaded : (y : OrderId) → get_order y loaded ≡ snapshot_nodes orders y
    get_order-loaded y =
        get_order-orders loaded first_pass y
          (orders-build_levels (group_orders orders []) first_pass)
        ∙ get_order-first_pass y

    SameIds-queue : (s : OrderSide) (k : ℕ) → SameIds (ids_at s k orders) (q s k)
    SameIds-queue s k y =
        has-ids_at s k orders y dis ∙ has-at_place (snapshot_nodes orders) q s k y forms

    abbrev at_first : Nodes U
    at_first y = Table.get by_id y first_pass.orders

    levels-loaded :
        ((s : OrderSide) (k : ℕ) → total (snapshot_nodes orders) (q s k) ≤ d.cap)
        → (s : OrderSide) (price : U)
        → LevelIs (nodes loaded) (q s (d.units price)) (get_level s price loaded)
    unfolding get_order
    levels-loaded room s price =
        let k = d.units price in
        let groups = group_orders orders [] in
        let (grouped, covered) = group_orders-ids_at orders in
        elim (Bool-cases (has_group s k groups)) [
          | inl h ↦
              let full =
                SameIds-nonempty (ids_at s k orders) (q s k) (SameIds-queue s k)
                  (some_entry (ids_at s k orders) (sym (covered s k) ∙ h)) in
              subst (LevelIs (nodes loaded) (q s k))
                (sym (
                  get_level-Grouped (λ s k. ids_at s k orders) groups first_pass s price grouped h))
                (LevelIs-frame at_first (nodes loaded) (q s k)
                  (some (build_level first_pass.orders (ids_at s k orders)))
                  (λ y m. ap size_of (get_order-loaded y ∙ sym (get_order-first_pass y)))
                  (build_level-Holds first_pass.orders s k (ids_at s k orders) (q s k)
                    (Distinct-ids_at s k orders dis) (forms.distinct s k)
                    (Seg-frame (snapshot_nodes orders) at_first s k none (q s k) none
                      (λ y m. get_order-first_pass y) (forms.linked s k))
                    (SameIds-queue s k) full
                    (omega (
                      arith,
                      room s k,
                      total_frame (snapshot_nodes orders) at_first (q s k)
                          (λ y m. ap size_of (get_order-first_pass y)),
                    ))))
          | inr h ↦
              let nothing = no_entries (ids_at s k orders) (sym (covered s k) ∙ h) in
              let same : SameIds [] (q s k) =
                subst (λ ids. SameIds ids (q s k)) nothing (SameIds-queue s k) in
              let absent =
                get_level-build_levels groups first_pass s price h
                ∙ passed.levels_stay s price
                ∙ level_of_new s price in
              subst (LevelIs (nodes loaded) (q s k)) (sym absent) (no_ids (q s k) same)
        ]

    loaded-Rep :
        ((s : OrderSide) (k : ℕ) → total (snapshot_nodes orders) (q s k) ≤ d.cap) → Rep loaded q
    loaded-Rep room = record {
      linked = λ s k.
          Seg-frame (snapshot_nodes orders) (nodes loaded) s k none (q s k) none
            (λ y m. get_order-loaded y) (forms.linked s k);
      distinct = forms.distinct;
      levels = levels-loaded room;
      queued = λ y o e. forms.queued y o (sym (get_order-loaded y) ∙ e);
    }

    -- The loading, and the book that it makes.
    pub loads :
        ((s : OrderSide) (k : ℕ) → total (snapshot_nodes orders) (q s k) ≤ d.cap)
        → ((add_orders_from_snapshot orders OrderBook.new).1 ≡ ok tt)
          × Rep (add_orders_from_snapshot orders OrderBook.new).0 q
          × ((y : OrderId)
              → get_order y (add_orders_from_snapshot orders OrderBook.new).0
                ≡ snapshot_nodes orders y)
    unfolding add_orders_from_snapshot
    loads room =
        let run =
          and_then_ok (insert_all (ids_of orders) orders OrderBook.new) tt
            (λ _ b'. (build_levels (group_orders orders []) b', ok tt)) passed.succeeds in
        subst
          (λ (r : OrderBook U × Result (OrderBookError U) (Unit {0})).
            (r.1 ≡ ok tt) × Rep r.0 q × ((y : OrderId) → get_order y r.0 ≡ snapshot_nodes orders y))
          (sym run) (refl, loaded-Rep room, get_order-loaded)

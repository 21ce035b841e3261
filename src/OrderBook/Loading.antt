-- ===== src/OrderBook/Loading.antt =====
-- What `add_orders_from_snapshot` of src/state/l3_book/mod.rs makes of a new book.
use perpl_dex_sdk.Prelude.{
  ◌≡◌, refl, true, false, Option, none, some, List, [], ◌∷◌, ◌++◌, map, arith, ◌==◌, if◌then◌else◌,
  Bool-cases, inl, inr, ap, sym, ◌∙◌, Result, ok, err,
}
use perpl_dex_sdk.Amount.{Amount}
use perpl_dex_sdk.Types.{OrderId, OrderSide, ask, bid}
use perpl_dex_sdk.Order.{Order}
use perpl_dex_sdk.BookError.{OrderBookError}
use perpl_dex_sdk.BookOrder.{BookOrder}
use perpl_dex_sdk.BookLevel.{BookLevel}
use perpl_dex_sdk.OrderBook.{OrderBook, get_order, get_level, insert_order, insert_level}
use perpl_dex_sdk.OrderBook.Queue.{Nodes}
use perpl_dex_sdk.OrderBook.Rep.{Queues, nodes, at_level}
use perpl_dex_sdk.OrderBook.View.{
  get_order-insert_order, get_level-insert_order, get_level-insert_level,
}
use perpl_dex_sdk.OrderBook.Snapshot.{
  Group, fault, snapshot_node, insert_all, build_level, build_levels, add_orders_from_snapshot,
}
use perpl_dex_sdk.OrderBook.Grouping.{group_at, has_group, Grouped, same_level_sym}

module _ {U : Type 0} ⦃d : Amount U⦄ where
  -- The nodes that the orders of a snapshot are, over those of `h`.
  abbrev pub over : Nodes U → List (Order U) → Nodes U
  over h [] = h
  over h (o ∷ os) = over (λ y. if o.order_id == y then some (snapshot_node o) else h y) os

  -- The nodes of a snapshot.
  abbrev pub snapshot_nodes : List (Order U) → Nodes U
  snapshot_nodes orders = over (λ y. none) orders

  -- No order of the snapshot has a fault.
  abbrev pub Sound : List OrderId → List (Order U) → Type 0
  Sound ids [] = Unit
  Sound ids (o ∷ os) = (fault ids o ≡ none) × Sound ids os

  pub over-ext :
      (h g : Nodes U) (orders : List (Order U)) (y : OrderId)
      → ((y : OrderId) → h y ≡ g y)
      → over h orders y ≡ over g orders y
  over-ext h g [] y e = e y
  over-ext h g (o ∷ os) y e =
      over-ext (λ y. if o.order_id == y then some (snapshot_node o) else h y)
        (λ y. if o.order_id == y then some (snapshot_node o) else g y) os y
        (λ y.
          ap (λ (n : Option (BookOrder U)). if o.order_id == y then some (snapshot_node o) else n)
            (e y))

  -- What the first pass makes of the book.
  pub record Inserted (b : OrderBook U) (orders : List (Order U))
      (r : OrderBook U × Result (OrderBookError U) (Unit {0})) : Type 0 where
    pub succeeds : r.1 ≡ ok tt
    pub holds : (y : OrderId) → get_order y r.0 ≡ over (nodes b) orders y
    pub levels_stay : (s : OrderSide) (p : U) → get_level s p r.0 ≡ get_level s p b

  pub insert_all-Inserted :
      (ids : List OrderId) (orders : List (Order U)) (b : OrderBook U)
      → Sound ids orders
      → Inserted b orders (insert_all ids orders b)
  unfolding insert_all
  insert_all-Inserted ids [] b sound = record {
    succeeds = refl;
    holds = λ y. refl;
    levels_stay = λ s p. refl;
  }
  insert_all-Inserted ids (o ∷ os) b (fine, sound) =
      let b' = insert_order o.order_id (snapshot_node o) b in
      let rest = insert_all-Inserted ids os b' sound in
      rw (fine, insert_all)
        record {
          succeeds = rest.succeeds;
          holds = λ y.
              rest.holds y
              ∙ over-ext (nodes b')
                  (λ y. if o.order_id == y then some (snapshot_node o) else nodes b y) os y
                  (get_order-insert_order o.order_id (snapshot_node o) b);
          levels_stay = λ s p.
              rest.levels_stay s p ∙ get_level-insert_order o.order_id (snapshot_node o) b s p;
        }

  orders-insert_level :
      (s : OrderSide) (p : U) (l : BookLevel U) (b : OrderBook U)
      → (insert_level s p l b).orders ≡ b.orders
  unfolding insert_level
  orders-insert_level ask p l b = refl
  orders-insert_level bid p l b = refl

  -- The second pass leaves the orders.
  pub orders-build_levels :
      (groups : List (Group U)) (b : OrderBook U) → (build_levels groups b).orders ≡ b.orders
  unfolding build_levels
  orders-build_levels [] b = refl
  orders-build_levels (g ∷ groups) b =
      let l = build_level b.orders g.ids in
      orders-build_levels groups (insert_level g.side g.price l b)
      ∙ orders-insert_level g.side g.price l b

  -- A level without a group stays as it is.
  pub get_level-build_levels :
      (groups : List (Group U)) (b : OrderBook U) (s : OrderSide) (p : U)
      → has_group s (d.units p) groups ≡ false
      → get_level s p (build_levels groups b) ≡ get_level s p b
  unfolding build_levels
  get_level-build_levels [] b s p h = refl
  get_level-build_levels (g ∷ groups) b s p h =
      let l = build_level b.orders g.ids in
      let apart : group_at s (d.units p) g ≡ false = ground arith in
      get_level-build_levels groups (insert_level g.side g.price l b) s p (ground arith)
      ∙ get_level-insert_level g.side g.price l b s p
      ∙ rw (same_level_sym g.side s (d.units g.price) (d.units p) ∙ apart) refl

  -- The level of a group is built of its orders.
  pub get_level-Grouped :
      (f : Queues) (groups : List (Group U)) (b : OrderBook U) (s : OrderSide) (p : U)
      → Grouped f groups
      → has_group s (d.units p) groups ≡ true
      → get_level s p (build_levels groups b) ≡ some (build_level b.orders (f s (d.units p)))
  unfolding build_levels
  get_level-Grouped f [] b s p a h = absurd (cc h)
  get_level-Grouped f (g ∷ groups) b s p (ids, alone, a) h =
      let k = d.units p in
      let l = build_level b.orders g.ids in
      let b' = insert_level g.side g.price l b in
      elim (Bool-cases (group_at s k g)) [
        | inl e ↦
            let back = sym (same_level_sym s g.side k (d.units g.price)) ∙ e in
            let others =
              at_level (λ t j. has_group t j groups ≡ false) g.side (d.units g.price) s k back
                alone in
            let own = ids ∙ at_level (λ t j. f t j ≡ f s k) s k g.side (d.units g.price) e refl in
            get_level-build_levels groups b' s p others
            ∙ get_level-insert_level g.side g.price l b s p
            ∙ rw back (ap (λ xs. some (build_level b.orders xs)) own)
        | inr e ↦
            get_level-Grouped f groups b' s p a (ground arith)
            ∙ ap (λ t. some (build_level t (f s k))) (orders-insert_level g.side g.price l b)
      ]

  insert_all-failed :
      (ids : List OrderId) (before : List (Order U)) (o : Order U) (after : List (Order U))
      (e : OrderBookError U) (b : OrderBook U)
      → Sound ids before
      → fault ids o ≡ some e
      → insert_all ids (before ++ o ∷ after) b ≡ ((insert_all ids before b).0, err e)
  unfolding insert_all
  insert_all-failed ids [] o after e b sound bad = rw (bad, insert_all) refl
  insert_all-failed ids (x ∷ before) o after e b (fine, sound) bad =
      rw (fine, insert_all)
        (insert_all-failed ids before o after e (insert_order x.order_id (snapshot_node x) b) sound
          bad)

  pub add_orders_from_snapshot-fault :
      (before : List (Order U)) (o : Order U) (after : List (Order U)) (e : OrderBookError U)
      (b : OrderBook U)
      → Sound (map (λ o. o.order_id) (before ++ o ∷ after)) before
      → fault (map (λ o. o.order_id) (before ++ o ∷ after)) o ≡ some e
      → ((add_orders_from_snapshot (before ++ o ∷ after) b).1 ≡ err e)
        × ((y : OrderId)
            → get_order y (add_orders_from_snapshot (before ++ o ∷ after) b).0
              ≡ over (nodes b) before y)
        × ((s : OrderSide) (p : U)
            → get_level s p (add_orders_from_snapshot (before ++ o ∷ after) b).0 ≡ get_level s p b)
  unfolding add_orders_from_snapshot
  add_orders_from_snapshot-fault before o after e b sound bad =
      let ids = map (λ o. o.order_id) (before ++ o ∷ after) in
      let kept = insert_all-Inserted ids before b sound in
      rw (insert_all-failed ids before o after e b sound bad) (refl, kept.holds, kept.levels_stay)

-- ===== src/OrderBook/Grouping.antt =====
-- The levels that `add_orders_from_snapshot` of src/state/l3_book/mod.rs finds, each with its orders.
use perpl_dex_sdk.Prelude.{
  ℕ, ◌≡◌, refl, Bool, true, false, not, ◌&&◌, ◌||◌, List, [], ◌∷◌, ◌++◌, arith, if◌then◌else◌,
  is_empty, is_empty-snoc, Bool-cases, inl, inr, ap, sym, ◌∙◌,
}
use perpl_dex_sdk.Amount.{Amount}
use perpl_dex_sdk.Types.{OrderId, OrderSide, ask, bid, side}
use perpl_dex_sdk.Order.{Order}
use perpl_dex_sdk.OrderBook.Rep.{Queues, requeue, same_side, same_level, same_level_refl, at_level}
use perpl_dex_sdk.OrderBook.Snapshot.{Group, push_id, group_orders}

append_nothing {ℓ} : {A : Type ℓ} (xs : List A) → xs ++ [] ≡ xs
append_nothing [] = refl
append_nothing (x ∷ xs) = ap (λ ys. x ∷ ys) (append_nothing xs)

pub no_entries {ℓ} : {A : Type ℓ} (xs : List A) → not (is_empty xs) ≡ false → xs ≡ []
no_entries [] h = refl
no_entries (x ∷ xs) h = absurd (cc h)

append_both {ℓ} :
    {A : Type ℓ} (xs : List A) (x : A) (ys : List A) → (xs ++ x ∷ []) ++ ys ≡ xs ++ x ∷ ys
append_both [] x ys = refl
append_both (z ∷ xs) x ys = ap (λ zs. z ∷ zs) (append_both xs x ys)

same_level_trans :
    (s s' t : OrderSide) (k k' j : ℕ)
    → same_level s k s' k' ≡ true
    → same_level s k t j ≡ same_level s' k' t j
same_level_trans s s' t k k' j h =
    at_level (λ a b. same_level s k t j ≡ same_level a b t j) s k s' k' h refl

pub same_level_sym : (s s' : OrderSide) (k k' : ℕ) → same_level s k s' k' ≡ same_level s' k' s k
same_level_sym ask ask k k' = ground arith
same_level_sym ask bid k k' = refl
same_level_sym bid ask k k' = refl
same_level_sym bid bid k k' = ground arith

abbrev pushed : Queues → OrderSide → ℕ → OrderId → Queues
pushed f s k id = requeue f s k (f s k ++ id ∷ [])

module _ {U : Type 0} ⦃d : Amount U⦄ where
  abbrev pub group_at : OrderSide → ℕ → Group U → Bool
  group_at s k g = same_level s k g.side (d.units g.price)

  abbrev pub has_group : OrderSide → ℕ → List (Group U) → Bool
  has_group s k [] = false
  has_group s k (g ∷ gs) = group_at s k g || has_group s k gs

  -- Each group holds what `f` says of its level, and no level has two groups.
  abbrev pub Grouped : Queues → List (Group U) → Type 0
  Grouped f [] = Unit
  Grouped f (g ∷ gs) =
      (g.ids ≡ f g.side (d.units g.price))
      × (has_group g.side (d.units g.price) gs ≡ false)
      × Grouped f gs

  -- The groups are those of the levels with an order.
  abbrev pub Covered : Queues → List (Group U) → Type 0
  Covered f gs = (s : OrderSide) (k : ℕ) → has_group s k gs ≡ not (is_empty (f s k))

  -- The orders of a level, in the order of the snapshot.
  abbrev pub ids_at : OrderSide → ℕ → List (Order U) → List OrderId
  ids_at s k [] = []
  ids_at s k (o ∷ os) =
      if same_level (side o.type) (d.units o.price) s k
      then o.order_id ∷ ids_at s k os
      else ids_at s k os

  same_key :
      (price : U) (s : OrderSide) (g : Group U)
      → (same_side s g.side && d.eq price g.price) ≡ group_at s (d.units price) g
  same_key price s g = ap (λ b. same_side s g.side && b) (d.eq_units price g.price)

  Grouped-elsewhere :
      (f : Queues) (s : OrderSide) (k : ℕ) (xs : List OrderId) (gs : List (Group U))
      → has_group s k gs ≡ false
      → Grouped f gs
      → Grouped (requeue f s k xs) gs
  Grouped-elsewhere f s k xs [] h g = tt
  Grouped-elsewhere f s k xs (g ∷ gs) h (a, b, c) =
      let own : group_at s k g ≡ false = ground arith in
      (rw own a, b, Grouped-elsewhere f s k xs gs (ground arith) c)

  has_group-push_id :
      (price : U) (s : OrderSide) (id : OrderId) (gs : List (Group U)) (t : OrderSide) (j : ℕ)
      → has_group t j (push_id price s id gs)
        ≡ (same_level t j s (d.units price) || has_group t j gs)
  unfolding push_id
  has_group-push_id price s id [] t j = refl
  has_group-push_id price s id (g ∷ gs) t j = elim (Bool-cases (group_at s (d.units price) g)) [
    | inl h ↦
        let same =
          same_level_sym t s j (d.units price)
          ∙ same_level_trans s g.side t (d.units price) (d.units g.price) j h
          ∙ same_level_sym g.side t (d.units g.price) j in
        rw (same_key price s g, h, same) (ground arith)
    | inr h ↦ rw (same_key price s g, h, has_group-push_id price s id gs t j) (ground arith)
  ]

  Grouped-push_id :
      (price : U) (s : OrderSide) (id : OrderId) (f : Queues) (gs : List (Group U))
      → (has_group s (d.units price) gs ≡ false → f s (d.units price) ≡ [])
      → Grouped f gs
      → Grouped (pushed f s (d.units price) id) (push_id price s id gs)
  unfolding push_id
  Grouped-push_id price s id f [] new a =
      (rw (same_level_refl s (d.units price), new refl) refl, refl, tt)
  Grouped-push_id price s id f (g ∷ gs) new (a, b, c) =
      let k = d.units price in
      elim (Bool-cases (group_at s k g)) [
        | inl h ↦
            let out =
              at_level (λ t j. has_group t j gs ≡ false) g.side (d.units g.price) s k
                (sym (same_level_sym s g.side k (d.units g.price)) ∙ h) b in
            let ids = a ∙ at_level (λ t j. f t j ≡ f s k) s k g.side (d.units g.price) h refl in
            rw (same_key price s g, h)
              (
                rw h (ap (λ xs. xs ++ id ∷ []) ids),
                b,
                Grouped-elsewhere f s k (f s k ++ id ∷ []) gs out c,
              )
        | inr h ↦
            let rest = Grouped-push_id price s id f gs (λ n. new (rw (h, n) refl)) c in
            let back = sym (same_level_sym s g.side k (d.units g.price)) ∙ h in
            rw (same_key price s g, h)
              (
                rw h a,
                has_group-push_id price s id gs g.side (d.units g.price) ∙ rw (back, b) refl,
                rest,
              )
      ]

  Covered-push_id :
      (price : U) (s : OrderSide) (id : OrderId) (f : Queues) (gs : List (Group U))
      → Covered f gs
      → Covered (pushed f s (d.units price) id) (push_id price s id gs)
  Covered-push_id price s id f gs c t j =
      let k = d.units price in
      elim (Bool-cases (same_level s k t j)) [
        | inl h ↦
            has_group-push_id price s id gs t j
            ∙ rw (sym (same_level_sym s t k j) ∙ h, h) (ap not (sym (is_empty-snoc (f s k) id)))
        | inr h ↦
            has_group-push_id price s id gs t j ∙ rw (sym (same_level_sym s t k j) ∙ h, h) (c t j)
      ]

  Grouped-ext :
      (f f' : Queues) (gs : List (Group U))
      → ((s : OrderSide) (k : ℕ) → f s k ≡ f' s k)
      → Grouped f gs
      → Grouped f' gs
  Grouped-ext f f' [] e a = tt
  Grouped-ext f f' (g ∷ gs) e (a, b, c) =
      (a ∙ e g.side (d.units g.price), b, Grouped-ext f f' gs e c)

  nothing_in :
      (f : Queues) (s : OrderSide) (k : ℕ) (gs : List (Group U))
      → Covered f gs
      → has_group s k gs ≡ false
      → f s k ≡ []
  nothing_in f s k gs c h = no_entries (f s k) (sym (c s k) ∙ h)

  ids_behind :
      (f : Queues) (o : Order U) (os : List (Order U)) (s : OrderSide) (k : ℕ)
      → pushed f (side o.type) (d.units o.price) o.order_id s k ++ ids_at s k os
        ≡ f s k ++ ids_at s k (o ∷ os)
  ids_behind f o os s k = elim (Bool-cases (same_level (side o.type) (d.units o.price) s k)) [
    | inl h ↦
        let same =
          at_level (λ t j. f (side o.type) (d.units o.price) ≡ f t j) (side o.type)
            (d.units o.price) s k h refl in
        rw (h, same) (append_both (f s k) o.order_id (ids_at s k os))
    | inr h ↦ rw h refl
  ]

  group_orders-Grouped :
      (orders : List (Order U)) (f : Queues) (gs : List (Group U))
      → Grouped f gs
      → Covered f gs
      → Grouped (λ s k. f s k ++ ids_at s k orders) (group_orders orders gs)
        × Covered (λ s k. f s k ++ ids_at s k orders) (group_orders orders gs)
  unfolding group_orders
  group_orders-Grouped [] f gs g c = (
    Grouped-ext f (λ s k. f s k ++ []) gs (λ s k. sym (append_nothing (f s k))) g,
    λ s k. c s k ∙ ap (λ xs. not (is_empty xs)) (sym (append_nothing (f s k))),
  )
  group_orders-Grouped (o ∷ os) f gs g c =
      let s' = side o.type in
      let k' = d.units o.price in
      let f' = pushed f s' k' o.order_id in
      let gs' = push_id o.price s' o.order_id gs in
      let (g', c') =
        group_orders-Grouped os f' gs'
          (Grouped-push_id o.price s' o.order_id f gs (nothing_in f s' k' gs c) g)
          (Covered-push_id o.price s' o.order_id f gs c) in
      (
        Grouped-ext (λ s k. f' s k ++ ids_at s k os) (λ s k. f s k ++ ids_at s k (o ∷ os))
            (group_orders os gs') (ids_behind f o os) g',
        λ s k. c' s k ∙ ap (λ xs. not (is_empty xs)) (ids_behind f o os s k),
      )

  -- Each group is a level that has an order, with its orders.
  pub group_orders-ids_at :
      (orders : List (Order U))
      → Grouped (λ s k. ids_at s k orders) (group_orders orders [])
        × Covered (λ s k. ids_at s k orders) (group_orders orders [])
  group_orders-ids_at orders = group_orders-Grouped orders (λ s k. []) [] tt (λ s k. refl)

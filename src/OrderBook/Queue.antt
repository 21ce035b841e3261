-- ===== src/OrderBook/Queue.antt =====
-- The queue of a price level: a doubly linked segment through the order map. `Seg h s k p xs n` says
-- that the nodes `xs` of `h` lie on side `s` at price key `k`, that each points at its neighbours,
-- that the first points back at `p` and that the last points on to `n`.
use mathlib.Core.Option
use perpl_dex_sdk.Prelude.{
  ℕ, ◌+◌, ◌≡◌, refl, true, false, Option, none, some, List, [], ◌∷◌, ◌++◌, arith, ◌==◌, ==_refl,
  ==_iff, if◌then◌else◌, has, Distinct, first, last, first-append, Bool-cases, inl, inr, ap, ◌∙◌,
  sym, subst, Distinct-split, Distinct-left, Distinct-right,
}
use perpl_dex_sdk.Amount.{Amount}
use perpl_dex_sdk.Types.{OrderId, OrderSide}
use perpl_dex_sdk.BookOrder.{BookOrder, order_side, set_prev, set_next}

-- The order map as a function.
abbrev pub Nodes : Type 0 → Type 0
Nodes U = OrderId → Option (BookOrder U)

module _ {U : Type 0} where
  -- A write at one identifier, and at an optional one.
  abbrev pub alter : OrderId → (BookOrder U → BookOrder U) → Nodes U → Nodes U
  alter i f h y = if i == y then Option.map f (h y) else h y

  abbrev pub alter_linked : Option OrderId → (BookOrder U → BookOrder U) → Nodes U → Nodes U
  alter_linked none f h = h
  alter_linked (some i) f h = alter i f h

  -- Both maps hold the same orders, whatever their links.
  abbrev pub SameOrders : Nodes U → Nodes U → Type 0
  SameOrders h g =
      (y : OrderId)
      → Option.map (λ (o : BookOrder U). o.order) (h y) ≡ Option.map (λ o. o.order) (g y)

  -- A write at an end of a list spares what is not in the list.
  pub alter-last :
      (f : BookOrder U → BookOrder U) (h : Nodes U) (xs : List OrderId) (z : OrderId)
      → has z xs ≡ false
      → alter_linked (last xs none) f h z ≡ h z
  alter-last f h [] z out = refl
  alter-last f h (x ∷ []) z out = ground arith
  alter-last f h (x ∷ y ∷ xs) z out = alter-last f h (y ∷ xs) z (ground arith)

  pub alter-first :
      (f : BookOrder U → BookOrder U) (h : Nodes U) (xs : List OrderId) (z : OrderId)
      → has z xs ≡ false
      → alter_linked (first xs none) f h z ≡ h z
  alter-first f h [] z out = refl
  alter-first f h (x ∷ xs) z out = ground arith

module _ {U : Type 0} ⦃d : Amount U⦄ where
  pub record Node (h : Nodes U) (s : OrderSide) (k : ℕ) (x : OrderId) (p n : Option OrderId)
      : Type 0 where
    pub node : BookOrder U
    pub found : h x ≡ some node
    pub prev_is : node.prev ≡ p
    pub next_is : node.next ≡ n
    pub side_is : order_side node ≡ s
    pub key_is : d.units node.order.price ≡ k
    pub id_is : node.order.order_id ≡ x

  abbrev pub Seg : Nodes U → OrderSide → ℕ → Option OrderId → List OrderId → Option OrderId → Type 0
  Seg h s k p [] n = Unit
  Seg h s k p (x ∷ xs) n = Node h s k x p (first xs n) × Seg h s k (some x) xs n

  abbrev pub size_of : Option (BookOrder U) → ℕ
  size_of none = 0
  size_of (some o) = d.units o.order.size

  abbrev pub size_at : Nodes U → OrderId → ℕ
  size_at h y = size_of (h y)

  abbrev pub total : Nodes U → List OrderId → ℕ
  total h [] = 0
  total h (x ∷ xs) = size_at h x + total h xs

  pub total-append :
      (h : Nodes U) (xs ys : List OrderId) → total h (xs ++ ys) ≡ total h xs + total h ys
  total-append h [] ys = omega arith
  total-append h (x ∷ xs) ys = omega (arith, total-append h xs ys)

  pub total_frame :
      (h g : Nodes U) (xs : List OrderId)
      → ((y : OrderId) → has y xs ≡ true → size_at g y ≡ size_at h y)
      → total g xs ≡ total h xs
  total_frame h g [] same = refl
  total_frame h g (x ∷ xs) same =
      omega (
        arith,
        same x (ground (arith, ==_refl x)),
        total_frame h g xs (λ y m. same y (ground arith)),
      )

  pub Node-frame :
      {h : Nodes U} (g : Nodes U) {s : OrderSide} {k : ℕ} {x : OrderId} {p n : Option OrderId}
      → g x ≡ h x
      → Node h s k x p n
      → Node g s k x p n
  Node-frame g same a = record {
    node = a.node;
    found = same ∙ a.found;
    prev_is = a.prev_is;
    next_is = a.next_is;
    side_is = a.side_is;
    key_is = a.key_is;
    id_is = a.id_is;
  }

  pub Seg-frame :
      (h g : Nodes U) (s : OrderSide) (k : ℕ) (p : Option OrderId) (xs : List OrderId)
      (n : Option OrderId)
      → ((y : OrderId) → has y xs ≡ true → g y ≡ h y)
      → Seg h s k p xs n
      → Seg g s k p xs n
  Seg-frame h g s k p [] n same a = tt
  Seg-frame h g s k p (x ∷ xs) n same a = (
    Node-frame g (same x (ground (arith, ==_refl x))) a.0,
    Seg-frame h g s k (some x) xs n (λ y m. same y (ground arith)) a.1,
  )

  pub Seg-append :
      (h : Nodes U) (s : OrderSide) (k : ℕ) (p : Option OrderId) (xs ys : List OrderId)
      (n : Option OrderId)
      → Seg h s k p xs (first ys n)
      → Seg h s k (last xs p) ys n
      → Seg h s k p (xs ++ ys) n
  Seg-append h s k p [] ys n a b = b
  Seg-append h s k p (x ∷ xs) ys n a b = (
    subst (Node h s k x p) (sym (first-append xs ys n)) a.0,
    Seg-append h s k (some x) xs ys n a.1 b,
  )

  pub Seg-split :
      (h : Nodes U) (s : OrderSide) (k : ℕ) (p : Option OrderId) (xs ys : List OrderId)
      (n : Option OrderId)
      → Seg h s k p (xs ++ ys) n
      → Seg h s k p xs (first ys n) × Seg h s k (last xs p) ys n
  Seg-split h s k p [] ys n a = (tt, a)
  Seg-split h s k p (x ∷ xs) ys n a =
      let rest = Seg-split h s k (some x) xs ys n a.1 in
      ((subst (Node h s k x p) (first-append xs ys n) a.0, rest.0), rest.1)

  pub Node-set_next :
      (h : Nodes U) (s : OrderSide) (k : ℕ) (x : OrderId) (p n n' : Option OrderId)
      → Node h s k x p n
      → Node (alter x (set_next n') h) s k x p n'
  unfolding set_next
  Node-set_next h s k x p n n' a = record {
    node = set_next n' a.node;
    found = ground (arith, a.found, ==_refl x);
    prev_is = a.prev_is;
    next_is = refl;
    side_is = a.side_is;
    key_is = a.key_is;
    id_is = a.id_is;
  }

  pub Node-set_prev :
      (h : Nodes U) (s : OrderSide) (k : ℕ) (x : OrderId) (p p' n : Option OrderId)
      → Node h s k x p n
      → Node (alter x (set_prev p') h) s k x p' n
  unfolding set_prev
  Node-set_prev h s k x p p' n a = record {
    node = set_prev p' a.node;
    found = ground (arith, a.found, ==_refl x);
    prev_is = refl;
    next_is = a.next_is;
    side_is = a.side_is;
    key_is = a.key_is;
    id_is = a.id_is;
  }

  -- A new successor for the last node of a segment.
  pub Seg-set_next :
      (h : Nodes U) (s : OrderSide) (k : ℕ) (p : Option OrderId) (xs : List OrderId)
      (n n' : Option OrderId)
      → Distinct xs
      → Seg h s k p xs n
      → Seg (alter_linked (last xs none) (set_next n') h) s k p xs n'
  Seg-set_next h s k p [] n n' dis a = tt
  Seg-set_next h s k p (x ∷ []) n n' dis a = (Node-set_next h s k x p n n' a.0, tt)
  Seg-set_next h s k p (x ∷ y ∷ xs) n n' dis a = (
    Node-frame _ (alter-last (set_next n') h (y ∷ xs) x dis.0) a.0,
    Seg-set_next h s k (some x) (y ∷ xs) n n' dis.1 a.1,
  )

  -- A new predecessor for the first node.
  pub Seg-set_prev :
      (h : Nodes U) (s : OrderSide) (k : ℕ) (p p' : Option OrderId) (xs : List OrderId)
      (n : Option OrderId)
      → Distinct xs
      → Seg h s k p xs n
      → Seg (alter_linked (first xs none) (set_prev p') h) s k p' xs n
  Seg-set_prev h s k p p' [] n dis a = tt
  Seg-set_prev h s k p p' (x ∷ xs) n dis a = (
    Node-set_prev h s k x p p' (first xs n) a.0,
    Seg-frame h (alter x (set_prev p') h) s k (some x) xs n (λ y m. ground arith) a.1,
  )

  -- Taking a node out of its queue: its links are those of its neighbours, and the neighbours take
  -- them over.
  pub Seg-Node :
      (h : Nodes U) (s : OrderSide) (k : ℕ) (xs ys : List OrderId) (x : OrderId)
      → Seg h s k none (xs ++ x ∷ ys) none
      → Node h s k x (last xs none) (first ys none)
  Seg-Node h s k xs ys x a = (Seg-split h s k none xs (x ∷ ys) none a).1.0

  abbrev pub unlinked : Option OrderId → Option OrderId → Nodes U → Nodes U
  unlinked prev_id next_id h =
      alter_linked next_id (set_prev prev_id) (alter_linked prev_id (set_next next_id) h)

  pub Seg-unlinked :
      (h : Nodes U) (s : OrderSide) (k : ℕ) (xs ys : List OrderId) (x : OrderId)
      → Distinct (xs ++ x ∷ ys)
      → Seg h s k none (xs ++ x ∷ ys) none
      → Seg (unlinked (last xs none) (first ys none) h) s k none (xs ++ ys) none
  Seg-unlinked h s k xs ys x dis a =
      let parts = Seg-split h s k none xs (x ∷ ys) none a in
      let free = Distinct-split xs x ys dis in
      let h1 = alter_linked (last xs none) (set_next (first ys none)) h in
      let left = Seg-set_next h s k none xs (some x) (first ys none) free.2 parts.0 in
      let right =
        Seg-frame h h1 s k (some x) ys none
          (λ y m. alter-last (set_next (first ys none)) h xs y (Distinct-right xs x ys y dis m))
          parts.1.1 in
      Seg-append (unlinked (last xs none) (first ys none) h) s k none xs ys none
        (Seg-frame h1 (unlinked (last xs none) (first ys none) h) s k none xs (first ys none)
          (λ y m. alter-first (set_prev (last xs none)) h1 ys y (Distinct-left xs x ys y dis m))
          left)
        (Seg-set_prev h1 s k (some x) (last xs none) ys none free.3 right)

  -- A node put behind the last one.
  pub Seg-snoc :
      (h g : Nodes U) (s : OrderSide) (k : ℕ) (xs : List OrderId) (x : OrderId)
      → Distinct xs
      → Seg h s k none xs none
      → ((y : OrderId)
          → has y xs ≡ true
          → g y ≡ alter_linked (last xs none) (set_next (some x)) h y)
      → Node g s k x (last xs none) none
      → Seg g s k none (xs ++ x ∷ []) none
  Seg-snoc h g s k xs x dis a same b =
      Seg-append g s k none xs (x ∷ []) none
        (Seg-frame _ g s k none xs (some x) same (Seg-set_next h s k none xs none (some x) dis a))
        (b, tt)

  -- The node of a member.
  pub Seg-member :
      (h : Nodes U) (s : OrderSide) (k : ℕ) (p : Option OrderId) (xs : List OrderId)
      (n : Option OrderId) (y : OrderId)
      → Seg h s k p xs n
      → has y xs ≡ true
      → (o : BookOrder U) × (h y ≡ some o)
        × (order_side o ≡ s)
        × (d.units o.order.price ≡ k)
        × (o.order.order_id ≡ y)
  Seg-member h s k p [] n y a m = absurd (cc)
  Seg-member h s k p (x ∷ xs) n y a m = elim (Bool-cases (y == x)) [
    | inl e ↦
        let same = (==_iff y x).0 e in
        (a.0.node, ap h same ∙ a.0.found, a.0.side_is, a.0.key_is, a.0.id_is ∙ sym same)
    | inr e ↦ Seg-member h s k (some x) xs n y a.1 (ground arith)
  ]

  -- New links change no size.
  pub size-set_next :
      (o n : Option OrderId) (h : Nodes U) (y : OrderId)
      → size_of (alter_linked o (set_next n) h y) ≡ size_at h y
  unfolding set_next
  size-set_next none n h y = refl
  size-set_next (some i) n h y = ground arith

  pub size-set_prev :
      (o n : Option OrderId) (h : Nodes U) (y : OrderId)
      → size_of (alter_linked o (set_prev n) h y) ≡ size_at h y
  unfolding set_prev
  size-set_prev none n h y = refl
  size-set_prev (some i) n h y = ground arith

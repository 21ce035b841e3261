-- ===== src/OrderBook/Member.antt =====
-- Facts about an order that the book holds: its queue, its place there and its level.
use perpl_dex_sdk.Prelude.{
  ℕ, ◌+◌, ◌≤◌, ◌≡◌, refl, true, false, Option, none, some, List, [], ◌∷◌, arith, ◌==◌, ==_iff, has,
  Distinct, Bool-cases, inl, inr, ap, sym, subst, fun_ext,
}
use perpl_dex_sdk.Amount.{Amount}
use perpl_dex_sdk.Types.{OrderId, OrderSide}
use perpl_dex_sdk.Order.{Order}
use perpl_dex_sdk.BookOrder.{BookOrder, order_side, update_order}
use perpl_dex_sdk.BookLevel.{BookLevel}
use perpl_dex_sdk.OrderBook.{OrderBook, get_order, get_level}
use perpl_dex_sdk.OrderBook.Queue.{
  Nodes, Seg, total, Seg-member, size_at, alter, total_frame, Node-frame,
}
use perpl_dex_sdk.OrderBook.View.{get_level-key}
use perpl_dex_sdk.OrderBook.Rep.{
  Rep, Holds, LevelIs, Queues, nodes, requeue, same_level, at_level, Seg-apart,
}

pub requeue_self : (q : Queues) (s : OrderSide) (k : ℕ) → requeue q s k (q s k) ≡ q
requeue_self q s k = fun_ext λ s'. fun_ext λ k'. elim (Bool-cases (same_level s k s' k')) [
  | inl e ↦ rw e (at_level (λ t j. q s k ≡ q t j) s k s' k' e refl)
  | inr e ↦ rw e
]

module _ {U : Type 0} ⦃d : Amount U⦄ where
  -- The queue and the level that an order belongs to.
  abbrev pub queue_of : Queues → BookOrder U → List OrderId
  queue_of q o = q (order_side o) (d.units o.order.price)

  pub LevelIs-key :
      (h : Nodes U) (xs : List OrderId) (s : OrderSide) (price price' : U) (c : OrderBook U)
      → d.units price' ≡ d.units price
      → LevelIs h xs (get_level s price c)
      → LevelIs h xs (get_level s price' c)
  LevelIs-key h xs s price price' c e a =
      subst (LevelIs h xs) (sym (get_level-key s price' price c e)) a

  -- A queue with a member has its level.
  pub level_of_nonempty :
      (h : Nodes U) (xs : List OrderId) (x : OrderId) (l : Option (BookLevel U))
      → has x xs ≡ true
      → LevelIs h xs l
      → (l' : BookLevel U) × (l ≡ some l') × Holds h xs l'
  level_of_nonempty h xs x none m a = absurd (cc (ap (has x) a))
  level_of_nonempty h xs x (some l) m a = (l, refl, a)

  module _ {b : OrderBook U} {q : Queues} (rep : Rep b q) where
    -- A member of one queue is in no other.
    pub member_elsewhere :
        (s : OrderSide) (k : ℕ) (x : OrderId)
        → has x (q s k) ≡ true
        → (s' : OrderSide) (k' : ℕ) → same_level s k s' k' ≡ false
        → has x (q s' k') ≡ false
    member_elsewhere s k x m s' k' ne = elim (Bool-cases (has x (q s' k'))) [
      | inr out ↦ out
      | inl m' ↦ absurd (
          cc (
            Seg-apart (nodes b) s s' k k' (q s k) (q s' k') x (rep.linked s k) (rep.linked s' k') ne
                m',
            m,
          ))
    ]

    -- What the order map does not hold is in no queue.
    pub absent :
        (x : OrderId) → get_order x b ≡ none → (s : OrderSide) (k : ℕ) → has x (q s k) ≡ false
    absent x e s k = elim (Bool-cases (has x (q s k))) [
      | inr out ↦ out
      | inl m ↦ absurd (cc ((Seg-member (nodes b) s k none (q s k) none x (rep.linked s k) m).1, e))
    ]

  -- New data for an order of a segment, at the same level and under the same identifier.
  pub Seg-update_order :
      (h : Nodes U) (s : OrderSide) (k : ℕ) (p : Option OrderId) (xs : List OrderId)
      (n : Option OrderId) (order : Order U)
      → order_side (record { order = order; prev = none; next = none }) ≡ s
      → d.units order.price ≡ k
      → Seg h s k p xs n
      → Seg (alter order.order_id (update_order order) h) s k p xs n
  unfolding update_order
  Seg-update_order h s k p [] n order es ek a = tt
  Seg-update_order h s k p (x ∷ xs) n order es ek a = (
    elim (Bool-cases (order.order_id == x)) [
      | inr e ↦ Node-frame _ (rw e) a.0
      | inl e ↦ record {
        node = update_order order a.0.node;
        found = rw (e, a.0.found);
        prev_is = a.0.prev_is;
        next_is = a.0.next_is;
        side_is = es;
        key_is = ek;
        id_is = (==_iff order.order_id x).0 e;
      }
    ],
    Seg-update_order h s k (some x) xs n order es ek a.1,
  )

  -- The total after a change at one member.
  pub total_change :
      (h g : Nodes U) (x : OrderId) (xs : List OrderId)
      → Distinct xs
      → has x xs ≡ true
      → ((y : OrderId) → has y xs ≡ true → (x == y) ≡ false → size_at g y ≡ size_at h y)
      → total g xs + size_at h x ≡ total h xs + size_at g x
  total_change h g x [] dis m same = absurd (cc m)
  total_change h g x (y ∷ xs) dis m same = elim (Bool-cases (x == y)) [
    | inl e ↦
        let eq : x ≡ y = (==_iff x y).0 e in
        let rest = total_frame h g xs (λ z mz. same z (ground arith) (ground arith)) in
        omega (arith, rest, ap (size_at h) eq, ap (size_at g) eq)
    | inr e ↦ omega (
      arith,
      total_change h g x xs dis.1 (ground arith) (λ z mz ne. same z (ground arith) ne),
      same y (ground arith) e,
    )
  ]

  pub size-le-total :
      (h : Nodes U) (x : OrderId) (xs : List OrderId) → has x xs ≡ true → size_at h x ≤ total h xs
  size-le-total h x [] m = absurd (cc m)
  size-le-total h x (y ∷ xs) m = elim (Bool-cases (x == y)) [
    | inl e ↦ omega (arith, ap (size_at h) ((==_iff x y).0 e))
    | inr e ↦ omega (arith, size-le-total h x xs (ground arith))
  ]

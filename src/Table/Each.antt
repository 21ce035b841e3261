-- ===== src/Table/Each.antt =====
-- What holds of every entry of a map, and the keys of a map.
use perpl_dex_sdk.Prelude.{
  ℕ, ◌≡◌, true, false, some, List, [], ◌∷◌, ap, arith, subst, sym, Bool-cases, inl, inr,
  if◌then◌else◌, refl, some_inj, ltb, has,
}
use perpl_dex_sdk.Table.{Table, Ranking, tied, get, insert, remove, modify}
use perpl_dex_sdk.BookKeys.{by_id, by_id_tied}

module _ {K V : Type 0} where
  abbrev pub Each : (K → V → Type 0) → Table K V → Type 0
  Each Q [] = Unit {0}
  Each Q ((k, v) ∷ m) = Q k v × Each Q m

  abbrev pub keys : Table K V → List K
  keys [] = []
  keys ((k, v) ∷ m) = k ∷ keys m

  pub keys-modify :
      (r : Ranking K) (k : K) (f : V → V) (m : Table K V) → keys (modify r k f m) ≡ keys m
  unfolding modify
  keys-modify r k f [] = refl
  keys-modify r k f ((j, w) ∷ m) = ap (λ ks. j ∷ ks) (keys-modify r k f m)

tied_same : (k j : ℕ) → tied by_id k j ≡ true → k ≡ j
tied_same k j h = ground arith

module _ {V : Type 0} (Q : ℕ → V → Type 0) where
  pub Each-get : (k : ℕ) (v : V) (m : Table ℕ V) → get by_id k m ≡ some v → Each Q m → Q k v
  unfolding get
  Each-get k v [] h q = absurd (cc h)
  Each-get k v ((j, w) ∷ m) h q = elim (Bool-cases (tied by_id k j)) [
    | inl e ↦
        let same : w ≡ v = some_inj (cc (h, e)) in
        subst (λ i. Q i v) (sym (tied_same k j e)) (subst (Q j) same q.0)
    | inr e ↦ Each-get k v m (cc (h, e)) q.1
  ]

  modified : (k j : ℕ) (v w : V) → Q k v → Q j w → Q j (if tied by_id k j then v else w)
  modified k j v w qv qw = elim (Bool-cases (tied by_id k j)) [
    | inl e ↦ rw e (subst (λ i. Q i v) (tied_same k j e) qv)
    | inr e ↦ rw e qw
  ]

  pub Each-modify :
      (k : ℕ) (v : V) (m : Table ℕ V) → Q k v → Each Q m → Each Q (modify by_id k (λ _. v) m)
  unfolding modify
  Each-modify k v [] qv q = tt
  Each-modify k v ((j, w) ∷ m) qv q = (modified k j v w qv q.0, Each-modify k v m qv q.1)

  same_key : (k j : ℕ) → ltb k j ≡ false → ltb j k ≡ false → k ≡ j
  same_key k j h l = ground arith

  pub Each-insert : (k : ℕ) (v : V) (m : Table ℕ V) → Q k v → Each Q m → Each Q (insert by_id k v m)
  unfolding insert
  Each-insert k v [] qv q = (qv, tt)
  Each-insert k v ((j, w) ∷ m) qv q = elim (Bool-cases (ltb k j)) [
    | inl e ↦ rw e (qv, q)
    | inr e ↦ elim (Bool-cases (ltb j k)) [
      | inl l ↦ rw (e, l) (q.0, Each-insert k v m qv q.1)
      | inr l ↦ rw (e, l) (subst (λ i. Q i v) (same_key k j e l) qv, q.1)
    ]
  ]

  pub Each-remove : (k : ℕ) (m : Table ℕ V) → Each Q m → Each Q (remove by_id k m)
  unfolding remove
  Each-remove k [] q = tt
  Each-remove k ((j, w) ∷ m) q = elim (Bool-cases (tied by_id k j)) [
    | inl e ↦ rw e (Each-remove k m q.1)
    | inr e ↦ rw e (q.0, Each-remove k m q.1)
  ]

module _ {V : Type 0} where
  -- The keys are those that a lookup finds.
  pub get-key_in : (k : ℕ) (v : V) (m : Table ℕ V) → get by_id k m ≡ some v → has k (keys m) ≡ true
  unfolding get
  get-key_in k v [] h = absurd (cc h)
  get-key_in k v ((j, w) ∷ m) h = elim (Bool-cases (tied by_id k j)) [
    | inl e ↦ ground (arith, by_id_tied k j)
    | inr e ↦ let there = get-key_in k v m (cc (h, e)) in ground arith
  ]

  pub key_in-get :
      (k : ℕ) (m : Table ℕ V) → has k (keys m) ≡ true → (v : V) × (get by_id k m ≡ some v)
  unfolding get
  key_in-get k [] h = absurd (cc h)
  key_in-get k ((j, w) ∷ m) h = elim (Bool-cases (tied by_id k j)) [
    | inl e ↦ rw e (w, refl)
    | inr e ↦ rw e (key_in-get k m (ground (arith, by_id_tied k j)))
  ]

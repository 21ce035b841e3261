-- ===== src/Table/Sorted.antt =====
-- The order of a table: each key stands before all that follow, and the writes keep it so.
use perpl_dex_sdk.Prelude.{
  ℕ, ◌≡◌, Bool, true, false, ◌&&◌, some, [], ◌∷◌, ◌==◌, if◌then◌else◌, arith, refl, Bool-cases, inl,
  inr, ==_refl, ==_iff, subst, sym, ◌∙◌,
}
use perpl_dex_sdk.Table.{tied, Ranking, Table, get, insert, remove, modify}

module _ {K V : Type 0} (r : Ranking K) where
  abbrev pub all_behind : K → Table K V → Bool
  all_behind k [] = true
  all_behind k ((j, w) ∷ m) = r.before k j && all_behind k m

  abbrev pub is_sorted : Table K V → Bool
  is_sorted [] = true
  is_sorted ((j, w) ∷ m) = all_behind j m && is_sorted m

  all_behind_trans :
      (i j : K) (m : Table K V)
      → r.before i j ≡ true
      → all_behind j m ≡ true
      → all_behind i m ≡ true
  all_behind_trans i j [] h a = refl
  all_behind_trans i j ((k, w) ∷ m) h a =
      ground (arith, r.before_trans i j k, all_behind_trans i j m)

  all_behind-insert :
      (i k : K) (v : V) (m : Table K V)
      → r.before i k ≡ true
      → all_behind i m ≡ true
      → all_behind i (insert r k v m) ≡ true
  unfolding insert
  all_behind-insert i k v [] h a = ground arith
  all_behind-insert i k v ((j, w) ∷ m) h a = ground (arith, all_behind-insert i k v m)

  pub is_sorted-insert :
      (k : K) (v : V) (m : Table K V) → is_sorted m ≡ true → is_sorted (insert r k v m) ≡ true
  unfolding insert
  is_sorted-insert k v [] h = refl
  is_sorted-insert k v ((j, w) ∷ m) h =
      ground (arith, all_behind_trans k j m, all_behind-insert j k v m, is_sorted-insert k v m)

  all_behind-remove :
      (i k : K) (m : Table K V) → all_behind i m ≡ true → all_behind i (remove r k m) ≡ true
  unfolding remove
  all_behind-remove i k [] a = refl
  all_behind-remove i k ((j, w) ∷ m) a = ground (arith, all_behind-remove i k m)

  pub is_sorted-remove :
      (k : K) (m : Table K V) → is_sorted m ≡ true → is_sorted (remove r k m) ≡ true
  unfolding remove
  is_sorted-remove k [] h = refl
  is_sorted-remove k ((j, w) ∷ m) h = ground (arith, all_behind-remove j k m, is_sorted-remove k m)

  all_behind-modify :
      (i k : K) (f : V → V) (m : Table K V) → all_behind i (modify r k f m) ≡ all_behind i m
  unfolding modify
  all_behind-modify i k f [] = refl
  all_behind-modify i k f ((j, w) ∷ m) = ground (arith, all_behind-modify i k f m)

  pub is_sorted-modify :
      (k : K) (f : V → V) (m : Table K V) → is_sorted (modify r k f m) ≡ is_sorted m
  unfolding modify
  is_sorted-modify k f [] = refl
  is_sorted-modify k f ((j, w) ∷ m) =
      ground (arith, all_behind-modify j k f m, is_sorted-modify k f m)

  -- A key that is read in a table stands behind what all of its keys stand behind, where the order
  -- of the keys is that of their classes.
  pub behind_all :
      (lt : ℕ → ℕ → Bool)
      → ((a b : K) → r.before a b ≡ lt (r.key a) (r.key b))
      → (i k : K) (v : V) (m : Table K V) → all_behind i m ≡ true
      → get r k m ≡ some v
      → lt (r.key i) (r.key k) ≡ true
  unfolding get
  behind_all lt rank i k v [] a h = absurd (cc h)
  behind_all lt rank i k v ((j, w) ∷ m) a h = elim (Bool-cases (r.key k == r.key j)) [
    | inl same ↦
        let e : r.key k ≡ r.key j = (==_iff (r.key k) (r.key j)).0 same in
        let before : r.before i j ≡ true = ground arith in
        subst (λ x. lt (r.key i) x ≡ true) (sym e) (sym (rank i j) ∙ before)
    | inr other ↦
        behind_all lt rank i k v m (ground arith)
          (subst (λ t. (if t then some w else get r k m) ≡ some v) (r.tied_iff k j ∙ other) h)
  ]

  -- The entries of a table are read in another one.
  abbrev pub Found : Table K V → Table K V → Type 0
  Found [] full = Unit
  Found ((j, w) ∷ m) full = (get r j full ≡ some w) × Found m full

  Found-behind :
      (i : K) (v : V) (m full : Table K V)
      → all_behind i m ≡ true
      → Found m full
      → Found m ((i, v) ∷ full)
  unfolding get
  Found-behind i v [] full a f = tt
  Found-behind i v ((j, w) ∷ m) full a f =
      let apart : tied r j i ≡ false = ground arith in
      (rw apart f.0, Found-behind i v m full (ground arith) f.1)

  -- Every entry of a sorted table is read under its key.
  pub is_sorted-Found : (m : Table K V) → is_sorted m ≡ true → Found m m
  unfolding get
  is_sorted-Found [] o = tt
  is_sorted-Found ((j, w) ∷ m) o =
      let own : tied r j j ≡ true = r.tied_iff j j ∙ ==_refl (r.key j) in
      (rw own, Found-behind j w m m (ground arith) (is_sorted-Found m (ground arith)))

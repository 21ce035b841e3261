-- ===== src/Table.antt =====
-- `HashMap` and `BTreeMap` of the standard library: a list of entries in the order of the keys. (A
-- hash map has no order; its keys are numbers, and the code reads it only by key and by size.)
pub mod Laws
pub mod Sorted
pub mod Each
use perpl_dex_sdk.Prelude.{
  ℕ, ◌≡◌, Bool, true, false, not, ◌||◌, Option, none, some, List, [], ◌∷◌, ltb, ◌==◌, if◌then◌else◌,
  arith, refl, length, ◌<◌,
}

-- How the keys are ordered. `key` names the class of equal keys.
pub record Ranking (K : Type 0) : Type 0 where
  pub before : K → K → Bool
  pub key : K → ℕ
  pub tied_iff : (a b : K) → not (before a b || before b a) ≡ (key a == key b)
  pub before_trans : (a b c : K) → before a b ≡ true → before b c ≡ true → before a c ≡ true

abbrev pub Table : Type 0 → Type 0 → Type 0
Table K V = List (K × V)

abbrev pub tied : {K : Type 0} → Ranking K → K → K → Bool
tied r a b = not (r.before a b || r.before b a)

module _ {K V : Type 0} (r : Ranking K) where
  -- `get`
  unfoldable pub get : K → Table K V → Option V
  get k [] = none
  get k ((j, w) ∷ m) = if tied r k j then some w else get k m

  -- `insert`: an equal key keeps its place and gets the new value.
  unfoldable pub insert : K → V → Table K V → Table K V
  insert k v [] = (k, v) ∷ []
  insert k v ((j, w) ∷ m) =
      if r.before k j
      then (k, v) ∷ (j, w) ∷ m
      else if r.before j k
      then (j, w) ∷ insert k v m
      else (j, v) ∷ m

  -- `remove`
  unfoldable pub remove : K → Table K V → Table K V
  remove k [] = []
  remove k ((j, w) ∷ m) = if tied r k j then remove k m else (j, w) ∷ remove k m

  -- A write through the reference that `get_mut` returns.
  unfoldable pub modify : K → (V → V) → Table K V → Table K V
  modify k f [] = []
  modify k f ((j, w) ∷ m) = (j, if tied r k j then f w else w) ∷ modify k f m

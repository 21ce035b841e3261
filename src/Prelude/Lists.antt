-- ===== src/Prelude/Lists.antt =====
-- Lists of numbers measured by native numbers: length, ends, membership, removal.
use Prim.Native.Nat.{ℕ, suc, ◌+◌}
use mathlib.Core.Path.{◌≡◌, refl, ap, sym}
use mathlib.Core.Logic.{inl, inr}
use mathlib.Core.Bool.{Bool, true, false, ◌||◌, ◌&&◌, not}
use mathlib.Core.Option.{Option, none, some}
use mathlib.Core.List.{List, [], ◌∷◌, ◌++◌}
use native.Mathlib.Omega.{arith}
use perpl_dex_sdk.Prelude.Tests.{◌==◌, if◌then◌else◌, ==_iff, Bool-cases}

module _ {ℓ} {A : Type ℓ} where
  abbrev pub length : List A → ℕ
  length [] = 0
  length (x ∷ xs) = suc (length xs)

  pub length-append : (xs ys : List A) → length (xs ++ ys) ≡ length xs + length ys
  length-append [] ys = omega arith
  length-append (x ∷ xs) ys = omega (arith, length-append xs ys)

  abbrev pub is_empty : List A → Bool
  is_empty [] = true
  is_empty (_ ∷ _) = false

  -- The first entry, or `d`.
  abbrev pub first : List A → Option A → Option A
  first [] d = d
  first (x ∷ xs) d = some x

  -- The last entry, or `d`.
  abbrev pub last : List A → Option A → Option A
  last [] d = d
  last (x ∷ xs) d = last xs (some x)

  pub first-append : (xs ys : List A) (d : Option A) → first (xs ++ ys) d ≡ first xs (first ys d)
  first-append [] ys d = refl
  first-append (x ∷ xs) ys d = refl

  pub last-append : (xs ys : List A) (d : Option A) → last (xs ++ ys) d ≡ last ys (last xs d)
  last-append [] ys d = refl
  last-append (x ∷ xs) ys d = last-append xs ys (some x)

  -- A first entry stays first in front of more.
  pub first-snoc :
      (xs ys zs : List A)
      → is_empty ys ≡ false
      → first ((xs ++ ys) ++ zs) none ≡ first (xs ++ ys) none
  first-snoc [] [] zs h = absurd (cc)
  first-snoc [] (y ∷ ys) zs h = refl
  first-snoc (x ∷ xs) ys zs h = refl

  pub is_empty-snoc : (xs : List A) (a : A) → is_empty (xs ++ a ∷ []) ≡ false
  is_empty-snoc [] a = refl
  is_empty-snoc (x ∷ xs) a = refl

abbrev pub has : ℕ → List ℕ → Bool
has a [] = false
has a (x ∷ xs) = (a == x) || has a xs

abbrev pub Distinct : List ℕ → Type 0
Distinct [] = Unit
Distinct (x ∷ xs) = (has x xs ≡ false) × Distinct xs

-- Every entry equal to `a` is dropped.
abbrev pub drop_all : ℕ → List ℕ → List ℕ
drop_all a [] = []
drop_all a (x ∷ xs) = if a == x then drop_all a xs else x ∷ drop_all a xs

pub has-append : (a : ℕ) (xs ys : List ℕ) → has a (xs ++ ys) ≡ (has a xs || has a ys)
has-append a [] ys = refl
has-append a (x ∷ xs) ys = ground (arith, has-append a xs ys)

pub drop_all-absent : (a : ℕ) (xs : List ℕ) → has a xs ≡ false → drop_all a xs ≡ xs
drop_all-absent a [] h = refl
drop_all-absent a (x ∷ xs) h = ground (arith, drop_all-absent a xs)

pub has-drop_all : (b a : ℕ) (xs : List ℕ) → has b (drop_all a xs) ≡ (not (a == b) && has b xs)
has-drop_all b a [] = ground arith
has-drop_all b a (x ∷ xs) = ground (arith, has-drop_all b a xs)

pub Distinct-drop_all : (a : ℕ) (xs : List ℕ) → Distinct xs → Distinct (drop_all a xs)
Distinct-drop_all a [] h = tt
Distinct-drop_all a (x ∷ xs) h = ground (arith, Distinct-drop_all a xs, has-drop_all x a xs)

pub Distinct-snoc : (xs : List ℕ) (a : ℕ) → Distinct xs → has a xs ≡ false → Distinct (xs ++ a ∷ [])
Distinct-snoc [] a h n = (refl, tt)
Distinct-snoc (x ∷ xs) a h n = ground (arith, Distinct-snoc xs a, has-append x xs (a ∷ []))

-- A member splits its list in two; with no entry twice it is in neither part.
pub record Split (a : ℕ) (l : List ℕ) : Type 0 where
  pub before : List ℕ
  pub after : List ℕ
  pub splits : l ≡ before ++ a ∷ after

pub split : (a : ℕ) (l : List ℕ) → has a l ≡ true → Split a l
split a [] h = absurd (cc)
split a (x ∷ xs) h = elim (Bool-cases (a == x)) [
  | inl e ↦ record { before = []; after = xs; splits = ap (λ y. y ∷ xs) (sym ((==_iff a x).0 e)) }
  | inr e ↦
      let s = split a xs (ground arith) in
      record { before = x ∷ s.before; after = s.after; splits = ap (λ l. x ∷ l) s.splits }
]

pub Distinct-split :
    (xs : List ℕ) (a : ℕ) (ys : List ℕ)
    → Distinct (xs ++ a ∷ ys)
    → (has a xs ≡ false) × (has a ys ≡ false) × Distinct xs × Distinct ys
Distinct-split [] a ys h = (refl, h.0, tt, h.1)
Distinct-split (x ∷ xs) a ys h = ground (arith, Distinct-split xs a ys, has-append x xs (a ∷ ys))

-- The two parts share no entry.
pub Distinct-apart :
    (xs ys : List ℕ) (b : ℕ) → Distinct (xs ++ ys) → has b xs ≡ true → has b ys ≡ false
Distinct-apart [] ys b h m = absurd (cc)
Distinct-apart (x ∷ xs) ys b h m =
    ground (arith, Distinct-apart xs ys b, has-append x xs ys, has-append b xs ys)

pub drop_all-split :
    (xs : List ℕ) (a : ℕ) (ys : List ℕ)
    → has a xs ≡ false
    → has a ys ≡ false
    → drop_all a (xs ++ a ∷ ys) ≡ xs ++ ys
drop_all-split [] a ys h k = ground (arith, drop_all-absent a ys)
drop_all-split (x ∷ xs) a ys h k = ground (arith, drop_all-split xs a ys)

pub last-has : (xs : List ℕ) (a : ℕ) → last xs none ≡ some a → has a xs ≡ true
last-has [] a h = absurd (cc)
last-has (x ∷ []) a h = ground arith
last-has (x ∷ y ∷ xs) a h = ground (arith, last-has (y ∷ xs) a)

pub first-has : (xs : List ℕ) (a : ℕ) → first xs none ≡ some a → has a xs ≡ true
first-has [] a h = absurd (cc)
first-has (x ∷ xs) a h = ground arith

-- The parts of a split share no entry, from either side.
pub Distinct-left :
    (xs : List ℕ) (a : ℕ) (ys : List ℕ) (b : ℕ)
    → Distinct (xs ++ a ∷ ys)
    → has b xs ≡ true
    → has b ys ≡ false
Distinct-left xs a ys b h m = ground (arith, Distinct-apart xs (a ∷ ys) b h)

pub Distinct-right :
    (xs : List ℕ) (a : ℕ) (ys : List ℕ) (b : ℕ)
    → Distinct (xs ++ a ∷ ys)
    → has b ys ≡ true
    → has b xs ≡ false
Distinct-right xs a ys b h m = ground (arith, Distinct-left xs a ys b h)

pub length-drop_all :
    (a : ℕ) (xs : List ℕ) → Distinct xs → has a xs ≡ true → length (drop_all a xs) + 1 ≡ length xs
length-drop_all a [] dis h = absurd (cc)
length-drop_all a (x ∷ xs) dis h = elim (Bool-cases (a == x)) [
  | inl e ↦
      let out : has a xs ≡ false = ground (arith, ==_iff a x) in
      rw (e, drop_all-absent a xs out) (omega arith)
  | inr e ↦ rw e (omega (arith, length-drop_all a xs dis.1 (ground arith)))
]

pub Distinct-without :
    (xs : List ℕ) (a : ℕ) (ys : List ℕ) → Distinct (xs ++ a ∷ ys) → Distinct (xs ++ ys)
Distinct-without [] a ys h = h.1
Distinct-without (x ∷ xs) a ys h =
    ground (arith, Distinct-without xs a ys, has-append x xs ys, has-append x xs (a ∷ ys))

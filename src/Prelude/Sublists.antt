-- ===== src/Prelude/Sublists.antt =====
-- A list that results from another one by leaving elements out.
use mathlib.Core.List.{List, [], ◌∷◌, ◌++◌}

pub data Subsequence {ℓ} {A : Type ℓ} : List A → List A → Type ℓ where
  done : Subsequence [] []
  keep : {xs ys : List A} (x : A) → Subsequence xs ys → Subsequence (x ∷ xs) (x ∷ ys)
  skip : {xs ys : List A} (y : A) → Subsequence xs ys → Subsequence xs (y ∷ ys)

module _ {ℓ} {A : Type ℓ} where
  pub Subsequence-refl : (xs : List A) → Subsequence xs xs
  Subsequence-refl [] = done
  Subsequence-refl (x ∷ xs) = keep x (Subsequence-refl xs)

  pub Subsequence-nil : (ys : List A) → Subsequence [] ys
  Subsequence-nil [] = done
  Subsequence-nil (y ∷ ys) = skip y (Subsequence-nil ys)

  pub Subsequence-trans :
      {ys zs : List A} → Subsequence ys zs → {xs : List A} → Subsequence xs ys → Subsequence xs zs
  Subsequence-trans (skip z b) a = skip z (Subsequence-trans b a)
  Subsequence-trans done a = a
  Subsequence-trans (keep _ b) (keep x a) = keep x (Subsequence-trans b a)
  Subsequence-trans (keep _ b) (skip y a) = skip y (Subsequence-trans b a)

  pub Subsequence-append :
      {xs ys us vs : List A}
      → Subsequence xs ys
      → Subsequence us vs
      → Subsequence (xs ++ us) (ys ++ vs)
  Subsequence-append done b = b
  Subsequence-append (keep x a) b = keep x (Subsequence-append a b)
  Subsequence-append (skip y a) b = skip y (Subsequence-append a b)

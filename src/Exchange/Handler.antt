-- ===== src/Exchange/Handler.antt =====
-- src/state/exchange.rs: the code of a handler of raw events. It runs on a state that it borrows, and
-- stops with a panic (`none`) or with an error. What it wrote before an error stays written.
use perpl_dex_sdk.Prelude.{Option, none, some, Result, ok, err, List, [], ◌∷◌}

abbrev pub Handler {ℓ κ μ} : Type ℓ → Type κ → Type μ → Type (ℓ ⊔ κ ⊔ μ)
Handler E S A = S → Option (S × Result E A)

-- What a handler does with an outcome.
abbrev pub after {ℓ κ μ ν} :
    {E : Type ℓ} {S : Type κ} {A : Type μ} {B : Type ν}
    → Option (S × Result E A)
    → (A → Handler E S B)
    → Option (S × Result E B)
after none k = none
after (some (s, ok a)) k = k a s
after (some (s, err e)) k = some (s, err e)

infixl 5 ◌>>=◌ ◌>>◌
unfoldable pub ◌>>=◌ {ℓ κ μ ν} :
    {E : Type ℓ} {S : Type κ} {A : Type μ} {B : Type ν}
    → Handler E S A
    → (A → Handler E S B)
    → Handler E S B
◌>>=◌ m k s = after (m s) k

unfoldable pub ◌>>◌ {ℓ κ μ ν} :
    {E : Type ℓ} {S : Type κ} {A : Type μ} {B : Type ν}
    → Handler E S A
    → Handler E S B
    → Handler E S B
unfolding ◌>>=◌
m >> k = m >>= λ _. k

module _ {ℓ κ} {E : Type ℓ} {S : Type κ} where
  unfoldable pub pure {μ} : {A : Type μ} → A → Handler E S A
  pure a s = some (s, ok a)

  unfoldable pub gets {μ} : {A : Type μ} → (S → A) → Handler E S A
  gets f s = some (s, ok (f s))

  unfoldable pub modify : (S → S) → Handler E S (Unit {0})
  modify f s = some (f s, ok tt)

  -- A conversion that panics, as `to()`, `from_unsigned` and `expect` on an `Option` do.
  unfoldable pub convert {μ} : {A : Type μ} → Option A → Handler E S A
  convert none s = none
  convert (some a) s = some (s, ok a)

  -- `ok_or(e)?`
  unfoldable pub or_error {μ} : {A : Type μ} → Option A → E → Handler E S A
  or_error none e s = some (s, err e)
  or_error (some a) e s = some (s, ok a)

  -- A method that returns a `Result`, with `?`.
  unfoldable pub call {μ} : {A : Type μ} → (S → S × Result E A) → Handler E S A
  call f s = some (f s)

  abbrev pub expected {μ} : {A : Type μ} → S × Result E A → Option (S × Result E A)
  expected (s, ok a) = some (s, ok a)
  expected (s, err e) = none

  -- The same method with `expect`.
  unfoldable pub call_expect {μ} : {A : Type μ} → (S → S × Result E A) → Handler E S A
  call_expect f s = expected (f s)

abbrev pub put_back {ℓ κ μ ν} :
    {E : Type ℓ} {S : Type κ} {A : Type μ} {T : Type ν}
    → (T → S)
    → Option (T × Result E A)
    → Option (S × Result E A)
put_back put none = none
put_back put (some (t, r)) = some (put t, r)

-- A handler of one of two parts that are borrowed together.
unfoldable pub on_second {ℓ κ μ ν} :
    {E : Type ℓ} {S : Type κ} {A : Type μ} {T : Type ν} → Handler E T A → Handler E (S × T) A
on_second m s = put_back (λ t. (s.0, t)) (m s.1)

unfoldable pub on_first {ℓ κ μ ν} :
    {E : Type ℓ} {S : Type κ} {A : Type μ} {T : Type ν} → Handler E S A → Handler E (S × T) A
on_first m s = put_back (λ t. (t, s.1)) (m s.0)

abbrev pub found {ℓ μ} : {E : Type ℓ} {A : Type μ} → Result E A → Result E (Option A)
found (ok a) = ok (some a)
found (err e) = err e

-- A closure behind `map` on a lookup by reference: what it leaves is written back.
abbrev pub borrowed {ℓ κ μ ν} :
    {E : Type ℓ} {S : Type κ} {A : Type μ} {T : Type ν}
    → (T → S)
    → Option (T × Result E A)
    → Option (S × Result E (Option A))
borrowed put none = none
borrowed put (some (t, r)) = some (put t, found r)

-- `.into_iter().collect()` on an `Option`.
abbrev pub collected {ℓ} : {A : Type ℓ} → Option A → List A
collected none = []
collected (some a) = a ∷ []

-- `.ok().flatten()` on the result of a lookup.
abbrev pub forgiven {ℓ κ μ} :
    {E : Type ℓ} {S : Type κ} {A : Type μ}
    → Option (S × Result E (Option A))
    → Option (S × Result E (Option A))
forgiven none = none
forgiven (some (s, ok a)) = some (s, ok a)
forgiven (some (s, err e)) = some (s, ok none)

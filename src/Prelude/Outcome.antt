-- ===== src/Prelude/Outcome.antt =====
-- `Result` of the source's fallible functions. A function on `&mut self` returns the state that it
-- leaves behind beside its result, since a failing call keeps the changes that it made before.
use mathlib.Core.Path.{◌≡◌, ap}
use mathlib.Core.Option.{Option, none, some}

pub data Result {ℓ κ} (E : Type ℓ) (A : Type κ) : Type (ℓ ⊔ κ) where
  ok : A → Result E A
  err : E → Result E A

ok_inj {ℓ κ} : {E : Type ℓ} {A : Type κ} {a b : A} → Path (Result E A) (ok a) (ok b) → a ≡ b
ok_inj h = cc

-- `?` behind a call on `&mut self`: the state goes on, an error ends the function.
abbrev pub and_then {ℓ κ μ ν} :
    {E : Type ℓ} {A : Type κ} {B : Type μ} {S : Type ν}
    → S × Result E A
    → (A → S → S × Result E B)
    → S × Result E B
and_then (s, ok a) k = k a s
and_then (s, err e) k = (s, err e)

-- `ok_or(e)?` on a value that was looked up in the state `s`.
abbrev pub or_fail {ℓ κ μ ν} :
    {E : Type ℓ} {A : Type κ} {B : Type μ} {S : Type ν}
    → Option A
    → E
    → S
    → (A → S × Result E B)
    → S × Result E B
or_fail none e s k = (s, err e)
or_fail (some a) e s k = k a

-- `map_err`
abbrev pub map_err {ℓ κ μ ν} :
    {E : Type ℓ} {F : Type κ} {A : Type μ} {S : Type ν} → (E → F) → S × Result E A → S × Result F A
map_err f (s, ok a) = (s, ok a)
map_err f (s, err e) = (s, err (f e))

-- A call that succeeds goes on with its value and its state.
pub and_then_ok {ℓ κ μ ν} :
    {E : Type ℓ} {A : Type κ} {B : Type μ} {S : Type ν} (r : S × Result E A) (a : A)
    (k : A → S → S × Result E B)
    → r.1 ≡ ok a
    → and_then r k ≡ k a r.0
and_then_ok (s, ok a') a k e = ap (λ x. k x s) (ok_inj e)
and_then_ok (s, err e') a k e = absurd (cc e)

pub map_err_ok {ℓ κ μ ν} :
    {E : Type ℓ} {F : Type κ} {A : Type μ} {S : Type ν} (f : E → F) (r : S × Result E A) (a : A)
    → r.1 ≡ ok a
    → map_err f r ≡ (r.0, ok a)
map_err_ok f (s, ok a') a e = ap (λ x. (s, ok x)) (ok_inj e)
map_err_ok f (s, err e') a e = absurd (cc e)

-- `Option` as the result of code that can panic: `none` is the panic.
infixl 5 ◌>>=◌
abbrev pub ◌>>=◌ {ℓ κ} : {A : Type ℓ} {B : Type κ} → Option A → (A → Option B) → Option B
none >>= f = none
some a >>= f = f a

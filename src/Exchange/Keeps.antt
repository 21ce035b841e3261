-- ===== src/Exchange/Keeps.antt =====
-- What a handler keeps: rules for the pieces that a handler of src/state/exchange.rs is made of.
use perpl_dex_sdk.Prelude.{
  ◌≡◌, refl, Option, none, some, Result, ok, err, Bool, true, false, if◌then◌else◌,
}
use perpl_dex_sdk.Exchange.Handler.{
  Handler, after, ◌>>=◌, ◌>>◌, pure, gets, modify, convert, or_error, call, call_expect, expected,
  put_back, on_first, on_second, borrowed, forgiven,
}

-- `P` holds of the state that an outcome leaves, if it leaves one.
abbrev pub Leaves {ℓ κ μ ν} :
    {E : Type ℓ} {S : Type κ} {A : Type μ} → (S → Type ν) → Option (S × Result E A) → Type ν
Leaves P none = Unit
Leaves P (some (s, r)) = P s

pub record Keeps {ℓ κ μ ν} {E : Type ℓ} {S : Type κ} {A : Type μ} (P : S → Type ν)
    (m : Handler E S A) : Type (κ ⊔ ν) where
  pub keeps : (s : S) → P s → Leaves P (m s)

module _ {ℓ κ μ ν} {E : Type ℓ} {S : Type κ} (P : S → Type ν) where
  Leaves-expected : {A : Type μ} (r : S × Result E A) → P r.0 → Leaves P (expected r)
  Leaves-expected (s, ok a) h = h
  Leaves-expected (s, err e) h = tt

  Leaves-forgiven :
      {A : Type μ} (o : Option (S × Result E (Option A))) → Leaves P o → Leaves P (forgiven o)
  Leaves-forgiven none h = tt
  Leaves-forgiven (some (s, ok a)) h = h
  Leaves-forgiven (some (s, err e)) h = h

module _ {ℓ κ μ ν} {E : Type ℓ} {S : Type κ} {P : S → Type ν} where
  Leaves-after {ρ} :
      {A : Type μ} {B : Type ρ} (o : Option (S × Result E A)) (k : A → Handler E S B)
      → Leaves P o
      → ((a : A) → Keeps P (k a))
      → Leaves P (after o k)
  Leaves-after none k h hk = tt
  Leaves-after (some (s, ok a)) k h hk = (hk a).keeps s h
  Leaves-after (some (s, err e)) k h hk = h

  pub Keeps-bind {ρ} :
      {A : Type μ} {B : Type ρ} {m : Handler E S A} {k : A → Handler E S B}
      → Keeps P m
      → ((a : A) → Keeps P (k a))
      → Keeps P (m >>= k)
  unfolding ◌>>=◌
  Keeps-bind {m = m} {k = k} hm hk = record {
    keeps = λ s h. Leaves-after (m s) k (hm.keeps s h) hk;
  }

  pub Keeps-then {ρ} :
      {A : Type μ} {B : Type ρ} {m : Handler E S A} {k : Handler E S B}
      → Keeps P m
      → Keeps P k
      → Keeps P (m >> k)
  unfolding ◌>>◌
  Keeps-then {m = m} {k = k} hm hk = Keeps-bind hm (λ _. hk)

  pub Keeps-pure : {A : Type μ} (a : A) → Keeps {E = E} P (pure a)
  unfolding pure
  Keeps-pure a = record { keeps = λ s h. h }

  pub Keeps-gets : {A : Type μ} (f : S → A) → Keeps {E = E} P (gets f)
  unfolding gets
  Keeps-gets f = record { keeps = λ s h. h }

  pub Keeps-convert : {A : Type μ} (o : Option A) → Keeps {E = E} P (convert o)
  unfolding convert
  Keeps-convert none = record { keeps = λ s h. tt }
  Keeps-convert (some a) = record { keeps = λ s h. h }

  pub Keeps-or_error : {A : Type μ} (o : Option A) (e : E) → Keeps P (or_error o e)
  unfolding or_error
  Keeps-or_error none e = record { keeps = λ s h. h }
  Keeps-or_error (some a) e = record { keeps = λ s h. h }

  pub Keeps-call :
      {A : Type μ} (f : S → S × Result E A) → ((s : S) → P s → P (f s).0) → Keeps P (call f)
  unfolding call
  Keeps-call f hf = record { keeps = hf }

  pub Keeps-call_expect :
      {A : Type μ} (f : S → S × Result E A) → ((s : S) → P s → P (f s).0) → Keeps P (call_expect f)
  unfolding call_expect
  Keeps-call_expect f hf = record { keeps = λ s h. Leaves-expected P (f s) (hf s h) }

  pub Keeps-if :
      {A : Type μ} (c : Bool) {m k : Handler E S A}
      → Keeps P m
      → Keeps P k
      → Keeps P (if c then m else k)
  Keeps-if true hm hk = hm
  Keeps-if false hm hk = hk

  -- The same with what the test says.
  pub Keeps-ifs :
      {A : Type μ} (c : Bool) {m k : Handler E S A}
      → (c ≡ true → Keeps P m)
      → (c ≡ false → Keeps P k)
      → Keeps P (if c then m else k)
  Keeps-ifs true hm hk = hm refl
  Keeps-ifs false hm hk = hk refl

  pub Keeps-forgiven :
      {A : Type μ} (m : Handler E S (Option A)) → Keeps P m → Keeps P (λ s. forgiven (m s))
  Keeps-forgiven m k = record { keeps = λ s h. Leaves-forgiven P (m s) (k.keeps s h) }

pub Keeps-modify {ℓ κ ν} :
    {E : Type ℓ} {S : Type κ} {P : S → Type ν} (f : S → S)
    → ((s : S) → P s → P (f s))
    → Keeps {E = E} P (modify f)
unfolding modify
Keeps-modify f hf = record { keeps = hf }

module _ {ℓ κ μ ν ρ τ} {E : Type ℓ} {S : Type κ} {T : Type τ} {A : Type μ} where
  Leaves-put_back :
      (P : S → Type ν) (Q : T → Type ρ) (put : T → S) (o : Option (T × Result E A))
      → Leaves Q o
      → ((t : T) → Q t → P (put t))
      → Leaves P (put_back put o)
  Leaves-put_back P Q put none h hp = tt
  Leaves-put_back P Q put (some (t, r)) h hp = hp t h

  pub Leaves-borrowed :
      (P : S → Type ν) (Q : T → Type ρ) (put : T → S) (o : Option (T × Result E A))
      → Leaves Q o
      → ((t : T) → Q t → P (put t))
      → Leaves P (borrowed put o)
  Leaves-borrowed P Q put none h hp = tt
  Leaves-borrowed P Q put (some (t, r)) h hp = hp t h

module _ {ℓ κ μ ν τ} {E : Type ℓ} {S : Type κ} {T : Type τ} {A : Type μ} where
  -- A handler of one part, where the other part stays.
  pub Keeps-on_first :
      (P : S × T → Type ν) {m : Handler E S A}
      → ((t : T) → Keeps (λ s. P (s, t)) m)
      → Keeps P (on_first m)
  unfolding on_first
  Keeps-on_first P {m = m} k = record {
    keeps = λ s h.
        Leaves-put_back P (λ t. P (t, s.1)) (λ t. (t, s.1)) (m s.0) ((k s.1).keeps s.0 h)
          (λ t q. q);
  }

  pub Keeps-on_second :
      (P : T × S → Type ν) {m : Handler E S A}
      → ((t : T) → Keeps (λ s. P (t, s)) m)
      → Keeps P (on_second m)
  unfolding on_second
  Keeps-on_second P {m = m} k = record {
    keeps = λ s h.
        Leaves-put_back P (λ t. P (s.0, t)) (λ t. (s.0, t)) (m s.1) ((k s.0).keeps s.1 h)
          (λ t q. q);
  }

-- A handler that looks at an `Option`.
pub Keeps-elim {ℓ κ μ ν ρ} :
    {E : Type ℓ} {S : Type κ} {A : Type μ} {B : Type ρ} {P : S → Type ν} {m : Handler E S B}
    {k : A → Handler E S B} (o : Option A)
    → Keeps P m
    → ((a : A) → Keeps P (k a))
    → Keeps P (elim o as (λ _. Handler E S B) [ none ↦ m | some a ↦ k a ])
Keeps-elim none hm hk = hm
Keeps-elim (some a) hm hk = hk a

-- A handler that goes on with what it reads, and with what a conversion gives.
module _ {ℓ κ μ ν ρ τ} {E : Type ℓ} {S : Type κ} {A : Type μ} {B : Type ρ} {P : S → Type ν} where
  pub Keeps-reads :
      (Q : A → Type τ) (f : S → A) {k : A → Handler E S B}
      → ((s : S) → P s → Q (f s))
      → ((a : A) → Q a → Keeps P (k a))
      → Keeps P (gets f >>= k)
  unfolding gets ◌>>=◌
  Keeps-reads Q f hq hk = record { keeps = λ s h. (hk (f s) (hq s h)).keeps s h }

module _ {ℓ κ μ ν ρ} {E : Type ℓ} {S : Type κ} {A : Type μ} {B : Type ρ} {P : S → Type ν} where
  pub Keeps-converts :
      (o : Option A) {k : A → Handler E S B}
      → ((a : A) → o ≡ some a → Keeps P (k a))
      → Keeps P (convert o >>= k)
  unfolding convert ◌>>=◌
  Keeps-converts none hk = record { keeps = λ s h. tt }
  Keeps-converts (some a) hk = record { keeps = λ s h. (hk a refl).keeps s h }

  pub Keeps-or_errors :
      (o : Option A) (e : E) {k : A → Handler E S B}
      → ((a : A) → o ≡ some a → Keeps P (k a))
      → Keeps P (or_error o e >>= k)
  unfolding or_error ◌>>=◌
  Keeps-or_errors none e hk = record { keeps = λ s h. h }
  Keeps-or_errors (some a) e hk = record { keeps = λ s h. (hk a refl).keeps s h }

pub ruleset keeps_rules = (
  Keeps-bind, Keeps-then, Keeps-pure, Keeps-gets, Keeps-convert, Keeps-or_error, Keeps-if,
  Keeps-elim,
)

-- What a handler keeps of a state, beside what it does not touch.
module _ {ℓ κ μ ν ρ τ} {E : Type ℓ} {S : Type κ} {A : Type μ} {P : S → Type ν} (Q : S → Type ρ)
    (F : Type τ) where
  Leaves-beside :
      (o : Option (S × Result E A)) → F → ((s : S) → Q s → F → P s) → Leaves Q o → Leaves P o
  Leaves-beside none x join h = tt
  Leaves-beside (some (s, r)) x join h = join s h x

  pub Keeps-beside :
      {m : Handler E S A}
      → ((s : S) → P s → Q s × F)
      → ((s : S) → Q s → F → P s)
      → Keeps Q m
      → Keeps P m
  Keeps-beside {m = m} split join k = record {
    keeps = λ s h. Leaves-beside (m s) (split s h).1 join (k.keeps s (split s h).0);
  }

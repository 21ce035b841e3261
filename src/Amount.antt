-- ===== src/Amount.antt =====
-- The unsigned decimal type `UD64` of the crate `fastnum`, which the repository does not contain: a
-- parameter. Prices are whole multiples of a market's price step and sizes of its lot, since each of
-- them comes from an integer of the contract; `units` counts those steps. The arithmetic is exact
-- where the result has a coefficient of 64 bits, that is up to `cap` steps.
use perpl_dex_sdk.Prelude.{ℕ, ◌+◌, ◌-◌, ◌≤◌, ◌≡◌, Bool, refl, ltb, ◌==◌}

pub record Amount (U : Type 0) : Type 0 where
  pub zero : U
  pub add : U → U → U
  pub sub : U → U → U
  pub eq : U → U → Bool
  pub lt : U → U → Bool
  pub units : U → ℕ
  pub cap : ℕ
  pub eq_units : (a b : U) → eq a b ≡ (units a == units b)
  pub lt_units : (a b : U) → lt a b ≡ ltb (units a) (units b)
  pub units_zero : units zero ≡ 0
  pub units_add : (a b : U) → units a + units b ≤ cap → units (add a b) ≡ units a + units b
  pub units_sub : (a b : U) → units b ≤ units a → units (sub a b) ≡ units a - units b

-- The whole numbers meet the laws, whatever the cap.
abbrev pub whole : ℕ → Amount ℕ
whole n = record {
  zero = 0;
  add = ◌+◌;
  sub = ◌-◌;
  eq = ◌==◌;
  lt = ltb;
  units = λ a. a;
  cap = n;
  eq_units = λ a b. refl;
  lt_units = λ a b. refl;
  units_zero = refl;
  units_add = λ a b h. refl;
  units_sub = λ a b h. refl;
}

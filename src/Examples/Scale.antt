-- ===== src/Examples/Scale.antt =====
-- Numbers without a fraction, up to 2^64 - 1 of them, for the decimal types and the contract's integers.
use perpl_dex_sdk.Prelude.{
  ℕ, ◌+◌, ◌-◌, ◌*◌, ◌/◌, ◌^◌, ◌≡◌, refl, some, arith, ◌==◌, if◌then◌else◌, leb, ℤ, pos, pos_part,
  neg_part, sub_ℕ, ◌+ℤ◌, ◌-ℤ◌, ◌*ℤ◌,
}
use perpl_dex_sdk.Amount.{Amount, whole}
use perpl_dex_sdk.Numbers.{Numbers, SignLaws, WordLaws}

abbrev pub amounts : Amount ℕ
amounts = whole (2 ^ 64 - 1)

abbrev neg : ℤ → ℤ
neg a = pos 0 -ℤ a

abbrev div_ℤ : ℤ → ℤ → ℤ
div_ℤ a b =
    sub_ℕ ((pos_part a / (pos_part b + neg_part b))) ((neg_part a / (pos_part b + neg_part b)))

abbrev pub scale : Numbers
scale = record {
  UD64 = ℕ;
  UD128 = ℕ;
  D64 = ℤ;
  D256 = ℤ;
  U256 = ℕ;
  I256 = ℤ;
  I48 = ℤ;
  B256 = ℕ;
  Address = ℕ;
  ud64 = amounts;
  one64 = 1;
  mul64 = ◌*◌;
  div64 = ◌/◌;
  zero128 = 0;
  add128 = ◌+◌;
  sub128 = ◌-◌;
  mul128 = ◌*◌;
  div128 = ◌/◌;
  resize128 = λ a. a;
  zero_d64 = pos 0;
  add_D64 = ◌+ℤ◌;
  sub_D64 = ◌-ℤ◌;
  max_D64 = λ a b. if leb (pos_part a + neg_part b) (pos_part b + neg_part a) then b else a;
  unsigned_abs = λ a. pos_part a + neg_part a;
  to_signed = pos;
  zero256 = pos 0;
  one256 = pos 1;
  neg256 = neg;
  add256 = ◌+ℤ◌;
  sub256 = ◌-ℤ◌;
  mul256 = ◌*ℤ◌;
  div256 = div_ℤ;
  signed64 = pos;
  signed128 = pos;
  resize_D64 = λ a. a;
  parts64 = λ value decimals. some value;
  parts128 = λ value decimals. some value;
  parts_D64 = λ value decimals. some value;
  parts_D256 = λ value decimals. some value;
  u64_64 = λ value decimals. value;
  i64_D256 = λ value decimals. value;
  as_i64 = λ value. value;
  zero_U256 = 0;
  of_u64 = λ a. a;
  digits64 = λ a decimals. a;
  digits128 = λ a decimals. a;
  eq_U256 = ◌==◌;
  to_u64 = some;
  to_u32 = some;
  to_u16 = some;
  to_u8 = some;
  of_i16 = λ a. a;
  zero_b256 = 0;
  eq_B256 = ◌==◌;
  zero_address = 0;
}

one_mul : (x : ℤ) → pos 1 *ℤ x ≡ x
one_mul x = ground arith

neg_one_mul : (x : ℤ) → neg (pos 1) *ℤ x ≡ neg x
neg_one_mul x = ground arith

neg_mul : (x y : ℤ) → neg x *ℤ y ≡ neg (x *ℤ y)
neg_mul x y = ground arith

neg-neg : (x : ℤ) → neg (neg x) ≡ x
neg-neg x = ground arith

pub scale-SignLaws : SignLaws scale
scale-SignLaws = record {
  one_mul = one_mul;
  neg_one_mul = neg_one_mul;
  neg_mul = neg_mul;
  neg-neg = neg-neg;
}

pub scale-WordLaws : WordLaws scale
scale-WordLaws = record { u64_back = λ a h. refl; u32_back = λ a h. refl; u16_back = λ a h. refl }

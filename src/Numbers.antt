-- ===== src/Numbers.antt =====
-- What the state takes from the crates `fastnum` and `alloy`, which the repository does not contain:
-- the decimal types with their conversions, and the fixed-width integers, hashes and addresses of
-- the chain. Values of a decimal type are read up to numeric equality.
use perpl_dex_sdk.Prelude.{ℕ, ℤ, ◌<◌, ◌^◌, ◌≡◌, Bool, Option, some}
use perpl_dex_sdk.Amount.{Amount}

pub record Numbers : Type 1 where
  pub UD64 : Type 0
  pub UD128 : Type 0
  pub D64 : Type 0
  pub D256 : Type 0
  -- `U256` and `I256`, the integers of the contract.
  pub U256 : Type 0
  pub I256 : Type 0
  -- The signed integers of 48 bits.
  pub I48 : Type 0
  -- `B256`, also the type of a transaction's hash, and `Address`.
  pub B256 : Type 0
  pub Address : Type 0
  pub ud64 : Amount UD64
  pub one64 : UD64
  pub mul64 : UD64 → UD64 → UD64
  pub div64 : UD64 → UD64 → UD64
  pub zero128 : UD128
  pub add128 : UD128 → UD128 → UD128
  pub sub128 : UD128 → UD128 → UD128
  pub mul128 : UD128 → UD128 → UD128
  pub div128 : UD128 → UD128 → UD128
  -- `resize()` from `UD64` to `UD128`.
  pub resize128 : UD64 → UD128
  pub zero_d64 : D64
  pub add_D64 : D64 → D64 → D64
  pub sub_D64 : D64 → D64 → D64
  pub max_D64 : D64 → D64 → D64
  pub unsigned_abs : D64 → UD64
  -- `to_signed()` from `UD64` to `D64`.
  pub to_signed : UD64 → D64
  pub zero256 : D256
  pub one256 : D256
  pub neg256 : D256 → D256
  pub add256 : D256 → D256 → D256
  pub sub256 : D256 → D256 → D256
  pub mul256 : D256 → D256 → D256
  pub div256 : D256 → D256 → D256
  -- `resize().to_signed()` from `UD64`, `to_signed().resize()` from `UD128`, and `resize()` to `D64`.
  pub signed64 : UD64 → D256
  pub signed128 : UD128 → D256
  pub resize_D64 : D256 → D64
  -- `UInt::from_le_slice(value)`, with `none` for a value that does not fit, and then
  -- `from_parts(.., -decimals, ..)`, at the types that the converters are used at.
  pub parts64 : U256 → ℕ → Option UD64
  pub parts128 : U256 → ℕ → Option UD128
  pub parts_D64 : I256 → ℕ → Option D64
  pub parts_D256 : I256 → ℕ → Option D256
  -- `UInt::from_u64(..)` and `from_parts(.., -decimals, ..)`, of a `u64`, and of an `i64` with its sign.
  pub u64_64 : ℕ → ℕ → UD64
  pub i64_D256 : ℤ → ℕ → D256
  pub as_i64 : I48 → ℤ
  pub zero_U256 : U256
  -- `U256::from`.
  pub of_u64 : ℕ → U256
  -- `rescale(decimals)` and the digits of it, as `to_unsigned` reads them.
  pub digits64 : UD64 → ℕ → U256
  pub digits128 : UD128 → ℕ → U256
  pub eq_U256 : U256 → U256 → Bool
  -- `to::<u64>()`, `to::<u32>()` and `to::<u16>()`, with `none` for the panic on a value that does not
  -- fit.
  pub to_u64 : U256 → Option ℕ
  pub to_u32 : U256 → Option ℕ
  pub to_u16 : U256 → Option ℕ
  -- `to::<u8>()`, and `I256::try_from` of a value of 16 bits, which always fits.
  pub to_u8 : U256 → Option ℕ
  pub of_i16 : ℤ → I256
  pub zero_b256 : B256
  pub eq_B256 : B256 → B256 → Bool
  pub zero_address : Address

-- Signs are exact: what the profit and loss of long and short positions relies on.
pub record SignLaws (n : Numbers) : Type 0 where
  pub one_mul : (x : n.D256) → n.mul256 n.one256 x ≡ x
  pub neg_one_mul : (x : n.D256) → n.mul256 (n.neg256 n.one256) x ≡ n.neg256 x
  pub neg_mul : (x y : n.D256) → n.mul256 (n.neg256 x) y ≡ n.neg256 (n.mul256 x y)
  pub neg-neg : (x : n.D256) → n.neg256 (n.neg256 x) ≡ x

-- What the integers of the crate `alloy` promise: a value of fewer bits comes back from `U256`.
pub record WordLaws (n : Numbers) : Type 0 where
  pub u64_back : (a : ℕ) → a < 2 ^ 64 → n.to_u64 (n.of_u64 a) ≡ some a
  pub u32_back : (a : ℕ) → a < 2 ^ 32 → n.to_u32 (n.of_u64 a) ≡ some a
  pub u16_back : (a : ℕ) → a < 2 ^ 16 → n.to_u16 (n.of_u64 a) ≡ some a

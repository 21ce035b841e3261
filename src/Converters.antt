-- ===== src/Converters.antt =====
-- src/num.rs: `Converter`, from the contract's fixed-point integers to decimals. `none` is the panic on
-- a value that has more digits than the decimal type.
use perpl_dex_sdk.Prelude.{ℕ, ℤ, Option}
use perpl_dex_sdk.Numbers.{Numbers}
use perpl_dex_sdk.Perpetual.{Converter}

module _ (n : Numbers) where
  open n use {UD64, UD128, D64, D256, U256, I256}

  -- `from_unsigned`, into `UD64` and into `UD128`.
  unfoldable pub from_unsigned : Converter → U256 → Option UD64
  from_unsigned c value = n.parts64 value c.decimals

  unfoldable pub from_unsigned128 : Converter → U256 → Option UD128
  from_unsigned128 c value = n.parts128 value c.decimals

  -- `from_signed`, into `D64` and into `D256`.
  unfoldable pub from_signed64 : Converter → I256 → Option D64
  from_signed64 c value = n.parts_D64 value c.decimals

  unfoldable pub from_signed : Converter → I256 → Option D256
  from_signed c value = n.parts_D256 value c.decimals

  unfoldable pub from_u64 : Converter → ℕ → UD64
  from_u64 c value = n.u64_64 value c.decimals

  unfoldable pub from_i64 : Converter → ℤ → D256
  from_i64 c value = n.i64_D256 value c.decimals

  -- `to_unsigned`, from `UD64` and from `UD128`.
  unfoldable pub to_unsigned : Converter → UD64 → U256
  to_unsigned c value = n.digits64 value c.decimals

  unfoldable pub to_unsigned128 : Converter → UD128 → U256
  to_unsigned128 c value = n.digits128 value c.decimals

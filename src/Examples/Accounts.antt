-- ===== src/Examples/Accounts.antt =====
-- A bitmap of the perpetuals 1 and 254.
use perpl_dex_sdk.Prelude.{◌≡◌, true, has}
use perpl_dex_sdk.Account.Bitmap.{
  PositionBitMap, perpetuals_with_position, has-perpetuals_with_position, bit,
}

abbrev bitmap : PositionBitMap
bitmap = record { bank1 = 2; bank2 = 2; bank3 = 0; bank4 = 0 }

has-perpetuals_with_position_example : has 254 (perpetuals_with_position bitmap) ≡ true
unfolding bit
has-perpetuals_with_position_example = has-perpetuals_with_position bitmap 254

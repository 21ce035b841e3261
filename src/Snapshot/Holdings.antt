-- ===== src/Snapshot/Holdings.antt =====
-- src/state/position.rs, src/state/account.rs: `Position::new` and `Account::new`, from the contract's
-- structs `PositionInfo` and `AccountInfo`, with the fields that they read.
use perpl_dex_sdk.Prelude.{ℕ, not, Option, some, ◌==◌, ◌>>=◌}
use perpl_dex_sdk.Types.{StateInstant, PerpetualId, AccountId}
use perpl_dex_sdk.Numbers.{Numbers}
use perpl_dex_sdk.Table.{Table}
use perpl_dex_sdk.Converters.{from_unsigned, from_unsigned128, from_signed}
use perpl_dex_sdk.Position.{Position, position_type_from, margin_requirement}
use perpl_dex_sdk.Perpetual.{Converter}
use perpl_dex_sdk.Account.{Account}

module _ (n : Numbers) where
  open n use {UD64, U256, I256, Address}

  pub record PositionInfo : Type 0 where
    pub account_id : U256
    pub position_type : ℕ
    pub deposit_cns : U256
    pub price_pns : U256
    pub lot_lns : U256
    pub delta_pnl_cns : I256
    pub premium_pnl_cns : I256

  pub record AccountInfo : Type 0 where
    pub balance_cns : U256
    pub locked_balance_cns : U256
    pub frozen : ℕ
    pub account_addr : Address

  -- `Position::new`; `none` is a panic of a conversion.
  unfoldable pub position :
      StateInstant
      → PerpetualId
      → PositionInfo
      → Converter
      → Converter
      → Converter
      → UD64
      → Option (Position n)
  unfolding from_unsigned from_unsigned128 from_signed
  position instant perpetual_id info collateral_converter price_converter size_converter
        maintenance_margin =
      do
        entry_price ← from_unsigned n price_converter info.price_pns
        size ← from_unsigned n size_converter info.lot_lns
        account_id ← n.to_u32 info.account_id
        type ← position_type_from info.position_type
        deposit ← from_unsigned128 n collateral_converter info.deposit_cns
        delta_pnl ← from_signed n collateral_converter info.delta_pnl_cns
        premium_pnl ← from_signed n collateral_converter info.premium_pnl_cns
        some (record {
          instant = instant;
          funding_instant = instant;
          perpetual_id = perpetual_id;
          account_id = account_id;
          type = type;
          entry_price = entry_price;
          size = size;
          deposit = deposit;
          delta_pnl = delta_pnl;
          premium_pnl = premium_pnl;
          maintenance_margin_requirement = margin_requirement n entry_price size maintenance_margin;
        })

  -- `Account::new`
  unfoldable pub account :
      StateInstant
      → AccountId
      → AccountInfo
      → Table PerpetualId (Position n)
      → Converter
      → Option (Account n)
  unfolding from_unsigned128
  account instant id info positions collateral_converter = do
    balance ← from_unsigned128 n collateral_converter info.balance_cns
    locked_balance ← from_unsigned128 n collateral_converter info.locked_balance_cns
    some (record {
      instant = instant;
      id = id;
      address = info.account_addr;
      balance = balance;
      locked_balance = locked_balance;
      frozen = not (info.frozen == 0);
      positions = positions;
    })

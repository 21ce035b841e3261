-- ===== src/Account.antt =====
-- src/state/account.rs: an account with its positions. `HashMap` of positions by perpetual.
pub mod Bitmap
use perpl_dex_sdk.Prelude.{ℕ, Bool, true, false, List, [], ◌∷◌}
use perpl_dex_sdk.Types.{StateInstant, PerpetualId, AccountId}
use perpl_dex_sdk.Numbers.{Numbers}
use perpl_dex_sdk.Position.{Position}
use perpl_dex_sdk.Table
use perpl_dex_sdk.Table.{Table}
use perpl_dex_sdk.BookKeys.{by_id}

pub record Account (n : Numbers) : Type 0 where
  pub instant : StateInstant
  pub id : AccountId
  pub address : n.Address
  pub balance : n.UD128
  pub locked_balance : n.UD128
  pub frozen : Bool
  pub positions : Table PerpetualId (Position n)

module _ (n : Numbers) where
  open n use {UD128, Address, zero128, zero_address}

  unfoldable pub from_event : StateInstant → AccountId → Address → Account n
  from_event instant id address = record {
    instant = instant;
    id = id;
    address = address;
    balance = zero128;
    locked_balance = zero128;
    frozen = false;
    positions = [];
  }

  unfoldable pub from_position : StateInstant → Position n → Account n
  from_position instant position = record {
    instant = instant;
    id = position.account_id;
    address = zero_address;
    balance = zero128;
    locked_balance = zero128;
    frozen = false;
    positions = Table.insert by_id position.perpetual_id position [];
  }

  unfoldable pub update_frozen : StateInstant → Bool → Account n → Account n
  update_frozen instant frozen a = record a { frozen = frozen; instant = instant }

  unfoldable pub update_balance : StateInstant → UD128 → Account n → Account n
  update_balance instant balance a = record a { balance = balance; instant = instant }

  unfoldable pub update_locked_balance : StateInstant → UD128 → Account n → Account n
  update_locked_balance instant locked_balance a = record a {
    locked_balance = locked_balance;
    instant = instant;
  }

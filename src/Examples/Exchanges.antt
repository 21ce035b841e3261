-- ===== src/Examples/Exchanges.antt =====
-- An exchange whose contract pays funding at block 50 to the position of account 7.
use mathlib.Core.Option
use perpl_dex_sdk.Prelude.{◌≡◌, false, some, [], ◌∷◌, pos}
use perpl_dex_sdk.Position.{Position, apply_funding_payment}
use perpl_dex_sdk.Perpetual.{Perpetual}
use perpl_dex_sdk.Account.{Account}
use perpl_dex_sdk.Exchange.{Exchange, commit}
use perpl_dex_sdk.Exchange.Positions.{position_of}
use perpl_dex_sdk.Exchange.Commit.{position_of-commit, requirement_of-commit}
use perpl_dex_sdk.Table
use perpl_dex_sdk.Examples.Scale.{scale}
use perpl_dex_sdk.Examples.Positions.{at, position}
use perpl_dex_sdk.Examples.Contracts.{contract, units}

abbrev pub funding_contract : Perpetual scale
funding_contract = record contract {
  next_funding_rate = some (pos 5);
  next_funding_payment = some (pos 2);
  next_funding_event_block = some 50;
}

abbrev pub account : Account scale
account = record {
  instant = at 10;
  id = 7;
  address = 1;
  balance = 100;
  locked_balance = 0;
  frozen = false;
  positions = (1, position) ∷ [];
}

abbrev pub exchange : Exchange scale
exchange = record {
  chain = record {
    chain_id = 1;
    collateral_token = 2;
    deployed_at_block = 0;
    exchange = 3;
    perpetuals = 1 ∷ [];
  };
  instant = at 49;
  collateral_converter = units;
  funding_interval_blocks = 10;
  min_post = 0;
  min_settle = 0;
  recycle_fee = 0;
  perpetuals = (1, funding_contract) ∷ [];
  accounts = (7, account) ∷ [];
  is_halted = false;
  track_all_accounts = false;
}

-- The position is paid once.
position_of-commit_example :
    position_of scale (commit scale (at 50) exchange).0.accounts 7 1
    ≡ some (apply_funding_payment scale (at 50) (pos 2) position).0
unfolding Table.get
position_of-commit_example = position_of-commit scale (at 50) exchange 7 1

requirement_of-commit_example :
    Option.map
      (λ (p : Position scale). p.maintenance_margin_requirement)
      (position_of scale (commit scale (at 50) exchange).0.accounts 7 1)
    ≡ some 20
unfolding Table.get
requirement_of-commit_example = requirement_of-commit scale (at 50) exchange 7 1

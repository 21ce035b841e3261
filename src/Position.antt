-- ===== src/Position.antt =====
-- src/state/position.rs: an open position.
pub mod Profit
use perpl_dex_sdk.Prelude.{ℕ, Bool, true, false, Option, none, some, if◌then◌else◌, ◌==◌, zero, suc}
use perpl_dex_sdk.Types.{StateInstant, PerpetualId, AccountId, instant_ge}
use perpl_dex_sdk.Numbers.{Numbers}

pub data PositionType : Type 0 where
  long short : PositionType

abbrev pub is_long : PositionType → Bool
is_long long = true
is_long short = false

abbrev pub is_short : PositionType → Bool
is_short long = false
is_short short = true

-- `PositionType::from(u8)`; `none` is the `unreachable!()` panic.
unfoldable pub position_type_from : ℕ → Option PositionType
position_type_from zero = some long
position_type_from (suc zero) = some short
position_type_from (suc (suc n)) = none

pub record Position (n : Numbers) : Type 0 where
  pub instant : StateInstant
  pub funding_instant : StateInstant
  pub perpetual_id : PerpetualId
  pub account_id : AccountId
  pub type : PositionType
  pub entry_price : n.UD64
  pub size : n.UD64
  pub deposit : n.UD128
  pub delta_pnl : n.D256
  pub premium_pnl : n.D256
  pub maintenance_margin_requirement : n.UD128

module _ (n : Numbers) where
  open n use {
    UD64, UD128, D256, resize128, mul128, div128, add256, sub256, mul256, div256, neg256, zero256,
    one256, signed64, signed128, resize_D64, to_signed, add_D64, sub_D64, max_D64, zero_d64,
    unsigned_abs,
  }

  -- `entry_price * size / maintenance_margin`, in `UD128`.
  unfoldable pub margin_requirement : UD64 → UD64 → UD64 → UD128
  margin_requirement entry_price size maintenance_margin =
      div128 (mul128 (resize128 entry_price) (resize128 size)) (resize128 maintenance_margin)

  unfoldable pub opened :
      StateInstant
      → PerpetualId
      → AccountId
      → PositionType
      → UD64
      → UD64
      → UD128
      → UD64
      → Position n
  unfolding margin_requirement
  opened instant perpetual_id account_id type entry_price size deposit maintenance_margin = record {
    instant = instant;
    funding_instant = instant;
    perpetual_id = perpetual_id;
    account_id = account_id;
    type = type;
    entry_price = entry_price;
    size = size;
    deposit = deposit;
    delta_pnl = zero256;
    premium_pnl = zero256;
    maintenance_margin_requirement = margin_requirement entry_price size maintenance_margin;
  }

  unfoldable pub pnl : Position n → D256
  pnl p = add256 p.delta_pnl p.premium_pnl

  -- `D256::ONE` for a long position, its negation for a short one.
  abbrev pub side_sign : PositionType → D256
  side_sign t = if is_long t then one256 else neg256 one256

  unfoldable pub liquidation_price : Position n → UD64
  liquidation_price p =
      let change =
        div256
          (mul256 (side_sign p.type) (
            sub256 (sub256 (signed128 p.maintenance_margin_requirement) (signed128 p.deposit))
              p.premium_pnl))
          (signed64 p.size) in
      unsigned_abs (max_D64 (add_D64 (to_signed p.entry_price) (resize_D64 change)) zero_d64)

  unfoldable pub bankruptcy_price : Position n → UD64
  bankruptcy_price p =
      let change =
        div256 (mul256 (side_sign p.type) (add256 (signed128 p.deposit) p.premium_pnl))
          (signed64 p.size) in
      unsigned_abs (max_D64 (sub_D64 (to_signed p.entry_price) (resize_D64 change)) zero_d64)

  unfoldable pub update_type : StateInstant → PositionType → Position n → Position n
  update_type instant type p = record p { type = type; instant = instant }

  unfoldable pub update_entry_price : StateInstant → UD64 → Position n → Position n
  update_entry_price instant entry_price p = record p {
    entry_price = entry_price;
    instant = instant;
  }

  unfoldable pub update_size : StateInstant → UD64 → Position n → Position n
  update_size instant size p = record p { size = size; instant = instant }

  unfoldable pub update_deposit : StateInstant → UD128 → Position n → Position n
  update_deposit instant deposit p = record p { deposit = deposit; instant = instant }

  unfoldable pub update_premium_pnl : StateInstant → D256 → Position n → Position n
  update_premium_pnl instant premium_pnl p = record p {
    premium_pnl = premium_pnl;
    instant = instant;
    funding_instant = instant;
  }

  unfoldable pub apply_mark_price : StateInstant → UD64 → Position n → Position n
  apply_mark_price instant mark_price p = record p {
    delta_pnl =
        mul256 (mul256 (side_sign p.type) (sub256 (signed64 mark_price) (signed64 p.entry_price)))
          (signed64 p.size);
    instant = instant;
  }

  -- A positive payment means that longs pay shorts.
  abbrev pub payer_sign : PositionType → D256
  payer_sign t = if is_long t then neg256 one256 else one256

  unfoldable pub apply_funding_payment : StateInstant → D256 → Position n → Position n × Bool
  apply_funding_payment instant payment_per_unit p =
      if instant_ge p.funding_instant instant then (p, false) else (
        record p {
          premium_pnl =
              add256 p.premium_pnl
                (mul256 (mul256 (payer_sign p.type) payment_per_unit) (signed64 p.size));
          instant = instant;
          funding_instant = instant;
        },
        true,
      )

  unfoldable pub apply_maintenance_margin : StateInstant → UD64 → Position n → Position n
  unfolding margin_requirement
  apply_maintenance_margin instant maintenance_margin p = record p {
    maintenance_margin_requirement = margin_requirement p.entry_price p.size maintenance_margin;
    instant = instant;
  }

-- ===== src/Examples/Positions.antt =====
-- A long position of 4 at 100.
use perpl_dex_sdk.Prelude.{ℕ, ◌≡◌, refl, false, pos, ℤ}
use perpl_dex_sdk.Types.{StateInstant, instant_ge, instant_lt}
use perpl_dex_sdk.Position.{
  Position, long, apply_mark_price, apply_funding_payment, update_premium_pnl,
}
use perpl_dex_sdk.Position.Profit.{
  mirrored, apply_mark_price-mirrored, apply_funding_payment-mirrored, apply_funding_payment_once,
  update_premium_pnl_blocks,
}
use perpl_dex_sdk.Examples.Scale.{scale, scale-SignLaws}

abbrev pub at : ℕ → StateInstant
at block = record { block_number = block; block_timestamp = 0 }

abbrev pub position : Position scale
position = record {
  instant = at 10;
  funding_instant = at 10;
  perpetual_id = 1;
  account_id = 7;
  type = long;
  entry_price = 100;
  size = 4;
  deposit = 50;
  delta_pnl = pos 0;
  premium_pnl = pos 3;
  maintenance_margin_requirement = 20;
}

apply_mark_price-mirrored_example :
    (apply_mark_price scale (at 11) 90 (mirrored scale scale-SignLaws position)).delta_pnl
    ≡ scale.neg256 (apply_mark_price scale (at 11) 90 position).delta_pnl
apply_mark_price-mirrored_example =
    apply_mark_price-mirrored scale scale-SignLaws position (at 11) 90

apply_funding_payment-mirrored_example :
    (x : ℤ) × ((apply_funding_payment scale (at 11) (pos 2) position).0.premium_pnl
      ≡ scale.add256 (pos 3) x)
    × ((apply_funding_payment scale
          (at 11)
          (pos 2)
          (mirrored scale scale-SignLaws position)).0.premium_pnl
        ≡ scale.add256 (pos 3) (scale.neg256 x))
unfolding instant_ge instant_lt
apply_funding_payment-mirrored_example =
    apply_funding_payment-mirrored scale scale-SignLaws position (at 11) (pos 2) refl

-- A second payment of block 11 is refused.
apply_funding_payment_once_example :
    apply_funding_payment scale
      (at 11)
      (pos 5)
      (apply_funding_payment scale (at 11) (pos 2) position).0
    ≡ ((apply_funding_payment scale (at 11) (pos 2) position).0, false)
unfolding instant_ge instant_lt
apply_funding_payment_once_example =
    apply_funding_payment_once scale position (at 11) (at 11) (pos 2) (pos 5) refl

update_premium_pnl_blocks_example :
    apply_funding_payment scale (at 11) (pos 2) (update_premium_pnl scale (at 11) (pos 9) position)
    ≡ (update_premium_pnl scale (at 11) (pos 9) position, false)
update_premium_pnl_blocks_example = update_premium_pnl_blocks scale position (at 11) (pos 9) (pos 2)

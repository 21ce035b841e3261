-- ===== src/BookKeys.antt =====
-- The keys of the three maps of an order book: order numbers, prices upwards for the asks, and
-- `Reverse` prices for the bids.
use perpl_dex_sdk.Prelude.{ℕ, ◌≡◌, true, not, ◌||◌, ltb, ◌==◌, arith}
use perpl_dex_sdk.Amount.{Amount}
use perpl_dex_sdk.Table.{Ranking}

pub by_id_trans : (a b c : ℕ) → ltb a b ≡ true → ltb b c ≡ true → ltb a c ≡ true
by_id_trans a b c h k = ground arith

pub by_id_tied : (a b : ℕ) → not (ltb a b || ltb b a) ≡ (a == b)
by_id_tied a b = ground arith

abbrev pub by_id : Ranking ℕ
by_id = record { before = ltb; key = λ a. a; tied_iff = by_id_tied; before_trans = by_id_trans }

module _ {U : Type 0} ⦃d : Amount U⦄ where
  pub up_tied : (a b : U) → not (d.lt a b || d.lt b a) ≡ (d.units a == d.units b)
  up_tied a b = ground (arith, d.lt_units a b, d.lt_units b a)

  pub up_trans : (a b c : U) → d.lt a b ≡ true → d.lt b c ≡ true → d.lt a c ≡ true
  up_trans a b c h k = ground (arith, d.lt_units a b, d.lt_units b c, d.lt_units a c)

  pub down_tied : (a b : U) → not (d.lt b a || d.lt a b) ≡ (d.units a == d.units b)
  down_tied a b = ground (arith, d.lt_units a b, d.lt_units b a)

  pub down_trans : (a b c : U) → d.lt b a ≡ true → d.lt c b ≡ true → d.lt c a ≡ true
  down_trans a b c h k = ground (arith, d.lt_units b a, d.lt_units c b, d.lt_units c a)

  abbrev pub upwards : Ranking U
  upwards = record { before = d.lt; key = d.units; tied_iff = up_tied; before_trans = up_trans }

  abbrev pub downwards : Ranking U
  downwards = record {
    before = λ a b. d.lt b a;
    key = d.units;
    tied_iff = down_tied;
    before_trans = down_trans;
  }

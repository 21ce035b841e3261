-- ===== src/Position/Profit.antt =====
-- What a long and a short position of the same size make of a price and of a funding payment.
use perpl_dex_sdk.Prelude.{◌≡◌, true, false, arith, Bool-cases, inl, inr, ap}
use perpl_dex_sdk.Types.{StateInstant, instant_ge, instant_lt}
use perpl_dex_sdk.Numbers.{Numbers, SignLaws}
use perpl_dex_sdk.Position.{
  Position, PositionType, long, short, apply_mark_price, apply_funding_payment, update_premium_pnl,
  payer_sign, side_sign,
}

-- A position and the opposite one of the same size at the same price.
abbrev pub flip : PositionType → PositionType
flip long = short
flip short = long

module _ (n : Numbers) (laws : SignLaws n) where
  abbrev pub mirrored : Position n → Position n
  mirrored p = record p { type = flip p.type }

  sides_cancel :
      (t : PositionType) (x y : n.D256)
      → n.mul256 (n.mul256 (side_sign n (flip t)) x) y
        ≡ n.neg256 (n.mul256 (n.mul256 (side_sign n t) x) y)
  sides_cancel long x y = rw (laws.neg_one_mul, laws.one_mul) (laws.neg_mul x y)
  sides_cancel short x y = rw (laws.neg_one_mul, laws.one_mul, laws.neg_mul, laws.neg-neg)

  payers_cancel :
      (t : PositionType) (x y : n.D256)
      → n.mul256 (n.mul256 (payer_sign n (flip t)) x) y
        ≡ n.neg256 (n.mul256 (n.mul256 (payer_sign n t) x) y)
  payers_cancel long x y = sides_cancel short x y
  payers_cancel short x y = sides_cancel long x y

  pub apply_mark_price-mirrored :
      (p : Position n) (instant : StateInstant) (mark_price : n.UD64)
      → (apply_mark_price n instant mark_price (mirrored p)).delta_pnl
        ≡ n.neg256 (apply_mark_price n instant mark_price p).delta_pnl
  unfolding apply_mark_price
  apply_mark_price-mirrored p instant mark_price =
      sides_cancel p.type (n.sub256 (n.signed64 mark_price) (n.signed64 p.entry_price))
        (n.signed64 p.size)

  pub apply_funding_payment-mirrored :
      (p : Position n) (instant : StateInstant) (payment : n.D256)
      → instant_ge p.funding_instant instant ≡ false
      → (x : n.D256) × ((apply_funding_payment n instant payment p).0.premium_pnl
          ≡ n.add256 p.premium_pnl x)
        × ((apply_funding_payment n instant payment (mirrored p)).0.premium_pnl
            ≡ n.add256 p.premium_pnl (n.neg256 x))
  unfolding apply_funding_payment
  apply_funding_payment-mirrored p instant payment due = (
    n.mul256 (n.mul256 (payer_sign n p.type) payment) (n.signed64 p.size),
    rw due,
    rw due (ap (n.add256 p.premium_pnl) (payers_cancel p.type payment (n.signed64 p.size))),
  )

-- The order of instants.
pub instant_ge_refl : (a : StateInstant) → instant_ge a a ≡ true
unfolding instant_ge instant_lt
instant_ge_refl a = ground arith

pub instant_ge_trans :
    (a b c : StateInstant) → instant_ge a b ≡ true → instant_ge b c ≡ true → instant_ge a c ≡ true
unfolding instant_ge instant_lt
instant_ge_trans a b c h k = ground arith

pub instant_ge_total : (a b : StateInstant) → instant_ge a b ≡ false → instant_ge b a ≡ true
unfolding instant_ge instant_lt
instant_ge_total a b h = ground arith

module _ (n : Numbers) where
  -- Behind a call of `apply_funding_payment` at an instant, paid or refused, every payment at that
  -- instant or an earlier one is refused, and changes nothing.
  pub apply_funding_payment_once :
      (p : Position n) (i j : StateInstant) (x y : n.D256)
      → instant_ge i j ≡ true
      → apply_funding_payment n j y (apply_funding_payment n i x p).0
        ≡ ((apply_funding_payment n i x p).0, false)
  unfolding apply_funding_payment
  apply_funding_payment_once p i j x y earlier =
      elim (Bool-cases (instant_ge p.funding_instant i)) [
        | inl done ↦ rw (done, instant_ge_trans p.funding_instant i j done earlier)
        | inr due ↦ rw (due, earlier)
      ]

  -- A change of the premium by a trade blocks the payment of its instant.
  pub update_premium_pnl_blocks :
      (p : Position n) (i : StateInstant) (premium x : n.D256)
      → apply_funding_payment n i x (update_premium_pnl n i premium p)
        ≡ (update_premium_pnl n i premium p, false)
  unfolding apply_funding_payment update_premium_pnl
  update_premium_pnl_blocks p i premium x = rw (instant_ge_refl i)

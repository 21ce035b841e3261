-- ===== src/OrderBook/Impact.antt =====
-- `impact` of src/state/l3_book/mod.rs: how far an order of a given size eats into a side. The
-- products and the average are of the wider decimal type `UD128`, a parameter with no laws.
use Prim.Native.Nat.{min}
use perpl_dex_sdk.Prelude.{ℕ, ◌+◌, ◌-◌, ◌≡◌, ◌↔◌, Option, none, some, [], ◌∷◌, arith, if◌then◌else◌}
use perpl_dex_sdk.Amount.{Amount}
use perpl_dex_sdk.Table.{Table}
use perpl_dex_sdk.BookLevel.{BookLevel}
use perpl_dex_sdk.OrderBook.{OrderBook}

-- `UD128` and `resize` between the two widths.
pub record Wide (U W : Type 0) : Type 0 where
  pub w_zero : W
  pub widen : U → W
  pub narrow : W → U
  pub w_add : W → W → W
  pub w_mul : W → W → W
  pub w_div : W → W → W

module _ {U W : Type 0} ⦃d : Amount U⦄ (w : Wide U W) where
  -- The `fold_while` over the levels of a side, from the best: the last price, what is left to
  -- fill, and the sum of price times size.
  unfoldable pub fold_levels : Table U (BookLevel U) → U × U × W → U × U × W
  fold_levels [] acc = acc
  fold_levels ((price, level) ∷ rest) (p, unfilled, price_size) =
      let next = fold_levels rest (
        price,
        d.sub unfilled level.cached_size,
        w.w_add price_size (w.w_mul (w.widen price) (w.widen level.cached_size)),
      ) in
      if d.lt level.cached_size unfilled
      then next
      else (price, d.zero, w.w_add price_size (w.w_mul (w.widen price) (w.widen unfilled)))

  unfoldable pub impact : Table U (BookLevel U) → U → Option (U × U × U)
  unfolding fold_levels
  impact side want_size =
      let (price, unfilled, price_size) = fold_levels side (d.zero, want_size, w.w_zero) in
      let filled = d.sub want_size unfilled in
      if d.lt d.zero filled
      then some (price, filled, w.narrow (w.w_div price_size (w.widen filled)))
      else none

  unfoldable pub ask_impact : OrderBook U → U → Option (U × U × U)
  ask_impact b want_size = impact b.asks want_size

  unfoldable pub bid_impact : OrderBook U → U → Option (U × U × U)
  bid_impact b want_size = impact b.bids want_size

  -- The size that a side offers.
  abbrev pub offered : Table U (BookLevel U) → ℕ
  offered [] = 0
  offered ((price, level) ∷ rest) = d.units level.cached_size + offered rest

  fold_levels_unfilled :
      (side : Table U (BookLevel U)) (p unfilled : U) (price_size : W)
      → d.units (fold_levels side (p, unfilled, price_size)).1 ≡ d.units unfilled - offered side
  unfolding fold_levels
  fold_levels_unfilled [] p unfilled price_size = omega arith
  fold_levels_unfilled ((price, level) ∷ rest) p unfilled price_size = ground (
    arith,
    d.lt_units level.cached_size unfilled,
    d.units_sub unfilled level.cached_size,
    d.units_zero,
    fold_levels_unfilled rest price (d.sub unfilled level.cached_size)
        (w.w_add price_size (w.w_mul (w.widen price) (w.widen level.cached_size))),
  )

  abbrev pub filled_of : U × U × U → U
  filled_of (price, filled, average) = filled

  -- The impact of a size on a side, where there is one, reports as filled the smaller of the wanted
  -- and the offered size.
  pub impact_filled :
      (side : Table U (BookLevel U)) (want_size : U) (r : U × U × U)
      → impact side want_size ≡ some r
      → d.units (filled_of r) ≡ min (d.units want_size) (offered side)
  unfolding impact
  impact_filled side want_size (price, filled, average) e = ground (
    arith,
    fold_levels_unfilled side d.zero want_size w.w_zero,
    d.units_sub want_size (fold_levels side (d.zero, want_size, w.w_zero)).1,
  )

  -- There is no impact exactly when nothing is wanted or nothing is offered.
  pub impact-none :
      (side : Table U (BookLevel U)) (want_size : U)
      → (impact side want_size ≡ none) ↔ (min (d.units want_size) (offered side) ≡ 0)
  unfolding impact
  impact-none side want_size = ground (
    arith,
    fold_levels_unfilled side d.zero want_size w.w_zero,
    d.units_zero,
    d.lt_units d.zero (d.sub want_size (fold_levels side (d.zero, want_size, w.w_zero)).1),
    d.units_sub want_size (fold_levels side (d.zero, want_size, w.w_zero)).1,
  )

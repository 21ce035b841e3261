-- ===== src/Exchange/SizesKeep.antt =====
-- The handlers of src/state/exchange.rs that change a position's size or entry price keep the state
-- valid.
use perpl_dex_sdk.Prelude.{Bool, true, false, List, if◌then◌else◌}
use perpl_dex_sdk.Types.{PerpetualId, AccountId}
use perpl_dex_sdk.Numbers.{Numbers}
use perpl_dex_sdk.DexError.{DexError}
use perpl_dex_sdk.Table
use perpl_dex_sdk.Table.Each.{Each-remove}
use perpl_dex_sdk.BookKeys.{by_id}
use perpl_dex_sdk.Perpetual.{update_open_interest}
use perpl_dex_sdk.Exchange.RawEvents.{
  PositionIncreased, PositionDecreased, PositionDeleveraged, PositionInverted, PositionLiquidated,
  PositionCollateralDecreased,
}
use perpl_dex_sdk.Exchange.Handler.{modify, on_second}
use perpl_dex_sdk.Exchange.Lookup.{Env}
use perpl_dex_sdk.Exchange.OnSizes.{
  shrink, reenter, increase_position, position_increased, decrease_position, position_decreased,
  release, deleverage_position, position_deleveraged, liquidate_position, position_liquidated,
  invert_position, position_inverted, decrease_collateral, collateral_decreased,
}
use perpl_dex_sdk.Exchange.Keeps.{
  Keeps, Keeps-bind, Keeps-then, Keeps-modify, Keeps-if, Keeps-pure, Keeps-convert, Keeps-beside,
  Keeps-on_second, keeps_rules,
}
use perpl_dex_sdk.Exchange.Valid.{Frame, IsContract, IsPosition, IsAccount, Tracks}
use perpl_dex_sdk.Exchange.LookupKeeps.{Held, position-Keeps}
use perpl_dex_sdk.Exchange.AccountsKeep.{on_account-Keeps, rebalance-Keeps}
use perpl_dex_sdk.Exchange.ContractsKeep.{method-Keeps}
use perpl_dex_sdk.Exchange.MethodsKeep.{position_rules}
use perpl_dex_sdk.Exchange.PositionsKeep.{interest_in_position}

module _ (n : Numbers) {R : Type 0} (tracked : List PerpetualId) (frame : Frame) (env : Env n) where
  open n use {U256, I256, UD64}

  shrink-Keeps :
      (id : AccountId) (pid : PerpetualId) (l d : U256) (f : I256)
      → Keeps (Held n tracked frame id pid) (shrink n {R = R} env l d f)
  unfolding shrink
  shrink-Keeps id pid l d f = search position_rules depth 24 fits 3000

  reenter-Keeps :
      (id : AccountId) (pid : PerpetualId) (p l d : U256)
      → Keeps (Held n tracked frame id pid) (reenter n {R = R} env p l d)
  unfolding reenter
  reenter-Keeps id pid p l d = search position_rules depth 24 fits 3000

  released :
      (id : AccountId) (pid : PerpetualId)
      → Keeps {E = DexError UD64 R}
          (IsAccount n tracked id)
          (modify (λ a. record a { positions = Table.remove by_id pid a.positions }))
  released id pid = Keeps-modify _ λ a h. record {
    id_is = h.id_is;
    positions_are = Each-remove (IsPosition n tracked id) pid a.positions h.positions_are;
  }

  release-Keeps :
      (id : AccountId) (p l b : U256) → Keeps (IsAccount n tracked id) (release n {R = R} env p l b)
  unfolding release
  release-Keeps id p l b =
      Keeps-then (Keeps-if _ (Keeps-bind (Keeps-convert _) λ pid. released id pid) (Keeps-pure _))
        (rebalance-Keeps n tracked frame env id b)

  inverted_interest :
      (id : AccountId) (pid : PerpetualId) (long : Bool) (x y : UD64)
      → Keeps {E = DexError UD64 R} (Held n tracked frame id pid) (
          on_second (
            modify (
              if long
              then update_open_interest n env.instant n.ud64.zero x
              else update_open_interest n env.instant y n.ud64.zero)))
  unfolding update_open_interest
  inverted_interest id pid long x y = Keeps-on_second (Held n tracked frame id pid) λ p.
      Keeps-beside (IsContract n pid) (IsPosition n tracked id pid p) (λ s h. (h.1, h.0))
        (λ s q f. (f, q)) (one_of long)
    where
      one_of :
          (b : Bool)
          → Keeps {E = DexError UD64 R} (IsContract n pid) (
              modify (
                if b
                then update_open_interest n env.instant n.ud64.zero x
                else update_open_interest n env.instant y n.ud64.zero))
      one_of true = method-Keeps n pid env.instant _ search
      one_of false = method-Keeps n pid env.instant _ search

  increase_position-Keeps :
      (e : PositionIncreased n) (id : AccountId) (pid : PerpetualId)
      → Keeps (Held n tracked frame id pid) (increase_position n {R = R} env e)
  unfolding increase_position
  increase_position-Keeps e id pid =
      search (position_rules, reenter-Keeps, interest_in_position) depth 24 fits 3000

  pub position_increased-Keeps :
      (e : PositionIncreased n)
      → Keeps (Tracks n tracked frame) (position_increased n {R = R} env e)
  unfolding position_increased
  position_increased-Keeps e =
      Keeps-bind
        (position-Keeps n tracked frame e.account_id e.perp_id _ (increase_position-Keeps e))
        (search keeps_rules)

  decrease_position-Keeps :
      (e : PositionDecreased n) (id : AccountId) (pid : PerpetualId)
      → Keeps (Held n tracked frame id pid) (decrease_position n {R = R} env e)
  unfolding decrease_position
  decrease_position-Keeps e id pid =
      search (position_rules, shrink-Keeps, interest_in_position) depth 24 fits 3000

  pub position_decreased-Keeps :
      (e : PositionDecreased n)
      → Keeps (Tracks n tracked frame) (position_decreased n {R = R} env e)
  unfolding position_decreased
  position_decreased-Keeps e =
      Keeps-bind
        (position-Keeps n tracked frame e.account_id e.perp_id _ (decrease_position-Keeps e))
        (search keeps_rules)

  deleverage_position-Keeps :
      (e : PositionDeleveraged n) (id : AccountId) (pid : PerpetualId)
      → Keeps (Held n tracked frame id pid) (deleverage_position n {R = R} env e)
  unfolding deleverage_position
  deleverage_position-Keeps e id pid =
      search (position_rules, shrink-Keeps, interest_in_position) depth 24 fits 3000

  pub position_deleveraged-Keeps :
      (e : PositionDeleveraged n)
      → Keeps (Tracks n tracked frame) (position_deleveraged n {R = R} env e)
  unfolding position_deleveraged
  position_deleveraged-Keeps e =
      Keeps-bind
        (position-Keeps n tracked frame e.account_id e.perp_id _ (deleverage_position-Keeps e))
        λ events.
          Keeps-bind
            (on_account-Keeps n tracked frame env e.account_id _
              λ id. release-Keeps id e.perp_id e.end_lot_lns e.balance_cns)
            (search keeps_rules)

  liquidate_position-Keeps :
      (e : PositionLiquidated n) (id : AccountId) (pid : PerpetualId)
      → Keeps (Held n tracked frame id pid) (liquidate_position n {R = R} env e)
  unfolding liquidate_position
  liquidate_position-Keeps e id pid =
      search (position_rules, shrink-Keeps, interest_in_position) depth 24 fits 3000

  pub position_liquidated-Keeps :
      (e : PositionLiquidated n)
      → Keeps (Tracks n tracked frame) (position_liquidated n {R = R} env e)
  unfolding position_liquidated
  position_liquidated-Keeps e =
      Keeps-bind
        (position-Keeps n tracked frame e.pos_account_id e.perp_id _ (liquidate_position-Keeps e))
        λ events.
          Keeps-bind
            (on_account-Keeps n tracked frame env e.pos_account_id _
              λ id. release-Keeps id e.perp_id e.pos_lot_lns e.acc_balance_cns)
            (search keeps_rules)

  invert_position-Keeps :
      (e : PositionInverted n) (id : AccountId) (pid : PerpetualId)
      → Keeps (Held n tracked frame id pid) (invert_position n {R = R} env e)
  unfolding invert_position
  invert_position-Keeps e id pid =
      search (position_rules, reenter-Keeps, inverted_interest) depth 24 fits 3000

  pub position_inverted-Keeps :
      (e : PositionInverted n) → Keeps (Tracks n tracked frame) (position_inverted n {R = R} env e)
  unfolding position_inverted
  position_inverted-Keeps e =
      Keeps-bind (position-Keeps n tracked frame e.account_id e.perp_id _ (invert_position-Keeps e))
        (search keeps_rules)

  decrease_collateral-Keeps :
      (e : PositionCollateralDecreased n) (id : AccountId) (pid : PerpetualId)
      → Keeps (Held n tracked frame id pid) (decrease_collateral n {R = R} env e)
  unfolding decrease_collateral
  decrease_collateral-Keeps e id pid = search position_rules depth 24 fits 3000

  pub collateral_decreased-Keeps :
      (e : PositionCollateralDecreased n)
      → Keeps (Tracks n tracked frame) (collateral_decreased n {R = R} env e)
  unfolding collateral_decreased
  collateral_decreased-Keeps e =
      Keeps-bind
        (position-Keeps n tracked frame e.account_id e.perp_id _ (decrease_collateral-Keeps e))
        (search keeps_rules)

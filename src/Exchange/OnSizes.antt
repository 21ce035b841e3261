-- ===== src/Exchange/OnSizes.antt =====
-- src/state/exchange.rs: the handlers of the events that change a position's size or entry price.
use perpl_dex_sdk.Prelude.{List, [], ◌∷◌, ◌++◌, if◌then◌else◌, unwrap_or}
use perpl_dex_sdk.Numbers.{Numbers}
use perpl_dex_sdk.Table
use perpl_dex_sdk.BookKeys.{by_id}
use perpl_dex_sdk.Converters.{from_unsigned, from_unsigned128, from_signed}
use perpl_dex_sdk.Position.{
  Position, is_long, position_type_from, update_type, update_entry_price, update_size,
  update_deposit, update_premium_pnl, apply_mark_price, apply_maintenance_margin,
}
use perpl_dex_sdk.Perpetual.{Perpetual, update_open_interest}
use perpl_dex_sdk.Account.{Account}
use perpl_dex_sdk.StateEvents.{StateEvents, PositionEventType, open_interest_updated}
use perpl_dex_sdk.Emit.{perpetual_event, position_event}
use perpl_dex_sdk.Exchange.{Exchange}
use perpl_dex_sdk.Exchange.RawEvents.{
  PositionIncreased, PositionDecreased, PositionDeleveraged, PositionInverted, PositionLiquidated,
  PositionCollateralDecreased,
}
use perpl_dex_sdk.Exchange.Handler.{◌>>=◌, ◌>>◌, pure, gets, modify, convert, on_first, on_second}
use perpl_dex_sdk.Exchange.Lookup.{Env, On, position}
use perpl_dex_sdk.Exchange.OnAccounts.{rebalance, on_account}
use perpl_dex_sdk.Exchange.OnPositions.{interest}

module _ (n : Numbers) {R : Type 0} (env : Env n) where
  open n use {U256, I256}

  -- A method of the position, of the two that `position` returns.
  abbrev pos_does : (Position n → Position n) → On n R (Position n × Perpetual n) (Unit {0})
  pos_does f = on_first (modify f)

  -- `size`, `deposit` and the profit and loss of a position that got smaller.
  unfoldable pub shrink : U256 → U256 → I256 → On n R (Position n × Perpetual n) (Unit {0})
  shrink end_lot_lns end_deposit_cns funding_cns = do
    perp ← gets (λ s. s.1)
    size ← convert (from_unsigned n perp.size_converter end_lot_lns)
    pos_does (update_size n env.instant size)
    deposit ← convert (from_unsigned128 n env.cc end_deposit_cns)
    pos_does (update_deposit n env.instant deposit)
    pos_does (apply_mark_price n env.instant perp.mark_price)
    funding ← convert (from_signed n env.cc funding_cns)
    pos_does (λ p. update_premium_pnl n env.instant (n.sub256 p.premium_pnl funding) p)
    pos_does (apply_maintenance_margin n env.instant perp.maintenance_margin)

  -- Entry price, size, deposit and profit and loss of a position that got larger or changed sides.
  unfoldable pub reenter : U256 → U256 → U256 → On n R (Position n × Perpetual n) (Unit {0})
  reenter price_pns end_lot_lns end_deposit_cns = do
    perp ← gets (λ s. s.1)
    entry_price ← convert (from_unsigned n perp.price_converter price_pns)
    pos_does (update_entry_price n env.instant entry_price)
    size ← convert (from_unsigned n perp.size_converter end_lot_lns)
    pos_does (update_size n env.instant size)
    deposit ← convert (from_unsigned128 n env.cc end_deposit_cns)
    pos_does (update_deposit n env.instant deposit)
    pos_does (apply_mark_price n env.instant perp.mark_price)
    pos_does (update_premium_pnl n env.instant n.zero256)
    pos_does (apply_maintenance_margin n env.instant perp.maintenance_margin)

  -- What each event does to a position and its contract.
  unfoldable pub increase_position :
      PositionIncreased n → On n R (Position n × Perpetual n) (List (StateEvents n))
  unfolding reenter interest
  increase_position e = do
    prev_size ← gets (λ s. s.0.size)
    reenter e.price_pns e.end_lot_lns e.end_deposit_cns
    pos ← gets (λ s. s.0)
    interests ← on_second (interest n env (is_long pos.type) prev_size pos.size)
    pure (
        position_event n env.ctx
          (PositionEventType.increased pos.entry_price prev_size pos.size pos.deposit) pos
        ∷ interests)

  unfoldable pub position_increased :
      PositionIncreased n → On n R (Exchange n) (List (StateEvents n))
  unfolding position increase_position
  position_increased e = do
    events ← position n e.account_id e.perp_id (increase_position e)
    pure (unwrap_or events [])

  unfoldable pub decrease_position :
      PositionDecreased n → On n R (Position n × Perpetual n) (List (StateEvents n))
  unfolding shrink interest
  decrease_position e = do
    prev_size ← gets (λ s. s.0.size)
    shrink e.end_lot_lns e.end_deposit_cns e.funding_cns
    pos ← gets (λ s. s.0)
    interests ← on_second (interest n env (is_long pos.type) prev_size pos.size)
    pure (
        position_event n env.ctx
          (PositionEventType.decreased prev_size pos.size pos.deposit pos.delta_pnl pos.premium_pnl)
          pos
        ∷ interests)

  unfoldable pub position_decreased :
      PositionDecreased n → On n R (Exchange n) (List (StateEvents n))
  unfolding position decrease_position
  position_decreased e = do
    events ← position n e.account_id e.perp_id (decrease_position e)
    pure (unwrap_or events [])

  -- `if lot == U256::ZERO { acc.positions_mut().remove(..) }`, and the balance.
  unfoldable pub release : U256 → U256 → U256 → On n R (Account n) (StateEvents n)
  unfolding rebalance
  release perp_id lot_lns balance_cns = do
    if n.eq_U256 lot_lns n.zero_U256
        then (do
          perpetual_id ← convert (n.to_u32 perp_id)
          modify (λ a. record a { positions = Table.remove by_id perpetual_id a.positions }))
        else pure tt
    rebalance n env balance_cns

  unfoldable pub deleverage_position :
      PositionDeleveraged n → On n R (Position n × Perpetual n) (List (StateEvents n))
  unfolding shrink interest
  deleverage_position e = do
    prev_size ← gets (λ s. s.0.size)
    shrink e.end_lot_lns e.end_deposit_cns e.funding_cns
    pos ← gets (λ s. s.0)
    perp ← gets (λ s. s.1)
    exit_price ← convert (from_unsigned n perp.price_converter e.deleverage_price_pns)
    interests ← on_second (interest n env (is_long pos.type) prev_size pos.size)
    pure (
        position_event n env.ctx
          (PositionEventType.deleveraged e.force_close pos.type pos.entry_price exit_price prev_size
            pos.size pos.deposit pos.delta_pnl pos.premium_pnl)
          pos
        ∷ interests)

  unfoldable pub position_deleveraged :
      PositionDeleveraged n → On n R (Exchange n) (List (StateEvents n))
  unfolding position on_account release deleverage_position
  position_deleveraged e = do
    events ← position n e.account_id e.perp_id (deleverage_position e)
    balance ← on_account n env e.account_id (release e.perp_id e.end_lot_lns e.balance_cns)
    pure (unwrap_or events [] ++ balance)

  unfoldable pub liquidate_position :
      PositionLiquidated n → On n R (Position n × Perpetual n) (List (StateEvents n))
  unfolding shrink interest
  liquidate_position e = do
    prev_size ← gets (λ s. s.0.size)
    shrink e.pos_lot_lns e.pos_deposit_cns e.funding_cns
    pos ← gets (λ s. s.0)
    perp ← gets (λ s. s.1)
    exit_price ← convert (from_unsigned n perp.price_converter e.liq_price_pns)
    liquidated_size ← convert (from_unsigned n perp.size_converter e.liq_lot_lns)
    interests ← on_second (interest n env (is_long pos.type) prev_size pos.size)
    pure (
        position_event n env.ctx
          (PositionEventType.liquidated pos.type pos.entry_price exit_price prev_size
            liquidated_size pos.size pos.deposit pos.delta_pnl pos.premium_pnl)
          pos
        ∷ interests)

  unfoldable pub position_liquidated :
      PositionLiquidated n → On n R (Exchange n) (List (StateEvents n))
  unfolding position on_account release liquidate_position
  position_liquidated e = do
    events ← position n e.pos_account_id e.perp_id (liquidate_position e)
    balance ← on_account n env e.pos_account_id (release e.perp_id e.pos_lot_lns e.acc_balance_cns)
    pure (unwrap_or events [] ++ balance)

  unfoldable pub invert_position :
      PositionInverted n → On n R (Position n × Perpetual n) (List (StateEvents n))
  unfolding reenter
  invert_position e = do
    prev ← gets (λ s. s.0)
    type ← convert (position_type_from e.position_type)
    pos_does (update_type n env.instant type)
    reenter e.price_pns e.end_lot_lns e.end_deposit_cns
    pos ← gets (λ s. s.0)
    on_second (
        modify (
          if is_long pos.type
          then update_open_interest n env.instant n.ud64.zero pos.size
          else update_open_interest n env.instant prev.size n.ud64.zero))
    delta_pnl ← convert (from_signed n env.cc e.delta_pnl_cns)
    premium_pnl ← convert (from_signed n env.cc e.funding_cns)
    perp ← gets (λ s. s.1)
    pure (
        position_event n env.ctx
          (PositionEventType.closed prev.type prev.entry_price pos.entry_price prev.size delta_pnl
            premium_pnl)
          pos
        ∷ position_event n env.ctx
            (PositionEventType.inverted pos.type pos.entry_price prev.size pos.size pos.deposit
              pos.delta_pnl pos.premium_pnl)
            pos
        ∷ perpetual_event n (open_interest_updated perp.open_interest) perp
        ∷ [])

  unfoldable pub position_inverted : PositionInverted n → On n R (Exchange n) (List (StateEvents n))
  unfolding position invert_position
  position_inverted e = do
    events ← position n e.account_id e.perp_id (invert_position e)
    pure (unwrap_or events [])

  unfoldable pub decrease_collateral :
      PositionCollateralDecreased n → On n R (Position n × Perpetual n) (List (StateEvents n))
  decrease_collateral e = do
    prev_entry_price ← gets (λ s. s.0.entry_price)
    perp ← gets (λ s. s.1)
    entry_price ← convert (from_unsigned n perp.price_converter e.end_entry_price_pns)
    pos_does (update_entry_price n env.instant entry_price)
    deposit ← convert (from_unsigned128 n env.cc e.end_deposit_cns)
    pos_does (update_deposit n env.instant deposit)
    pos_does (apply_mark_price n env.instant perp.mark_price)
    pos_does (apply_maintenance_margin n env.instant perp.maintenance_margin)
    pos ← gets (λ s. s.0)
    pure (
        position_event n env.ctx
          (PositionEventType.collateral_decreased prev_entry_price pos.entry_price pos.deposit) pos
        ∷ [])

  unfoldable pub collateral_decreased :
      PositionCollateralDecreased n → On n R (Exchange n) (List (StateEvents n))
  unfolding position decrease_collateral
  collateral_decreased e = do
    events ← position n e.account_id e.perp_id (decrease_collateral e)
    pure (unwrap_or events [])

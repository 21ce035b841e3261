-- ===== src/Exchange/OnPositions.antt =====
-- src/state/exchange.rs: the handlers of the events of positions.
use perpl_dex_sdk.Prelude.{Bool, List, [], ◌∷◌, ◌++◌, if◌then◌else◌, unwrap_or}
use perpl_dex_sdk.Numbers.{Numbers}
use perpl_dex_sdk.Table
use perpl_dex_sdk.BookKeys.{by_id}
use perpl_dex_sdk.Converters.{from_unsigned, from_unsigned128, from_signed}
use perpl_dex_sdk.DexError.{position_not_found}
use perpl_dex_sdk.Position
use perpl_dex_sdk.Position.{
  Position, PositionType, is_long, position_type_from, update_type, update_entry_price, update_size,
  update_deposit, update_premium_pnl, apply_mark_price, apply_maintenance_margin,
}
use perpl_dex_sdk.Perpetual.{Perpetual, update_open_interest}
use perpl_dex_sdk.Account.{Account, update_balance}
use perpl_dex_sdk.StateEvents.{
  StateEvents, PositionEventType, balance_updated, open_interest_updated, deposit_updated,
}
use perpl_dex_sdk.Emit.{account_event, perpetual_event, position_event}
use perpl_dex_sdk.Exchange.{Exchange}
use perpl_dex_sdk.Exchange.RawEvents.{
  IncreasePositionCollateral, PositionOpened, PositionClosed, PositionUnwound,
  PositionUnwoundWithoutPayment,
}
use perpl_dex_sdk.Exchange.Handler.{
  ◌>>=◌, ◌>>◌, pure, gets, modify, convert, or_error, on_first, on_second, collected,
}
use perpl_dex_sdk.Exchange.Lookup.{Env, On, account_perpetual, position}
use perpl_dex_sdk.Exchange.OnAccounts.{rebalance, on_account}

module _ (n : Numbers) {R : Type 0} (env : Env n) where
  open n use {UD64, U256}

  -- The open interest counts the sizes of the long positions.
  unfoldable pub interest : Bool → UD64 → UD64 → On n R (Perpetual n) (List (StateEvents n))
  interest is_long_position prev_size new_size =
      if is_long_position
      then (do
        modify (update_open_interest n env.instant prev_size new_size)
        gets (λ p. perpetual_event n (open_interest_updated p.open_interest) p ∷ []))
      else pure []

  -- `positions_mut().remove(&perp.id()).ok_or(..)?`
  unfoldable pub take_position : On n R (Account n × Perpetual n) (Position n)
  take_position = do
    s ← gets (λ s. s)
    pos ← or_error (Table.get by_id s.1.id s.0.positions) (position_not_found s.0.id s.1.id)
    modify (λ s. (record s.0 { positions = Table.remove by_id s.1.id s.0.positions }, s.1))
    pure pos

  -- The new position of an account and a contract.
  unfoldable pub open_position :
      PositionOpened n → On n R (Account n × Perpetual n) (List (StateEvents n))
  unfolding interest
  open_position e = do
    acc ← gets (λ s. s.0)
    perp ← gets (λ s. s.1)
    type ← convert (position_type_from e.position_type)
    entry_price ← convert (from_unsigned n perp.price_converter e.price_pns)
    size ← convert (from_unsigned n perp.size_converter e.lot_lns)
    deposit ← convert (from_unsigned128 n env.cc e.deposit_cns)
    let pos =
        Position.opened n env.instant perp.id acc.id type entry_price size deposit
          perp.maintenance_margin
    opened_interest ← on_second (interest (is_long pos.type) n.ud64.zero pos.size)
    modify (λ s. (record s.0 { positions = Table.insert by_id s.1.id pos s.0.positions }, s.1))
    pure (
        position_event n env.ctx
          (PositionEventType.opened pos.type pos.entry_price pos.size pos.deposit) pos
        ∷ opened_interest)

  unfoldable pub position_opened : PositionOpened n → On n R (Exchange n) (List (StateEvents n))
  unfolding account_perpetual open_position
  position_opened e = do
    events ← account_perpetual n e.account_id e.perp_id (open_position e)
    pure (unwrap_or events [])

  -- What the closing of a position does to its account and its contract.
  unfoldable pub close_position :
      PositionClosed n → On n R (Account n × Perpetual n) (List (StateEvents n))
  unfolding take_position interest
  close_position e = do
    pos ← take_position
    perp ← gets (λ s. s.1)
    exit_price ← convert (from_unsigned n perp.price_converter e.price_pns)
    delta_pnl ← convert (from_signed n env.cc e.delta_pnl_cns)
    premium_pnl ← convert (from_signed n env.cc e.funding_cns)
    type ← convert (position_type_from e.position_type)
    closed_interest ← on_second (interest (is_long type) pos.size n.ud64.zero)
    pure (
        position_event n env.ctx
          (PositionEventType.closed pos.type pos.entry_price exit_price pos.size delta_pnl
            premium_pnl)
          pos
        ∷ closed_interest)

  unfoldable pub position_closed : PositionClosed n → On n R (Exchange n) (List (StateEvents n))
  unfolding account_perpetual close_position
  position_closed e = do
    events ← account_perpetual n e.account_id e.perp_id (close_position e)
    pure (unwrap_or events [])

  -- What unwinding a position does to its account and its contract.
  unfoldable pub unwind_position :
      PositionUnwound n → On n R (Account n × Perpetual n) (List (StateEvents n))
  unfolding take_position interest
  unwind_position e = do
    pos ← take_position
    balance ← convert (from_unsigned128 n env.cc e.balance_cns)
    on_first (modify (update_balance n env.instant balance))
    perp ← gets (λ s. s.1)
    exit_price ← convert (from_unsigned n perp.price_converter e.price_pns)
    fair_market_value ← convert (from_signed n env.cc e.position_fmv_cns)
    payment ← convert (from_unsigned128 n env.cc e.payment_cns)
    paid ← gets (λ s. account_event n env.ctx (balance_updated s.0.balance) s.0)
    closed_interest ← on_second (interest (is_long pos.type) pos.size n.ud64.zero)
    pure (
        position_event n env.ctx
          (PositionEventType.unwound pos.type pos.entry_price exit_price pos.size fair_market_value
            payment)
          pos
        ∷ paid
        ∷ closed_interest)

  unfoldable pub position_unwound : PositionUnwound n → On n R (Exchange n) (List (StateEvents n))
  unfolding account_perpetual unwind_position
  position_unwound e = do
    events ← account_perpetual n e.account_id e.perp_id (unwind_position e)
    pure (unwrap_or events [])

  -- The same without a payment.
  unfoldable pub unwind_unpaid :
      PositionUnwoundWithoutPayment n → On n R (Account n × Perpetual n) (List (StateEvents n))
  unfolding take_position interest
  unwind_unpaid e = do
    pos ← take_position
    perp ← gets (λ s. s.1)
    exit_price ← convert (from_unsigned n perp.price_converter e.price_pns)
    fair_market_value ← convert (from_signed n env.cc e.position_fmv_cns)
    closed_interest ← on_second (interest (is_long pos.type) pos.size n.ud64.zero)
    pure (
        position_event n env.ctx
          (PositionEventType.unwound pos.type pos.entry_price exit_price pos.size fair_market_value
            n.zero128)
          pos
        ∷ closed_interest)

  unfoldable pub position_unwound_without_payment :
      PositionUnwoundWithoutPayment n → On n R (Exchange n) (List (StateEvents n))
  unfolding account_perpetual unwind_unpaid
  position_unwound_without_payment e = do
    events ← account_perpetual n e.account_id e.perp_id (unwind_unpaid e)
    pure (unwrap_or events [])

  -- What a credit does to a position.
  unfoldable pub credit_position : U256 → On n R (Position n × Perpetual n) (StateEvents n)
  credit_position end_deposit_cns = do
    deposit ← convert (from_unsigned128 n env.cc end_deposit_cns)
    on_first (modify (update_deposit n env.instant deposit))
    gets (λ s. position_event n env.ctx (deposit_updated s.0.deposit) s.0)

  unfoldable pub position_credited : U256 → U256 → U256 → On n R (Exchange n) (List (StateEvents n))
  unfolding position credit_position
  position_credited perp_id account_id end_deposit_cns = do
    event ← position n account_id perp_id (credit_position end_deposit_cns)
    pure (collected event)

  -- What more collateral does to a position.
  unfoldable pub increase_collateral :
      IncreasePositionCollateral n → On n R (Position n × Perpetual n) (StateEvents n)
  increase_collateral e = do
    deposit ← convert (from_unsigned128 n env.cc e.position_deposit_cns)
    on_first (modify (update_deposit n env.instant deposit))
    gets (λ s. position_event n env.ctx (deposit_updated s.0.deposit) s.0)

  unfoldable pub collateral_increased :
      IncreasePositionCollateral n → On n R (Exchange n) (List (StateEvents n))
  unfolding position on_account rebalance increase_collateral
  collateral_increased e = do
    event ← position n e.account_id e.perp_id (increase_collateral e)
    balance ← on_account n env e.account_id (rebalance n env e.balance_cns)
    pure (collected event ++ balance)

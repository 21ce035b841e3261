-- ===== src/Exchange/RawEvents.antt =====
-- abi/dex/Exchange.json, the events of the contract, with the fields that src/state/exchange.rs reads,
-- in the contract's words.
use perpl_dex_sdk.Prelude.{ℕ, Bool}
use perpl_dex_sdk.Numbers.{Numbers}
use perpl_dex_sdk.BlockEvents.{EventContext, BlockEvents}

module _ (n : Numbers) where
  open n use {U256, I256, I48, B256, Address}

  pub record OrderRequest : Type 0 where
    pub perp_id : U256
    pub account_id : U256
    pub order_desc_id : U256
    pub order_id : U256
    pub order_type : ℕ
    pub price_pns : U256
    pub expiry_block : U256
    pub post_only : Bool
    pub fill_or_kill : Bool
    pub immediate_or_cancel : Bool
    pub leverage_hdths : U256

  -- `ClearingExpiredOrder`, `ClearingFrozenAccountOrder`, `ClearingInvalidCloseOrder`,
  -- `ClearingSelfMatchingOrder` and `MakerOrderSettlementFailed`.
  pub record OrderClearing : Type 0 where
    pub perp_id : U256
    pub account_id : U256
    pub order_id : U256
    pub locked_balance_cns : U256
    pub recycler_account_id : U256
    pub recycler_balance_cns : U256

  pub record MakerOrderFilled : Type 0 where
    pub perp_id : U256
    pub account_id : U256
    pub order_id : U256
    pub price_pns : U256
    pub lot_lns : U256
    pub fee_cns : U256
    pub locked_balance_cns : U256
    pub balance_cns : U256

  pub record TakerOrderFilled : Type 0 where
    pub price_pns : U256
    pub lot_lns : U256
    pub fee_cns : U256
    pub balance_cns : U256

  pub record OrderChanged : Type 0 where
    pub price_pns : U256
    pub lot_lns : U256
    pub expiry_block : U256
    pub locked_balance_cns : U256
    pub balance_cns : U256

  pub record OrderPlaced : Type 0 where
    pub order_id : U256
    pub lot_lns : U256
    pub locked_balance_cns : U256
    pub balance_cns : U256

  -- `OrderCancelledByAdmin` and `OrderCancelledByLiquidator`.
  pub record OrderCancelledBy : Type 0 where
    pub perp_id : U256
    pub account_id : U256
    pub order_id : U256
    pub locked_balance_cns : U256

  pub record FundingEventCompleted : Type 0 where
    pub perp_id : U256
    pub funding_event_block : U256
    pub actual_rate_pct100k : I256
    pub funding_payment_pns : I48

  pub record IncreasePositionCollateral : Type 0 where
    pub perp_id : U256
    pub account_id : U256
    pub position_deposit_cns : U256
    pub balance_cns : U256

  pub record PositionOpened : Type 0 where
    pub perp_id : U256
    pub account_id : U256
    pub position_type : ℕ
    pub deposit_cns : U256
    pub price_pns : U256
    pub lot_lns : U256

  pub record PositionClosed : Type 0 where
    pub perp_id : U256
    pub account_id : U256
    pub position_type : ℕ
    pub price_pns : U256
    pub delta_pnl_cns : I256
    pub funding_cns : I256

  pub record PositionIncreased : Type 0 where
    pub perp_id : U256
    pub account_id : U256
    pub end_deposit_cns : U256
    pub price_pns : U256
    pub end_lot_lns : U256

  pub record PositionDecreased : Type 0 where
    pub perp_id : U256
    pub account_id : U256
    pub end_deposit_cns : U256
    pub end_lot_lns : U256
    pub funding_cns : I256

  pub record PositionDeleveraged : Type 0 where
    pub perp_id : U256
    pub account_id : U256
    pub force_close : Bool
    pub deleverage_price_pns : U256
    pub funding_cns : I256
    pub end_deposit_cns : U256
    pub end_lot_lns : U256
    pub balance_cns : U256

  pub record PositionInverted : Type 0 where
    pub perp_id : U256
    pub account_id : U256
    pub position_type : ℕ
    pub end_deposit_cns : U256
    pub price_pns : U256
    pub end_lot_lns : U256
    pub delta_pnl_cns : I256
    pub funding_cns : I256

  pub record PositionLiquidated : Type 0 where
    pub perp_id : U256
    pub pos_account_id : U256
    pub liq_price_pns : U256
    pub liq_lot_lns : U256
    pub pos_lot_lns : U256
    pub funding_cns : I256
    pub pos_deposit_cns : U256
    pub acc_balance_cns : U256

  -- `PositionUnwound`, and `PositionUnwoundWithoutPayment`, which has neither of the last two.
  pub record PositionUnwound : Type 0 where
    pub perp_id : U256
    pub account_id : U256
    pub price_pns : U256
    pub position_fmv_cns : I256
    pub payment_cns : U256
    pub balance_cns : U256

  pub record PositionUnwoundWithoutPayment : Type 0 where
    pub perp_id : U256
    pub account_id : U256
    pub price_pns : U256
    pub position_fmv_cns : I256

  pub record PositionCollateralDecreased : Type 0 where
    pub perp_id : U256
    pub account_id : U256
    pub end_deposit_cns : U256
    pub end_entry_price_pns : U256

  -- `other` is every event that the handler ignores.
  pub data ExchangeEvents : Type 0 where
    account_created : (account : Address) (id : U256) → ExchangeEvents
    account_freeze : (account_id : U256) (status : ℕ) → ExchangeEvents
    account_liquidation_credit : (account_id end_balance_cns : U256) → ExchangeEvents
    collateral_deposit collateral_withdrawal : (account_id balance_cns : U256) → ExchangeEvents
    transfer_account_to_protocol transfer_protocol_to_account :
        (account_id balance_cns : U256) → ExchangeEvents
    account_frozen : ExchangeEvents
    amount_exceeds_available_balance : (amount_cns available_balance_cns : U256) → ExchangeEvents
    cancel_existing_invalid_close_orders cant_change_close_order : ExchangeEvents
    change_expired_order_needs_new_expiry close_order_exceeds_position : ExchangeEvents
    close_order_position_mismatch contract_is_paused crosses_book : ExchangeEvents
    exceeds_last_execution_block immediate_or_cancel_executed : ExchangeEvents
    insuficient_funds_for_recycle_fee invalid_expiry_block invalid_order_id : ExchangeEvents
    lot_out_of_range max_matches_reached maximum_account_orders order_does_not_exist :
        ExchangeEvents
    order_post_failed : (reason : U256) → ExchangeEvents
    order_settlement_implies_insolvent order_size_exceeds_available_size : ExchangeEvents
    post_order_under_minimum price_out_of_range wrong_account_for_order : ExchangeEvents
    contract_link_feed_updated : (perp_id : U256) (feed_id : B256) → ExchangeEvents
    contract_paused : (perp_id : U256) (paused : Bool) → ExchangeEvents
    contract_removed : (perp_id : U256) → ExchangeEvents
    funding_event_completed : FundingEventCompleted → ExchangeEvents
    ignore_oracle_updated : (perp_id : U256) (ign_oracle : Bool) → ExchangeEvents
    initial_margin_fraction_updated : (perp_id init_margin_frac_hdths : U256) → ExchangeEvents
    link_price_updated : (perp_id oracle_price_pns : U256) → ExchangeEvents
    maintenance_margin_fraction_updated : (perp_id maint_margin_frac_hdths : U256) → ExchangeEvents
    maker_fee_updated taker_fee_updated : (perp_id fee_per_100k : U256) → ExchangeEvents
    mark_updated : (perp_id price_pns : U256) → ExchangeEvents
    price_max_age_updated : (perp_id max_age_sec : U256) → ExchangeEvents
    exchange_halted : (halted : Bool) → ExchangeEvents
    min_post_updated : (min_post_cns : U256) → ExchangeEvents
    min_settle_updated : (min_settle_cns : U256) → ExchangeEvents
    recycle_fee_updated : (recycle_fee_cns : U256) → ExchangeEvents
    order_request : OrderRequest → ExchangeEvents
    order_batch_completed : ExchangeEvents
    order_placed : OrderPlaced → ExchangeEvents
    order_changed : OrderChanged → ExchangeEvents
    order_cancelled : (locked_balance_cns balance_cns : U256) → ExchangeEvents
    order_cancelled_by_admin order_cancelled_by_liquidator : OrderCancelledBy → ExchangeEvents
    clearing_expired_order clearing_frozen_account_order : OrderClearing → ExchangeEvents
    clearing_invalid_close_order clearing_self_matching_order : OrderClearing → ExchangeEvents
    maker_order_settlement_failed : OrderClearing → ExchangeEvents
    maker_order_filled : MakerOrderFilled → ExchangeEvents
    taker_order_filled : TakerOrderFilled → ExchangeEvents
    increase_position_collateral : IncreasePositionCollateral → ExchangeEvents
    position_opened : PositionOpened → ExchangeEvents
    position_closed : PositionClosed → ExchangeEvents
    position_increased : PositionIncreased → ExchangeEvents
    position_decreased : PositionDecreased → ExchangeEvents
    position_deleveraged : PositionDeleveraged → ExchangeEvents
    position_inverted : PositionInverted → ExchangeEvents
    position_liquidated : PositionLiquidated → ExchangeEvents
    position_liquidation_credit : (perp_id account_id end_deposit_cns : U256) → ExchangeEvents
    position_unwound : PositionUnwound → ExchangeEvents
    position_unwound_without_payment : PositionUnwoundWithoutPayment → ExchangeEvents
    position_collateral_decreased : PositionCollateralDecreased → ExchangeEvents
    other : ExchangeEvents

-- src/stream.rs
abbrev pub RawEvent : Numbers → Type 0
RawEvent n = EventContext n (ExchangeEvents n)

abbrev pub RawBlockEvents : Numbers → Type 0
RawBlockEvents n = BlockEvents (RawEvent n)

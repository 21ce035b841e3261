-- ===== src/StateEvents.antt =====
-- src/state/event.rs: the events that the state emits, and the context of an order request.
use perpl_dex_sdk.Prelude.{ℕ, Bool, Option}
use perpl_dex_sdk.Types.{PerpetualId, AccountId, OrderId, RequestId, OrderType, RequestType}
use perpl_dex_sdk.Numbers.{Numbers}
use perpl_dex_sdk.Position.{PositionType}

module _ (n : Numbers) where
  open n use {UD64, UD128, D64, D256, U256, B256}

  pub data AccountEventType : Type 0 where
    created : AccountId → AccountEventType
    frozen : Bool → AccountEventType
    balance_updated : UD128 → AccountEventType
    locked_balance_updated : UD128 → AccountEventType

  pub record AccountEvent : Type 0 where
    pub account_id : AccountId
    pub request_id : Option RequestId
    pub type : AccountEventType

  pub data OrderErrorType : Type 0 where
    account_frozen : OrderErrorType
    amount_exceeds_available_balance : UD128 → UD128 → OrderErrorType
    cancel_existing_invalid_close_orders cant_change_close_order : OrderErrorType
    change_expired_order_needs_new_expiry close_order_exceeds_position : OrderErrorType
    close_order_position_mismatch contract_is_paused crosses_book : OrderErrorType
    exceeds_last_execution_block immediate_or_cancel_executed : OrderErrorType
    insuficient_funds_for_recycle_fee invalid_expiry_block invalid_order_id : OrderErrorType
    maker_order_settlement_failed max_matches_reached maximum_account_orders : OrderErrorType
    order_does_not_exist : OrderErrorType
    order_post_failed : ℕ → OrderErrorType
    order_settlement_implies_insolvent order_size_exceeds_available_size : OrderErrorType
    post_order_under_minimum price_out_of_range size_out_of_range : OrderErrorType
    wrong_account_for_order : OrderErrorType

  pub record OrderError : Type 0 where
    pub perpetual_id : PerpetualId
    pub account_id : AccountId
    pub request_id : RequestId
    pub order_id : Option OrderId
    pub type : OrderErrorType

  pub data ExchangeEvent : Type 0 where
    halted : Bool → ExchangeEvent
    min_post_updated : UD128 → ExchangeEvent
    min_settle_updated : UD128 → ExchangeEvent
    recycle_fee_updated : UD128 → ExchangeEvent

  pub data OrderEventType : Type 0 where
    filled : (fill_price fill_size fee : UD64) (is_maker : Bool) → OrderEventType
    placed :
        (type : OrderType) (price size : UD64) (expiry_block : ℕ) (leverage : UD64)
        (post_only fill_or_kill immediate_or_cancel : Bool)
        → OrderEventType
    removed : OrderEventType
    updated : (price size : Option UD64) (expiry_block : Option ℕ) → OrderEventType

  pub record OrderEvent : Type 0 where
    pub perpetual_id : PerpetualId
    pub account_id : AccountId
    pub request_id : Option RequestId
    pub order_id : Option OrderId
    pub type : OrderEventType

  pub data PerpetualEventType : Type 0 where
    funding_event : (rate : D64) (payment_per_unit : D256) → PerpetualEventType
    initial_margin_fraction_updated : UD64 → PerpetualEventType
    last_price_updated : UD64 → PerpetualEventType
    maintenance_margin_fraction_updated : UD64 → PerpetualEventType
    mark_price_updated : UD64 → PerpetualEventType
    maker_fee_updated : UD64 → PerpetualEventType
    open_interest_updated : UD128 → PerpetualEventType
    oracle_configuration_updated : (is_used : Bool) (feed_id : B256) → PerpetualEventType
    oracle_price_updated : UD64 → PerpetualEventType
    paused : Bool → PerpetualEventType
    taker_fee_updated : UD64 → PerpetualEventType

  pub record PerpetualEvent : Type 0 where
    pub perpetual_id : PerpetualId
    pub type : PerpetualEventType

  pub data PositionEventType : Type 0 where
    closed :
        (type : PositionType) (entry_price exit_price size : UD64) (delta_pnl premium_pnl : D256)
        → PositionEventType
    collateral_decreased :
        (prev_entry_price new_entry_price : UD64) (deposit : UD128) → PositionEventType
    decreased :
        (prev_size new_size : UD64) (deposit : UD128) (delta_pnl premium_pnl : D256)
        → PositionEventType
    deleveraged :
        (force_close : Bool) (type : PositionType)
        (entry_price exit_price prev_size new_size : UD64) (deposit : UD128)
        (delta_pnl premium_pnl : D256)
        → PositionEventType
    deposit_updated : UD128 → PositionEventType
    increased : (entry_price prev_size new_size : UD64) (deposit : UD128) → PositionEventType
    inverted :
        (type : PositionType) (entry_price prev_size new_size : UD64) (deposit : UD128)
        (delta_pnl premium_pnl : D256)
        → PositionEventType
    liquidated :
        (type : PositionType) (entry_price exit_price prev_size liquidated_size new_size : UD64)
        (deposit : UD128) (delta_pnl premium_pnl : D256)
        → PositionEventType
    maintenance_margin_updated : UD128 → PositionEventType
    opened : (type : PositionType) (entry_price size : UD64) (deposit : UD128) → PositionEventType
    unrealized_pnl_updated : (pnl delta_pnl premium_pnl : D256) → PositionEventType
    unwound :
        (type : PositionType) (entry_price exit_price size : UD64) (fair_market_value : D256)
        (payment : UD128)
        → PositionEventType

  pub record PositionEvent : Type 0 where
    pub perpetual_id : PerpetualId
    pub account_id : AccountId
    pub request_id : Option RequestId
    pub type : PositionEventType

  pub data StateEvents : Type 0 where
    account : AccountEvent → StateEvents
    error : OrderError → StateEvents
    exchange : ExchangeEvent → StateEvents
    order : OrderEvent → StateEvents
    perpetual : PerpetualEvent → StateEvents
    position : PositionEvent → StateEvents

  -- The order request that later events refer to.
  pub record OrderContext : Type 0 where
    pub perpetual_id : PerpetualId
    pub account_id : AccountId
    pub request_id : RequestId
    pub order_id : Option OrderId
    pub type : RequestType
    pub price : U256
    pub expiry_block : ℕ
    pub leverage : U256
    pub post_only : Bool
    pub fill_or_kill : Bool
    pub immediate_or_cancel : Bool

  -- `StateEvents::order_error`
  unfoldable pub order_error : OrderContext → OrderErrorType → StateEvents
  order_error ctx type = error (record {
    perpetual_id = ctx.perpetual_id;
    account_id = ctx.account_id;
    request_id = ctx.request_id;
    order_id = ctx.order_id;
    type = type;
  })

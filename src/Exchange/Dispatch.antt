-- ===== src/Exchange/Dispatch.antt =====
-- src/state/exchange.rs: `apply_raw_event`, the handler of one event of the contract.
use perpl_dex_sdk.Prelude.{Option, none, some, List, [], ◌>>=◌, Result}
use perpl_dex_sdk.Types.{StateInstant}
use perpl_dex_sdk.Numbers.{Numbers}
use perpl_dex_sdk.DexError.{DexError}
use perpl_dex_sdk.StateEvents.{StateEvents, OrderContext, OrderErrorType}
use perpl_dex_sdk.Exchange.{Exchange}
use perpl_dex_sdk.Exchange.RawEvents.{ExchangeEvents, RawEvent}
use perpl_dex_sdk.Exchange.Handler.{pure}
use perpl_dex_sdk.Exchange.Lookup.{Env, On}
use perpl_dex_sdk.Exchange.Requests.{context_of}
use perpl_dex_sdk.Exchange.OnAccounts.{
  account_created, account_freeze, account_liquidation_credit, collateral_moved, transferred,
  failed, amount_exceeds, post_failed, price_failed, exchange_halted, min_post_changed,
  min_settle_changed, recycle_fee_changed,
}
use perpl_dex_sdk.Exchange.OnContracts.{
  link_feed_updated, contract_paused, contract_removed, funding_completed, ignore_oracle_updated,
  initial_margin_updated, link_price_updated, maintenance_margin_changed, maker_fee_changed,
  taker_fee_changed, mark_updated, price_max_age_updated,
}
use perpl_dex_sdk.Exchange.OnOrders.{
  order_placed, order_changed, order_cancelled, order_cancelled_by, order_cleared,
  maker_settlement_failed, maker_order_filled, taker_order_filled,
}
use perpl_dex_sdk.Exchange.OnPositions.{
  collateral_increased, position_opened, position_closed, position_credited, position_unwound,
  position_unwound_without_payment,
}
use perpl_dex_sdk.Exchange.OnSizes.{
  position_increased, position_decreased, position_deleveraged, position_inverted,
  position_liquidated, collateral_decreased,
}

module _ (n : Numbers) where
  -- The context of the events behind an event: a request replaces it, and the end of a batch drops it.
  unfoldable pub next_context :
      ExchangeEvents n → Option (OrderContext n) → Option (Option (OrderContext n))
  unfolding context_of
  next_context (ExchangeEvents.order_request r) ctx = do c ← context_of n r; some (some c)
  next_context ExchangeEvents.order_batch_completed ctx = some none
  next_context _ ctx = some ctx

module _ (n : Numbers) {R : Type 0} where
  -- The state behind an event, and the events that it produces.
  unfoldable pub handle : Env n → ExchangeEvents n → On n R (Exchange n) (List (StateEvents n))
  unfolding account_created account_freeze account_liquidation_credit collateral_moved transferred
      failed amount_exceeds post_failed price_failed exchange_halted min_post_changed
      min_settle_changed recycle_fee_changed link_feed_updated contract_paused contract_removed
      funding_completed ignore_oracle_updated initial_margin_updated link_price_updated
      maintenance_margin_changed maker_fee_changed taker_fee_changed mark_updated
      price_max_age_updated order_placed order_changed order_cancelled order_cancelled_by
      order_cleared maker_settlement_failed maker_order_filled taker_order_filled
      collateral_increased position_opened position_closed position_credited position_unwound
      position_unwound_without_payment position_increased position_decreased position_deleveraged
      position_inverted position_liquidated collateral_decreased
  handle env (ExchangeEvents.account_created address id) = account_created n env address id
  handle env (ExchangeEvents.account_freeze account_id status) =
      account_freeze n env account_id status
  handle env (ExchangeEvents.account_liquidation_credit account_id balance) =
      account_liquidation_credit n env account_id balance
  handle env (ExchangeEvents.collateral_deposit account_id balance) =
      collateral_moved n env account_id balance
  handle env (ExchangeEvents.collateral_withdrawal account_id balance) =
      collateral_moved n env account_id balance
  handle env (ExchangeEvents.transfer_account_to_protocol account_id balance) =
      transferred n env account_id balance
  handle env (ExchangeEvents.transfer_protocol_to_account account_id balance) =
      transferred n env account_id balance
  handle env ExchangeEvents.account_frozen = failed n env OrderErrorType.account_frozen
  handle env ExchangeEvents.cancel_existing_invalid_close_orders =
      failed n env OrderErrorType.cancel_existing_invalid_close_orders
  handle env ExchangeEvents.cant_change_close_order =
      failed n env OrderErrorType.cant_change_close_order
  handle env ExchangeEvents.change_expired_order_needs_new_expiry =
      failed n env OrderErrorType.change_expired_order_needs_new_expiry
  handle env ExchangeEvents.close_order_exceeds_position =
      failed n env OrderErrorType.close_order_exceeds_position
  handle env ExchangeEvents.close_order_position_mismatch =
      failed n env OrderErrorType.close_order_position_mismatch
  handle env ExchangeEvents.contract_is_paused = failed n env OrderErrorType.contract_is_paused
  handle env ExchangeEvents.crosses_book = failed n env OrderErrorType.crosses_book
  handle env ExchangeEvents.exceeds_last_execution_block =
      failed n env OrderErrorType.exceeds_last_execution_block
  handle env ExchangeEvents.immediate_or_cancel_executed =
      failed n env OrderErrorType.immediate_or_cancel_executed
  handle env ExchangeEvents.insuficient_funds_for_recycle_fee =
      failed n env OrderErrorType.insuficient_funds_for_recycle_fee
  handle env ExchangeEvents.invalid_expiry_block = failed n env OrderErrorType.invalid_expiry_block
  handle env ExchangeEvents.invalid_order_id = failed n env OrderErrorType.invalid_order_id
  handle env ExchangeEvents.lot_out_of_range = failed n env OrderErrorType.size_out_of_range
  handle env ExchangeEvents.max_matches_reached = failed n env OrderErrorType.max_matches_reached
  handle env ExchangeEvents.maximum_account_orders =
      failed n env OrderErrorType.maximum_account_orders
  handle env ExchangeEvents.order_does_not_exist = failed n env OrderErrorType.order_does_not_exist
  handle env ExchangeEvents.order_settlement_implies_insolvent =
      failed n env OrderErrorType.order_settlement_implies_insolvent
  handle env ExchangeEvents.order_size_exceeds_available_size =
      failed n env OrderErrorType.order_size_exceeds_available_size
  handle env ExchangeEvents.post_order_under_minimum =
      failed n env OrderErrorType.post_order_under_minimum
  handle env ExchangeEvents.wrong_account_for_order =
      failed n env OrderErrorType.wrong_account_for_order
  handle env (ExchangeEvents.amount_exceeds_available_balance amount available) =
      amount_exceeds n env amount available
  handle env (ExchangeEvents.order_post_failed reason) = post_failed n env reason
  handle env ExchangeEvents.price_out_of_range = price_failed n env
  handle env (ExchangeEvents.contract_link_feed_updated perp_id feed_id) =
      link_feed_updated n env perp_id feed_id
  handle env (ExchangeEvents.contract_paused perp_id paused) = contract_paused n env perp_id paused
  handle env (ExchangeEvents.contract_removed perp_id) = contract_removed n env perp_id
  handle env (ExchangeEvents.funding_event_completed f) = funding_completed n env f
  handle env (ExchangeEvents.ignore_oracle_updated perp_id ign_oracle) =
      ignore_oracle_updated n env perp_id ign_oracle
  handle env (ExchangeEvents.initial_margin_fraction_updated perp_id margin) =
      initial_margin_updated n env perp_id margin
  handle env (ExchangeEvents.link_price_updated perp_id price) =
      link_price_updated n env perp_id price
  handle env (ExchangeEvents.maintenance_margin_fraction_updated perp_id margin) =
      maintenance_margin_changed n env perp_id margin
  handle env (ExchangeEvents.maker_fee_updated perp_id fee) = maker_fee_changed n env perp_id fee
  handle env (ExchangeEvents.taker_fee_updated perp_id fee) = taker_fee_changed n env perp_id fee
  handle env (ExchangeEvents.mark_updated perp_id price) = mark_updated n env perp_id price
  handle env (ExchangeEvents.price_max_age_updated perp_id seconds) =
      price_max_age_updated n env perp_id seconds
  handle env (ExchangeEvents.exchange_halted halted) = exchange_halted n env halted
  handle env (ExchangeEvents.min_post_updated min_post) = min_post_changed n env min_post
  handle env (ExchangeEvents.min_settle_updated min_settle) = min_settle_changed n env min_settle
  handle env (ExchangeEvents.recycle_fee_updated fee) = recycle_fee_changed n env fee
  handle env (ExchangeEvents.order_request r) = pure []
  handle env ExchangeEvents.order_batch_completed = pure []
  handle env (ExchangeEvents.order_placed e) = order_placed n env e
  handle env (ExchangeEvents.order_changed e) = order_changed n env e
  handle env (ExchangeEvents.order_cancelled locked balance) = order_cancelled n env locked balance
  handle env (ExchangeEvents.order_cancelled_by_admin e) = order_cancelled_by n env e
  handle env (ExchangeEvents.order_cancelled_by_liquidator e) = order_cancelled_by n env e
  handle env (ExchangeEvents.clearing_expired_order c) = order_cleared n env c
  handle env (ExchangeEvents.clearing_frozen_account_order c) = order_cleared n env c
  handle env (ExchangeEvents.clearing_invalid_close_order c) = order_cleared n env c
  handle env (ExchangeEvents.clearing_self_matching_order c) = order_cleared n env c
  handle env (ExchangeEvents.maker_order_settlement_failed c) = maker_settlement_failed n env c
  handle env (ExchangeEvents.maker_order_filled f) = maker_order_filled n env f
  handle env (ExchangeEvents.taker_order_filled f) = taker_order_filled n env f
  handle env (ExchangeEvents.increase_position_collateral e) = collateral_increased n env e
  handle env (ExchangeEvents.position_opened e) = position_opened n env e
  handle env (ExchangeEvents.position_closed e) = position_closed n env e
  handle env (ExchangeEvents.position_increased e) = position_increased n env e
  handle env (ExchangeEvents.position_decreased e) = position_decreased n env e
  handle env (ExchangeEvents.position_deleveraged e) = position_deleveraged n env e
  handle env (ExchangeEvents.position_inverted e) = position_inverted n env e
  handle env (ExchangeEvents.position_liquidated e) = position_liquidated n env e
  handle env (ExchangeEvents.position_liquidation_credit perp_id account_id deposit) =
      position_credited n env perp_id account_id deposit
  handle env (ExchangeEvents.position_unwound e) = position_unwound n env e
  handle env (ExchangeEvents.position_unwound_without_payment e) =
      position_unwound_without_payment n env e
  handle env (ExchangeEvents.position_collateral_decreased e) = collateral_decreased n env e
  handle env ExchangeEvents.other = pure []

  -- `apply_raw_event`. The context goes on beside the state.
  unfoldable pub apply_raw_event :
      StateInstant
      → RawEvent n
      → Option (OrderContext n)
      → Exchange n
      → Option (
          (Exchange n × Result (DexError n.UD64 R) (List (StateEvents n)))
          × Option (OrderContext n))
  unfolding handle next_context
  apply_raw_event instant event ctx e = do
    outcome ←
        handle
          (record {
            instant = instant;
            cc = e.collateral_converter;
            ctx = ctx;
            tx_index = event.tx_index;
            log_index = event.log_index;
          })
          event.event e
    ctx' ← next_context n event.event ctx
    some (outcome, ctx')

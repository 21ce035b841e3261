-- ===== src/Exchange/EventsKeep.antt =====
-- The state of src/state/exchange.rs stays valid, event by event and block by block.
use perpl_dex_sdk.Prelude.{List}
use perpl_dex_sdk.Types.{PerpetualId}
use perpl_dex_sdk.Numbers.{Numbers}
use perpl_dex_sdk.StateEvents.{OrderErrorType}
use perpl_dex_sdk.Exchange.RawEvents.{ExchangeEvents}
use perpl_dex_sdk.Exchange.Lookup.{Env}
use perpl_dex_sdk.Exchange.Dispatch.{handle}
use perpl_dex_sdk.Exchange.Keeps.{Keeps, Keeps-pure}
use perpl_dex_sdk.Exchange.Valid.{Frame, Tracks}
use perpl_dex_sdk.Exchange.AccountsKeep.{
  account_created-Keeps, account_freeze-Keeps, account_liquidation_credit-Keeps,
  collateral_moved-Keeps, transferred-Keeps, failed-Keeps, amount_exceeds-Keeps, post_failed-Keeps,
  price_failed-Keeps, exchange_halted-Keeps, min_post_changed-Keeps, min_settle_changed-Keeps,
  recycle_fee_changed-Keeps,
}
use perpl_dex_sdk.Exchange.ContractsKeep.{
  link_feed_updated-Keeps, contract_paused-Keeps, contract_removed-Keeps, funding_completed-Keeps,
  ignore_oracle_updated-Keeps, initial_margin_updated-Keeps, link_price_updated-Keeps,
  maintenance_margin_changed-Keeps, maker_fee_changed-Keeps, taker_fee_changed-Keeps,
  price_max_age_updated-Keeps,
}
use perpl_dex_sdk.Exchange.StepsKeep.{mark_updated-Keeps}
use perpl_dex_sdk.Exchange.OrdersKeep.{
  order_placed-Keeps, order_changed-Keeps, order_cancelled-Keeps, order_cancelled_by-Keeps,
  order_cleared-Keeps, maker_settlement_failed-Keeps, maker_order_filled-Keeps,
  taker_order_filled-Keeps,
}
use perpl_dex_sdk.Exchange.PositionsKeep.{
  collateral_increased-Keeps, position_opened-Keeps, position_closed-Keeps, position_credited-Keeps,
  position_unwound-Keeps, position_unwound_without_payment-Keeps,
}
use perpl_dex_sdk.Exchange.SizesKeep.{
  position_increased-Keeps, position_decreased-Keeps, position_deleveraged-Keeps,
  position_inverted-Keeps, position_liquidated-Keeps, collateral_decreased-Keeps,
}

module _ (n : Numbers) {R : Type 0} (tracked : List PerpetualId) (frame : Frame) where
  -- Every event of the contract.
  pub handle-Keeps :
      (env : Env n) (event : ExchangeEvents n)
      → Keeps (Tracks n tracked frame) (handle n {R = R} env event)
  unfolding handle
  handle-Keeps env (ExchangeEvents.account_created address id) =
      account_created-Keeps n tracked frame env address id
  handle-Keeps env (ExchangeEvents.account_freeze account_id status) =
      account_freeze-Keeps n tracked frame env account_id status
  handle-Keeps env (ExchangeEvents.account_liquidation_credit account_id balance) =
      account_liquidation_credit-Keeps n tracked frame env account_id balance
  handle-Keeps env (ExchangeEvents.collateral_deposit account_id balance) =
      collateral_moved-Keeps n tracked frame env account_id balance
  handle-Keeps env (ExchangeEvents.collateral_withdrawal account_id balance) =
      collateral_moved-Keeps n tracked frame env account_id balance
  handle-Keeps env (ExchangeEvents.transfer_account_to_protocol account_id balance) =
      transferred-Keeps n tracked frame env account_id balance
  handle-Keeps env (ExchangeEvents.transfer_protocol_to_account account_id balance) =
      transferred-Keeps n tracked frame env account_id balance
  handle-Keeps env ExchangeEvents.account_frozen =
      failed-Keeps n tracked frame env OrderErrorType.account_frozen
  handle-Keeps env ExchangeEvents.cancel_existing_invalid_close_orders =
      failed-Keeps n tracked frame env OrderErrorType.cancel_existing_invalid_close_orders
  handle-Keeps env ExchangeEvents.cant_change_close_order =
      failed-Keeps n tracked frame env OrderErrorType.cant_change_close_order
  handle-Keeps env ExchangeEvents.change_expired_order_needs_new_expiry =
      failed-Keeps n tracked frame env OrderErrorType.change_expired_order_needs_new_expiry
  handle-Keeps env ExchangeEvents.close_order_exceeds_position =
      failed-Keeps n tracked frame env OrderErrorType.close_order_exceeds_position
  handle-Keeps env ExchangeEvents.close_order_position_mismatch =
      failed-Keeps n tracked frame env OrderErrorType.close_order_position_mismatch
  handle-Keeps env ExchangeEvents.contract_is_paused =
      failed-Keeps n tracked frame env OrderErrorType.contract_is_paused
  handle-Keeps env ExchangeEvents.crosses_book =
      failed-Keeps n tracked frame env OrderErrorType.crosses_book
  handle-Keeps env ExchangeEvents.exceeds_last_execution_block =
      failed-Keeps n tracked frame env OrderErrorType.exceeds_last_execution_block
  handle-Keeps env ExchangeEvents.immediate_or_cancel_executed =
      failed-Keeps n tracked frame env OrderErrorType.immediate_or_cancel_executed
  handle-Keeps env ExchangeEvents.insuficient_funds_for_recycle_fee =
      failed-Keeps n tracked frame env OrderErrorType.insuficient_funds_for_recycle_fee
  handle-Keeps env ExchangeEvents.invalid_expiry_block =
      failed-Keeps n tracked frame env OrderErrorType.invalid_expiry_block
  handle-Keeps env ExchangeEvents.invalid_order_id =
      failed-Keeps n tracked frame env OrderErrorType.invalid_order_id
  handle-Keeps env ExchangeEvents.lot_out_of_range =
      failed-Keeps n tracked frame env OrderErrorType.size_out_of_range
  handle-Keeps env ExchangeEvents.max_matches_reached =
      failed-Keeps n tracked frame env OrderErrorType.max_matches_reached
  handle-Keeps env ExchangeEvents.maximum_account_orders =
      failed-Keeps n tracked frame env OrderErrorType.maximum_account_orders
  handle-Keeps env ExchangeEvents.order_does_not_exist =
      failed-Keeps n tracked frame env OrderErrorType.order_does_not_exist
  handle-Keeps env ExchangeEvents.order_settlement_implies_insolvent =
      failed-Keeps n tracked frame env OrderErrorType.order_settlement_implies_insolvent
  handle-Keeps env ExchangeEvents.order_size_exceeds_available_size =
      failed-Keeps n tracked frame env OrderErrorType.order_size_exceeds_available_size
  handle-Keeps env ExchangeEvents.post_order_under_minimum =
      failed-Keeps n tracked frame env OrderErrorType.post_order_under_minimum
  handle-Keeps env ExchangeEvents.wrong_account_for_order =
      failed-Keeps n tracked frame env OrderErrorType.wrong_account_for_order
  handle-Keeps env (ExchangeEvents.amount_exceeds_available_balance amount available) =
      amount_exceeds-Keeps n tracked frame env amount available
  handle-Keeps env (ExchangeEvents.order_post_failed reason) =
      post_failed-Keeps n tracked frame env reason
  handle-Keeps env ExchangeEvents.price_out_of_range = price_failed-Keeps n tracked frame env
  handle-Keeps env (ExchangeEvents.contract_link_feed_updated perp_id feed_id) =
      link_feed_updated-Keeps n tracked frame env perp_id feed_id
  handle-Keeps env (ExchangeEvents.contract_paused perp_id paused) =
      contract_paused-Keeps n tracked frame env perp_id paused
  handle-Keeps env (ExchangeEvents.contract_removed perp_id) =
      contract_removed-Keeps n tracked frame env perp_id
  handle-Keeps env (ExchangeEvents.funding_event_completed f) =
      funding_completed-Keeps n tracked frame env f
  handle-Keeps env (ExchangeEvents.ignore_oracle_updated perp_id ign_oracle) =
      ignore_oracle_updated-Keeps n tracked frame env perp_id ign_oracle
  handle-Keeps env (ExchangeEvents.initial_margin_fraction_updated perp_id margin) =
      initial_margin_updated-Keeps n tracked frame env perp_id margin
  handle-Keeps env (ExchangeEvents.link_price_updated perp_id price) =
      link_price_updated-Keeps n tracked frame env perp_id price
  handle-Keeps env (ExchangeEvents.maintenance_margin_fraction_updated perp_id margin) =
      maintenance_margin_changed-Keeps n tracked frame env perp_id margin
  handle-Keeps env (ExchangeEvents.maker_fee_updated perp_id fee) =
      maker_fee_changed-Keeps n tracked frame env perp_id fee
  handle-Keeps env (ExchangeEvents.taker_fee_updated perp_id fee) =
      taker_fee_changed-Keeps n tracked frame env perp_id fee
  handle-Keeps env (ExchangeEvents.mark_updated perp_id price) =
      mark_updated-Keeps n tracked frame env perp_id price
  handle-Keeps env (ExchangeEvents.price_max_age_updated perp_id seconds) =
      price_max_age_updated-Keeps n tracked frame env perp_id seconds
  handle-Keeps env (ExchangeEvents.exchange_halted halted) =
      exchange_halted-Keeps n tracked frame env halted
  handle-Keeps env (ExchangeEvents.min_post_updated min_post) =
      min_post_changed-Keeps n tracked frame env min_post
  handle-Keeps env (ExchangeEvents.min_settle_updated min_settle) =
      min_settle_changed-Keeps n tracked frame env min_settle
  handle-Keeps env (ExchangeEvents.recycle_fee_updated fee) =
      recycle_fee_changed-Keeps n tracked frame env fee
  handle-Keeps env (ExchangeEvents.order_request r) = Keeps-pure _
  handle-Keeps env ExchangeEvents.order_batch_completed = Keeps-pure _
  handle-Keeps env (ExchangeEvents.order_placed e) = order_placed-Keeps n tracked frame env e
  handle-Keeps env (ExchangeEvents.order_changed e) = order_changed-Keeps n tracked frame env e
  handle-Keeps env (ExchangeEvents.order_cancelled locked balance) =
      order_cancelled-Keeps n tracked frame env locked balance
  handle-Keeps env (ExchangeEvents.order_cancelled_by_admin e) =
      order_cancelled_by-Keeps n tracked frame env e
  handle-Keeps env (ExchangeEvents.order_cancelled_by_liquidator e) =
      order_cancelled_by-Keeps n tracked frame env e
  handle-Keeps env (ExchangeEvents.clearing_expired_order c) =
      order_cleared-Keeps n tracked frame env c
  handle-Keeps env (ExchangeEvents.clearing_frozen_account_order c) =
      order_cleared-Keeps n tracked frame env c
  handle-Keeps env (ExchangeEvents.clearing_invalid_close_order c) =
      order_cleared-Keeps n tracked frame env c
  handle-Keeps env (ExchangeEvents.clearing_self_matching_order c) =
      order_cleared-Keeps n tracked frame env c
  handle-Keeps env (ExchangeEvents.maker_order_settlement_failed c) =
      maker_settlement_failed-Keeps n tracked frame env c
  handle-Keeps env (ExchangeEvents.maker_order_filled f) =
      maker_order_filled-Keeps n tracked frame env f
  handle-Keeps env (ExchangeEvents.taker_order_filled f) =
      taker_order_filled-Keeps n tracked frame env f
  handle-Keeps env (ExchangeEvents.increase_position_collateral e) =
      collateral_increased-Keeps n tracked frame env e
  handle-Keeps env (ExchangeEvents.position_opened e) = position_opened-Keeps n tracked frame env e
  handle-Keeps env (ExchangeEvents.position_closed e) = position_closed-Keeps n tracked frame env e
  handle-Keeps env (ExchangeEvents.position_increased e) =
      position_increased-Keeps n tracked frame env e
  handle-Keeps env (ExchangeEvents.position_decreased e) =
      position_decreased-Keeps n tracked frame env e
  handle-Keeps env (ExchangeEvents.position_deleveraged e) =
      position_deleveraged-Keeps n tracked frame env e
  handle-Keeps env (ExchangeEvents.position_inverted e) =
      position_inverted-Keeps n tracked frame env e
  handle-Keeps env (ExchangeEvents.position_liquidated e) =
      position_liquidated-Keeps n tracked frame env e
  handle-Keeps env (ExchangeEvents.position_liquidation_credit perp_id account_id deposit) =
      position_credited-Keeps n tracked frame env perp_id account_id deposit
  handle-Keeps env (ExchangeEvents.position_unwound e) =
      position_unwound-Keeps n tracked frame env e
  handle-Keeps env (ExchangeEvents.position_unwound_without_payment e) =
      position_unwound_without_payment-Keeps n tracked frame env e
  handle-Keeps env (ExchangeEvents.position_collateral_decreased e) =
      collateral_decreased-Keeps n tracked frame env e
  handle-Keeps env ExchangeEvents.other = Keeps-pure _

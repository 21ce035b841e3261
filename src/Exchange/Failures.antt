-- ===== src/Exchange/Failures.antt =====
-- Events of src/state/exchange.rs that need the context of an order request, and the errors of requests.
use perpl_dex_sdk.Prelude.{
  ℕ, ◌≡◌, refl, true, false, Bool, Option, some, none, List, [], ◌∷◌, Result, ok, err, ap, ◌∙◌,
  some_inj, ltb, ◌<◌, arith, if◌then◌else◌, is_some, Option-cases, inl, inr,
}
use perpl_dex_sdk.Types.{StateInstant}
use perpl_dex_sdk.Numbers.{Numbers}
use perpl_dex_sdk.Table
use perpl_dex_sdk.BookKeys.{by_id}
use perpl_dex_sdk.DexError.{DexError, order_context_expected}
use perpl_dex_sdk.Perpetual.{Converter}
use perpl_dex_sdk.StateEvents.{StateEvents, OrderErrorType, OrderContext, order_error}
use perpl_dex_sdk.Exchange.{Exchange}
use perpl_dex_sdk.Exchange.RawEvents.{ExchangeEvents, RawEvent}
use perpl_dex_sdk.Exchange.Handler.{◌>>=◌, pure, gets, or_error}
use perpl_dex_sdk.Exchange.Lookup.{Env, must_ctx, err_ctx}
use perpl_dex_sdk.Exchange.OnAccounts.{failed, amount_exceeds, post_failed}
use perpl_dex_sdk.Exchange.OnOrders.{
  taker_order_filled, order_placed, order_changed, order_cancelled,
}
use perpl_dex_sdk.Exchange.Dispatch.{handle, apply_raw_event, next_context}
use perpl_dex_sdk.Exchange.Block.{reset_context, apply_all}

module _ (n : Numbers) where
  -- The events that only say why a request failed.
  abbrev pub error_type : ExchangeEvents n → Option (OrderErrorType n)
  error_type ExchangeEvents.account_frozen = some OrderErrorType.account_frozen
  error_type ExchangeEvents.cancel_existing_invalid_close_orders =
      some OrderErrorType.cancel_existing_invalid_close_orders
  error_type ExchangeEvents.cant_change_close_order = some OrderErrorType.cant_change_close_order
  error_type ExchangeEvents.change_expired_order_needs_new_expiry =
      some OrderErrorType.change_expired_order_needs_new_expiry
  error_type ExchangeEvents.close_order_exceeds_position =
      some OrderErrorType.close_order_exceeds_position
  error_type ExchangeEvents.close_order_position_mismatch =
      some OrderErrorType.close_order_position_mismatch
  error_type ExchangeEvents.contract_is_paused = some OrderErrorType.contract_is_paused
  error_type ExchangeEvents.crosses_book = some OrderErrorType.crosses_book
  error_type ExchangeEvents.exceeds_last_execution_block =
      some OrderErrorType.exceeds_last_execution_block
  error_type ExchangeEvents.immediate_or_cancel_executed =
      some OrderErrorType.immediate_or_cancel_executed
  error_type ExchangeEvents.insuficient_funds_for_recycle_fee =
      some OrderErrorType.insuficient_funds_for_recycle_fee
  error_type ExchangeEvents.invalid_expiry_block = some OrderErrorType.invalid_expiry_block
  error_type ExchangeEvents.invalid_order_id = some OrderErrorType.invalid_order_id
  error_type ExchangeEvents.lot_out_of_range = some OrderErrorType.size_out_of_range
  error_type ExchangeEvents.max_matches_reached = some OrderErrorType.max_matches_reached
  error_type ExchangeEvents.maximum_account_orders = some OrderErrorType.maximum_account_orders
  error_type ExchangeEvents.order_does_not_exist = some OrderErrorType.order_does_not_exist
  error_type ExchangeEvents.order_settlement_implies_insolvent =
      some OrderErrorType.order_settlement_implies_insolvent
  error_type ExchangeEvents.order_size_exceeds_available_size =
      some OrderErrorType.order_size_exceeds_available_size
  error_type ExchangeEvents.post_order_under_minimum = some OrderErrorType.post_order_under_minimum
  error_type ExchangeEvents.wrong_account_for_order = some OrderErrorType.wrong_account_for_order
  error_type _ = none

  -- The events that go with the request before them.
  abbrev pub needs_context : ExchangeEvents n → Bool
  needs_context ExchangeEvents.account_frozen = true
  needs_context ExchangeEvents.cancel_existing_invalid_close_orders = true
  needs_context ExchangeEvents.cant_change_close_order = true
  needs_context ExchangeEvents.change_expired_order_needs_new_expiry = true
  needs_context ExchangeEvents.close_order_exceeds_position = true
  needs_context ExchangeEvents.close_order_position_mismatch = true
  needs_context ExchangeEvents.contract_is_paused = true
  needs_context ExchangeEvents.crosses_book = true
  needs_context ExchangeEvents.exceeds_last_execution_block = true
  needs_context ExchangeEvents.immediate_or_cancel_executed = true
  needs_context ExchangeEvents.insuficient_funds_for_recycle_fee = true
  needs_context ExchangeEvents.invalid_expiry_block = true
  needs_context ExchangeEvents.invalid_order_id = true
  needs_context ExchangeEvents.lot_out_of_range = true
  needs_context ExchangeEvents.max_matches_reached = true
  needs_context ExchangeEvents.maximum_account_orders = true
  needs_context ExchangeEvents.order_does_not_exist = true
  needs_context ExchangeEvents.order_settlement_implies_insolvent = true
  needs_context ExchangeEvents.order_size_exceeds_available_size = true
  needs_context ExchangeEvents.post_order_under_minimum = true
  needs_context ExchangeEvents.wrong_account_for_order = true
  needs_context (ExchangeEvents.amount_exceeds_available_balance a b) = true
  needs_context (ExchangeEvents.order_post_failed r) = true
  needs_context (ExchangeEvents.taker_order_filled f) = true
  needs_context (ExchangeEvents.order_placed p) = true
  needs_context (ExchangeEvents.order_changed c) = true
  needs_context (ExchangeEvents.order_cancelled l b) = true
  needs_context _ = false

module _ (n : Numbers) (R : Type 0) where
  -- What is reported of a failed request: its error, if its account is tracked.
  abbrev pub report :
      Env n → OrderErrorType n → Exchange n → Result (DexError n.UD64 R) (List (StateEvents n))
  report env type e = elim env.ctx [
    | none ↦ err (order_context_expected env.tx_index env.log_index)
    | some c ↦ ok (
        if is_some (Table.get by_id c.account_id e.accounts) then order_error n c type ∷ [] else [])
  ]

  reported :
      (b : Bool) (c : OrderContext n) (type : OrderErrorType n) (e : Exchange n) (env : Env n)
      → env.ctx ≡ some c
      → is_some (Table.get by_id c.account_id e.accounts) ≡ b
      → failed n {R = R} env type e ≡ some (e, report env type e)
  unfolding failed err_ctx must_ctx or_error ◌>>=◌ gets pure
  reported true c type e env h t = rw (h, failed, t) refl
  reported false c type e env h t = rw (h, failed, t) refl

  failed-report :
      (env : Env n) (type : OrderErrorType n) (e : Exchange n)
      → failed n {R = R} env type e ≡ some (e, report env type e)
  unfolding failed err_ctx must_ctx or_error ◌>>=◌
  failed-report env type e = elim (Option-cases env.ctx) [
    | inl h ↦ rw (h, failed) refl
    | inr (c, h) ↦ reported _ c type e env h refl
  ]

  of_type :
      (env : Env n) (t type : OrderErrorType n) (e : Exchange n)
      → some t ≡ some type
      → failed n {R = R} env t e ≡ some (e, report env type e)
  of_type env t type e h = failed-report env t e ∙ ap (λ x. some (e, report env x e)) (some_inj h)

  -- An event that only says why a request failed leaves the state as it is. It is the error
  -- `OrderContextExpected` where no request came before it; otherwise it is reported, with the
  -- numbers of the request, exactly if the account of the request is tracked.
  pub handle-report :
      (env : Env n) (event : ExchangeEvents n) (type : OrderErrorType n) (e : Exchange n)
      → error_type n event ≡ some type
      → handle n {R = R} env event e ≡ some (e, report env type e)
  unfolding handle
  handle-report env ExchangeEvents.account_frozen type e h =
      of_type env OrderErrorType.account_frozen type e h
  handle-report env ExchangeEvents.cancel_existing_invalid_close_orders type e h =
      of_type env OrderErrorType.cancel_existing_invalid_close_orders type e h
  handle-report env ExchangeEvents.cant_change_close_order type e h =
      of_type env OrderErrorType.cant_change_close_order type e h
  handle-report env ExchangeEvents.change_expired_order_needs_new_expiry type e h =
      of_type env OrderErrorType.change_expired_order_needs_new_expiry type e h
  handle-report env ExchangeEvents.close_order_exceeds_position type e h =
      of_type env OrderErrorType.close_order_exceeds_position type e h
  handle-report env ExchangeEvents.close_order_position_mismatch type e h =
      of_type env OrderErrorType.close_order_position_mismatch type e h
  handle-report env ExchangeEvents.contract_is_paused type e h =
      of_type env OrderErrorType.contract_is_paused type e h
  handle-report env ExchangeEvents.crosses_book type e h =
      of_type env OrderErrorType.crosses_book type e h
  handle-report env ExchangeEvents.exceeds_last_execution_block type e h =
      of_type env OrderErrorType.exceeds_last_execution_block type e h
  handle-report env ExchangeEvents.immediate_or_cancel_executed type e h =
      of_type env OrderErrorType.immediate_or_cancel_executed type e h
  handle-report env ExchangeEvents.insuficient_funds_for_recycle_fee type e h =
      of_type env OrderErrorType.insuficient_funds_for_recycle_fee type e h
  handle-report env ExchangeEvents.invalid_expiry_block type e h =
      of_type env OrderErrorType.invalid_expiry_block type e h
  handle-report env ExchangeEvents.invalid_order_id type e h =
      of_type env OrderErrorType.invalid_order_id type e h
  handle-report env ExchangeEvents.lot_out_of_range type e h =
      of_type env OrderErrorType.size_out_of_range type e h
  handle-report env ExchangeEvents.max_matches_reached type e h =
      of_type env OrderErrorType.max_matches_reached type e h
  handle-report env ExchangeEvents.maximum_account_orders type e h =
      of_type env OrderErrorType.maximum_account_orders type e h
  handle-report env ExchangeEvents.order_does_not_exist type e h =
      of_type env OrderErrorType.order_does_not_exist type e h
  handle-report env ExchangeEvents.order_settlement_implies_insolvent type e h =
      of_type env OrderErrorType.order_settlement_implies_insolvent type e h
  handle-report env ExchangeEvents.order_size_exceeds_available_size type e h =
      of_type env OrderErrorType.order_size_exceeds_available_size type e h
  handle-report env ExchangeEvents.post_order_under_minimum type e h =
      of_type env OrderErrorType.post_order_under_minimum type e h
  handle-report env ExchangeEvents.wrong_account_for_order type e h =
      of_type env OrderErrorType.wrong_account_for_order type e h
  handle-report env _ type e h = absurd (cc h)

  without_context :
      (instant : StateInstant) (cc' : Converter) (tx log : ℕ) (event : ExchangeEvents n)
      (e : Exchange n)
      → needs_context n event ≡ true
      → handle n {R = R}
          (record { instant = instant; cc = cc'; ctx = none; tx_index = tx; log_index = log })
          event
          e
        ≡ some (e, err (order_context_expected tx log))
  unfolding handle failed amount_exceeds post_failed taker_order_filled order_placed order_changed
      order_cancelled err_ctx must_ctx or_error ◌>>=◌
  without_context instant cc' tx log ExchangeEvents.account_frozen e h = refl
  without_context instant cc' tx log ExchangeEvents.cancel_existing_invalid_close_orders e h = refl
  without_context instant cc' tx log ExchangeEvents.cant_change_close_order e h = refl
  without_context instant cc' tx log ExchangeEvents.change_expired_order_needs_new_expiry e h = refl
  without_context instant cc' tx log ExchangeEvents.close_order_exceeds_position e h = refl
  without_context instant cc' tx log ExchangeEvents.close_order_position_mismatch e h = refl
  without_context instant cc' tx log ExchangeEvents.contract_is_paused e h = refl
  without_context instant cc' tx log ExchangeEvents.crosses_book e h = refl
  without_context instant cc' tx log ExchangeEvents.exceeds_last_execution_block e h = refl
  without_context instant cc' tx log ExchangeEvents.immediate_or_cancel_executed e h = refl
  without_context instant cc' tx log ExchangeEvents.insuficient_funds_for_recycle_fee e h = refl
  without_context instant cc' tx log ExchangeEvents.invalid_expiry_block e h = refl
  without_context instant cc' tx log ExchangeEvents.invalid_order_id e h = refl
  without_context instant cc' tx log ExchangeEvents.lot_out_of_range e h = refl
  without_context instant cc' tx log ExchangeEvents.max_matches_reached e h = refl
  without_context instant cc' tx log ExchangeEvents.maximum_account_orders e h = refl
  without_context instant cc' tx log ExchangeEvents.order_does_not_exist e h = refl
  without_context instant cc' tx log ExchangeEvents.order_settlement_implies_insolvent e h = refl
  without_context instant cc' tx log ExchangeEvents.order_size_exceeds_available_size e h = refl
  without_context instant cc' tx log ExchangeEvents.post_order_under_minimum e h = refl
  without_context instant cc' tx log ExchangeEvents.wrong_account_for_order e h = refl
  without_context instant cc' tx log (ExchangeEvents.amount_exceeds_available_balance a b) e h =
      refl
  without_context instant cc' tx log (ExchangeEvents.order_post_failed r) e h = refl
  without_context instant cc' tx log (ExchangeEvents.taker_order_filled f) e h = refl
  without_context instant cc' tx log (ExchangeEvents.order_placed p) e h = refl
  without_context instant cc' tx log (ExchangeEvents.order_changed c) e h = refl
  without_context instant cc' tx log (ExchangeEvents.order_cancelled l b) e h = refl
  without_context instant cc' tx log _ e h = absurd (cc h)

  kept_context :
      (event : ExchangeEvents n)
      → needs_context n event ≡ true
      → next_context n event none ≡ some none
  unfolding next_context
  kept_context (ExchangeEvents.order_request r) h = absurd (cc h)
  kept_context ExchangeEvents.order_batch_completed h = refl
  kept_context _ h = refl

  unasked :
      (at : StateInstant) (event : RawEvent n) (e : Exchange n)
      → needs_context n event.event ≡ true
      → apply_raw_event n {R = R} at event none e
        ≡ some ((e, err (order_context_expected event.tx_index event.log_index)), none)
  unfolding apply_raw_event
  unasked at event e needs =
      let out =
        without_context at e.collateral_converter event.tx_index event.log_index event.event e
          needs in
      rw (out, kept_context event.event needs) refl

  reset_behind :
      (idx tx : ℕ) (ctx : Option (OrderContext n))
      → idx < tx
      → reset_context n (some idx) tx ctx ≡ none
  unfolding reset_context
  reset_behind idx tx ctx later = let new : ltb idx tx ≡ true = ground arith in rw new refl

  -- An event that goes with an order request, and that is the first of its transaction in the block,
  -- ends the block with the error `OrderContextExpected`, with its own place in the block, and changes
  -- nothing, whatever request an earlier transaction has left.
  pub apply_all-reset :
      (at : StateInstant) (event : RawEvent n) (events : List (RawEvent n)) (idx : ℕ)
      (ctx : Option (OrderContext n)) (e : Exchange n)
      → idx < event.tx_index
      → needs_context n event.event ≡ true
      → apply_all n {R = R} at (event ∷ events) (some idx) ctx e
        ≡ some (e, err (order_context_expected event.tx_index event.log_index))
  unfolding apply_all
  apply_all-reset at event events idx ctx e later needs =
      let run =
        ap (λ c. apply_raw_event n {R = R} at event c e) (reset_behind idx event.tx_index ctx later)
        ∙ unasked at event e needs in
      rw (run, apply_all) refl

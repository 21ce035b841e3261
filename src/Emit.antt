-- ===== src/Emit.antt =====
-- src/state/event.rs: the constructors of `StateEvents`, each for the object that it is about, and
-- the context of an order request. Of the context an event carries the request's identifier.
use mathlib.Core.Option
use perpl_dex_sdk.Prelude.{Option, some}
use perpl_dex_sdk.Types.{RequestId}
use perpl_dex_sdk.Numbers.{Numbers}
use perpl_dex_sdk.Order.{Order}
use perpl_dex_sdk.Position.{Position}
use perpl_dex_sdk.Perpetual.{Perpetual}
use perpl_dex_sdk.Account.{Account}
use perpl_dex_sdk.StateEvents.{
  StateEvents, AccountEventType, OrderEventType, OrderErrorType, PerpetualEventType,
  PositionEventType, OrderContext,
}

module _ (n : Numbers) where
  open n use {UD64}

  -- `ctx.as_ref().map(|c| c.request_id)`
  abbrev pub request_of : Option (OrderContext n) → Option RequestId
  request_of = Option.map λ c. c.request_id

  unfoldable pub account_event :
      Option (OrderContext n) → AccountEventType n → Account n → StateEvents n
  account_event ctx type a =
      StateEvents.account (record { account_id = a.id; request_id = request_of ctx; type = type })

  unfoldable pub order_event :
      Option (OrderContext n) → OrderEventType n → Order UD64 → Perpetual n → StateEvents n
  order_event ctx type o p = StateEvents.order (record {
    perpetual_id = p.id;
    account_id = o.account_id;
    request_id = request_of ctx;
    order_id = some o.order_id;
    type = type;
  })

  unfoldable pub affected_order_error :
      OrderContext n → Order UD64 → OrderErrorType n → StateEvents n
  affected_order_error ctx o type = StateEvents.error (record {
    perpetual_id = ctx.perpetual_id;
    account_id = o.account_id;
    request_id = ctx.request_id;
    order_id = some o.order_id;
    type = type;
  })

  unfoldable pub perpetual_event : PerpetualEventType n → Perpetual n → StateEvents n
  perpetual_event type p = StateEvents.perpetual (record { perpetual_id = p.id; type = type })

  unfoldable pub position_event :
      Option (OrderContext n) → PositionEventType n → Position n → StateEvents n
  position_event ctx type p = StateEvents.position (record {
    perpetual_id = p.perpetual_id;
    account_id = p.account_id;
    request_id = request_of ctx;
    type = type;
  })

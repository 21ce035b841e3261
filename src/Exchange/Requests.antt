-- ===== src/Exchange/Requests.antt =====
-- src/state/event.rs, src/state/order.rs: what an order request of the contract becomes: the context of
-- the events behind it, and the order that it places.
use perpl_dex_sdk.Prelude.{Option, none, some, ◌>>=◌}
use perpl_dex_sdk.Types.{StateInstant, OrderId, request_type_from, order_type_of_request, nonzero}
use perpl_dex_sdk.Numbers.{Numbers}
use perpl_dex_sdk.Converters.{from_unsigned}
use perpl_dex_sdk.Order.{Order}
use perpl_dex_sdk.Perpetual.{Converter}
use perpl_dex_sdk.StateEvents.{OrderContext}
use perpl_dex_sdk.Exchange.RawEvents.{OrderRequest}

module _ (n : Numbers) where
  open n use {UD64}

  -- `OrderContext::from(&OrderRequest)`
  unfoldable pub context_of : OrderRequest n → Option (OrderContext n)
  context_of r = do
    perpetual_id ← n.to_u32 r.perp_id
    account_id ← n.to_u32 r.account_id
    request_id ← n.to_u64 r.order_desc_id
    order_id ← n.to_u16 r.order_id
    type ← request_type_from r.order_type
    expiry_block ← n.to_u64 r.expiry_block
    some (record {
      perpetual_id = perpetual_id;
      account_id = account_id;
      request_id = request_id;
      order_id = nonzero order_id;
      type = type;
      price = r.price_pns;
      expiry_block = expiry_block;
      leverage = r.leverage_hdths;
      post_only = r.post_only;
      fill_or_kill = r.fill_or_kill;
      immediate_or_cancel = r.immediate_or_cancel;
    })

  -- `Order::placed`
  unfoldable pub placed :
      StateInstant → OrderContext n → OrderId → UD64 → Converter → Converter → Option (Order UD64)
  placed instant ctx order_id size price_converter leverage_converter = do
    type ← order_type_of_request ctx.type
    price ← from_unsigned n price_converter ctx.price
    leverage ← from_unsigned n leverage_converter ctx.leverage
    some (record {
      instant = instant;
      request_id = some ctx.request_id;
      order_id = order_id;
      type = type;
      account_id = ctx.account_id;
      price = price;
      size = size;
      expiry_block = ctx.expiry_block;
      leverage = leverage;
      post_only = some ctx.post_only;
      fill_or_kill = some ctx.fill_or_kill;
      immediate_or_cancel = some ctx.immediate_or_cancel;
      prev_order_id = none;
      next_order_id = none;
    })

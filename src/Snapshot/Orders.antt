-- ===== src/Snapshot/Orders.antt =====
-- src/state/order.rs: `Order::new`, from the contract's struct `Order`.
use perpl_dex_sdk.Prelude.{ℕ, Option, none, some, Result, ok, err, ◌>>=◌}
use perpl_dex_sdk.Types.{StateInstant, order_type_from, nonzero}
use perpl_dex_sdk.Numbers.{Numbers}
use perpl_dex_sdk.Converters.{from_unsigned, from_u64}
use perpl_dex_sdk.DexError.{OrderParseError, zero_order_id}
use perpl_dex_sdk.Order.{Order}
use perpl_dex_sdk.Perpetual.{Converter}

-- The struct `Order` of abi/dex/Exchange.json, whose integers have 40 bits at most.
pub record OrderInfo : Type 0 where
  pub account_id : ℕ
  pub order_type : ℕ
  pub price_ons : ℕ
  pub lot_lns : ℕ
  pub expiry_block : ℕ
  pub leverage_hdths : ℕ
  pub order_id : ℕ
  pub prev_order_id : ℕ
  pub next_order_id : ℕ

module _ (n : Numbers) where
  open n use {UD64}

  -- `Order::new`; `none` is a panic of a converter or on an unknown type.
  unfoldable pub order :
      StateInstant
      → OrderInfo
      → UD64
      → Converter
      → Converter
      → Converter
      → Option (Result OrderParseError (Order UD64))
  unfolding order_type_from from_unsigned from_u64
  order instant info base_price price_converter size_converter leverage_converter =
      elim (nonzero info.order_id) [
        | none ↦ some (err zero_order_id)
        | some order_id ↦ do
          type ← order_type_from info.order_type
          price ← from_unsigned n price_converter (n.of_u64 info.price_ons)
          size ← from_unsigned n size_converter (n.of_u64 info.lot_lns)
          some (
              ok (record {
                instant = instant;
                request_id = none;
                order_id = order_id;
                type = type;
                account_id = info.account_id;
                price = n.ud64.add base_price price;
                size = size;
                expiry_block = info.expiry_block;
                leverage = from_u64 n leverage_converter info.leverage_hdths;
                post_only = none;
                fill_or_kill = none;
                immediate_or_cancel = none;
                prev_order_id = nonzero info.prev_order_id;
                next_order_id = nonzero info.next_order_id;
              }))
      ]

-- ===== src/Exchange/OnOrders.antt =====
-- src/state/exchange.rs: the handlers of the events of orders.
use mathlib.Core.Option
use perpl_dex_sdk.Prelude.{
  Bool, true, false, Option, none, some, List, [], ◌∷◌, ◌++◌, if◌then◌else◌, unwrap_or, ◌==◌,
}
use perpl_dex_sdk.Numbers.{Numbers}
use perpl_dex_sdk.Converters.{from_unsigned}
use perpl_dex_sdk.Order.{Order, updated}
use perpl_dex_sdk.OrderBook.{get_order_data}
use perpl_dex_sdk.DexError.{order_not_found}
use perpl_dex_sdk.Perpetual.{Perpetual, update_last_price}
use perpl_dex_sdk.Perpetual.Orders.{add_order, update_order, remove_order}
use perpl_dex_sdk.StateEvents.{
  StateEvents, OrderEventType, OrderErrorType, removed, filled, last_price_updated,
}
use perpl_dex_sdk.Emit.{request_of, order_event, affected_order_error, perpetual_event}
use perpl_dex_sdk.Exchange.{Exchange}
use perpl_dex_sdk.Exchange.RawEvents.{
  OrderClearing, MakerOrderFilled, TakerOrderFilled, OrderChanged, OrderPlaced, OrderCancelledBy,
}
use perpl_dex_sdk.Exchange.Handler.{
  ◌>>=◌, ◌>>◌, pure, gets, modify, convert, or_error, call, call_expect, collected,
}
use perpl_dex_sdk.Exchange.Lookup.{
  Env, On, must_ctx, err_ctx, perpetual, account_at, perpetual_at, order, order_id_of,
}
use perpl_dex_sdk.Exchange.OnAccounts.{rebalance, relock, settle, on_account}
use perpl_dex_sdk.Exchange.OnContracts.{on_contract}
use perpl_dex_sdk.Exchange.Requests.{placed}

-- `if old != new { Some(new) } else { None }`
abbrev pub change {ℓ} : {A : Type ℓ} → Bool → A → Option A
change same new = if same then none else some new

module _ (n : Numbers) {R : Type 0} (env : Env n) where
  open n use {UD64, U256}

  -- An order that leaves the book, with its event.
  unfoldable pub take_order : U256 → On n R (Perpetual n) (Order UD64 × StateEvents n)
  unfolding order_id_of
  take_order order_id = do
    id ← order_id_of n order_id
    o ← call (remove_order n id)
    event ← gets (order_event n env.ctx removed o)
    pure (o, event)

  -- `ClearingExpiredOrder`, `ClearingFrozenAccountOrder`, `ClearingInvalidCloseOrder` and
  -- `ClearingSelfMatchingOrder`.
  unfoldable pub order_cleared : OrderClearing n → On n R (Exchange n) (List (StateEvents n))
  unfolding on_contract take_order on_account relock rebalance
  order_cleared c = do
    taken ← on_contract n env c.perp_id do o ← take_order c.order_id; pure o.1
    locked ← on_account n env c.account_id (relock n env c.locked_balance_cns)
    recycled ← on_account n env c.recycler_account_id (rebalance n env c.recycler_balance_cns)
    pure (taken ++ locked ++ recycled)

  -- The events of an order that was to be settled: those of the order, and the error of the request.
  unfoldable pub settlement_failed :
      Option (Order UD64 × StateEvents n) → On n R (Exchange n) (List (StateEvents n))
  unfolding err_ctx
  settlement_failed none = pure []
  settlement_failed (some (o, event)) = do
    ctx ← err_ctx n env
    pure (
        event
        ∷ collected (
            Option.map
              (λ c. affected_order_error n c o OrderErrorType.maker_order_settlement_failed) ctx))

  unfoldable pub maker_settlement_failed :
      OrderClearing n → On n R (Exchange n) (List (StateEvents n))
  unfolding perpetual take_order settlement_failed on_account relock rebalance
  maker_settlement_failed c = do
    taken ← perpetual n c.perp_id (take_order c.order_id)
    errors ← settlement_failed taken
    locked ← on_account n env c.account_id (relock n env c.locked_balance_cns)
    recycled ← on_account n env c.recycler_account_id (rebalance n env c.recycler_balance_cns)
    pure (errors ++ locked ++ recycled)

  -- What a fill of `fill_size` leaves of a maker's order.
  unfoldable pub fill_maker : Order UD64 → UD64 → On n R (Perpetual n) (StateEvents n)
  fill_maker o fill_size =
      if n.ud64.lt fill_size o.size
      then (do
        let new_size = n.ud64.sub o.size fill_size
        call_expect (
            update_order n (updated env.instant (request_of n env.ctx) none (some new_size) none o))
        gets (order_event n env.ctx (OrderEventType.updated none (some new_size) none) o))
      else (do call_expect (remove_order n o.order_id); gets (order_event n env.ctx removed o))

  unfoldable pub maker_order_filled :
      MakerOrderFilled n → On n R (Exchange n) (List (StateEvents n))
  unfolding order fill_maker on_account relock rebalance
  maker_order_filled f = do
    fills ← order n f.perp_id f.order_id λ o. do
      p ← gets (λ p. p)
      fill_price ← convert (from_unsigned n p.price_converter f.price_pns)
      fill_size ← convert (from_unsigned n p.size_converter f.lot_lns)
      fee ← convert (from_unsigned n env.cc f.fee_cns)
      modify (update_last_price n env.instant fill_price)
      change ← fill_maker o fill_size
      fill ← gets (order_event n env.ctx (filled fill_price fill_size fee true) o)
      last ← gets (λ p. perpetual_event n (last_price_updated p.last_price) p)
      pure (change ∷ fill ∷ last ∷ [])
    locked ← on_account n env f.account_id (relock n env f.locked_balance_cns)
    balance ← on_account n env f.account_id (rebalance n env f.balance_cns)
    pure (unwrap_or fills [] ++ locked ++ balance)

  unfoldable pub taker_order_filled :
      TakerOrderFilled n → On n R (Exchange n) (List (StateEvents n))
  unfolding must_ctx perpetual_at account_at rebalance
  taker_order_filled f = do
    c ← must_ctx n env
    fill ← perpetual_at n c.perpetual_id do
      p ← gets (λ p. p)
      fill_price ← convert (from_unsigned n p.price_converter f.price_pns)
      fill_size ← convert (from_unsigned n p.size_converter f.lot_lns)
      fee ← convert (from_unsigned n env.cc f.fee_cns)
      pure (
          StateEvents.order (record {
            perpetual_id = p.id;
            account_id = c.account_id;
            request_id = some c.request_id;
            order_id = none;
            type = filled fill_price fill_size fee false;
          }))
    balance ← account_at n c.account_id (rebalance n env f.balance_cns)
    pure (collected fill ++ collected balance)

  unfoldable pub order_placed : OrderPlaced n → On n R (Exchange n) (List (StateEvents n))
  unfolding must_ctx order_id_of perpetual_at account_at settle
  order_placed e = do
    c ← must_ctx n env
    id ← order_id_of n e.order_id
    event ← perpetual_at n c.perpetual_id do
      p ← gets (λ p. p)
      size ← convert (from_unsigned n p.size_converter e.lot_lns)
      o ← convert (placed n env.instant c id size p.price_converter p.leverage_converter)
      call (add_order n o)
      gets (
          order_event n env.ctx
            (OrderEventType.placed o.type o.price o.size o.expiry_block o.leverage
              (unwrap_or o.post_only false) (unwrap_or o.fill_or_kill false)
              (unwrap_or o.immediate_or_cancel false))
            o)
    settled ← account_at n c.account_id (settle n env e.locked_balance_cns e.balance_cns)
    pure (collected event ++ unwrap_or settled [])

  unfoldable pub order_cancelled : U256 → U256 → On n R (Exchange n) (List (StateEvents n))
  unfolding must_ctx perpetual_at account_at settle
  order_cancelled locked_balance_cns balance_cns = do
    c ← must_ctx n env
    id ← convert c.order_id
    event ←
        perpetual_at n c.perpetual_id
          do o ← call (remove_order n id); gets (order_event n env.ctx removed o)
    settled ← account_at n c.account_id (settle n env locked_balance_cns balance_cns)
    pure (collected event ++ unwrap_or settled [])

  -- `OrderCancelledByAdmin` and `OrderCancelledByLiquidator`.
  unfoldable pub order_cancelled_by :
      OrderCancelledBy n → On n R (Exchange n) (List (StateEvents n))
  unfolding order on_account relock
  order_cancelled_by e = do
    event ←
        order n e.perp_id e.order_id
          λ o. do call_expect (remove_order n o.order_id); gets (order_event n env.ctx removed o)
    locked ← on_account n env e.account_id (relock n env e.locked_balance_cns)
    pure (collected event ++ locked)

  unfoldable pub order_changed : OrderChanged n → On n R (Exchange n) (List (StateEvents n))
  unfolding must_ctx perpetual_at account_at settle
  order_changed e = do
    c ← must_ctx n env
    id ← convert c.order_id
    event ← perpetual_at n c.perpetual_id do
      p ← gets (λ p. p)
      o ← or_error (get_order_data ⦃d = n.ud64⦄ id p.l3_book) (order_not_found p.id id)
      new_price ← convert (from_unsigned n p.price_converter e.price_pns)
      new_size ← convert (from_unsigned n p.size_converter e.lot_lns)
      new_expiry_block ← convert (n.to_u64 e.expiry_block)
      let price_update = change (n.ud64.eq o.price new_price) new_price
      let size_update = change (n.ud64.eq o.size new_size) new_size
      let expiry_block_update = change (o.expiry_block == new_expiry_block) new_expiry_block
      call (
          update_order n (
            updated env.instant (request_of n env.ctx) price_update size_update expiry_block_update
              o))
      gets (
          order_event n env.ctx
            (OrderEventType.updated price_update size_update expiry_block_update) o)
    settled ← account_at n c.account_id (settle n env e.locked_balance_cns e.balance_cns)
    pure (collected event ++ unwrap_or settled [])

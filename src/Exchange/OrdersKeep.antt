-- ===== src/Exchange/OrdersKeep.antt =====
-- The handlers of src/state/exchange.rs for orders keep the state valid.
use perpl_dex_sdk.Prelude.{Option, some, none, List}
use perpl_dex_sdk.Types.{PerpetualId, OrderId, StateInstant}
use perpl_dex_sdk.Numbers.{Numbers}
use perpl_dex_sdk.DexError.{DexError}
use perpl_dex_sdk.Order.{Order}
use perpl_dex_sdk.Perpetual.{Perpetual, update_last_price}
use perpl_dex_sdk.Perpetual.Orders.{add_order, update_order, remove_order}
use perpl_dex_sdk.Perpetual.Books.{add_order-Reached, update_order-Reached, remove_order-Reached}
use perpl_dex_sdk.StateEvents.{StateEvents}
use perpl_dex_sdk.Exchange.RawEvents.{
  OrderClearing, MakerOrderFilled, TakerOrderFilled, OrderChanged, OrderPlaced, OrderCancelledBy,
}
use perpl_dex_sdk.Exchange.Handler.{call, call_expect, modify}
use perpl_dex_sdk.Exchange.Lookup.{Env}
use perpl_dex_sdk.Exchange.OnAccounts.{on_account, relock, rebalance}
use perpl_dex_sdk.Exchange.OnOrders.{
  take_order, order_cleared, settlement_failed, maker_settlement_failed, fill_maker,
  maker_order_filled, taker_order_filled, order_placed, order_cancelled, order_cancelled_by,
  order_changed,
}
use perpl_dex_sdk.Exchange.Keeps.{
  Keeps, Keeps-bind, Keeps-call, Keeps-call_expect, Keeps-pure, Keeps-convert, keeps_rules,
}
use perpl_dex_sdk.Exchange.Valid.{Frame, IsContract, Tracks}
use perpl_dex_sdk.Exchange.LookupKeeps.{
  perpetual-Keeps, perpetual_at-Keeps, account_at-Keeps, order-Keeps, order_id_of-Keeps,
  must_ctx-Keeps, err_ctx-Keeps,
}
use perpl_dex_sdk.Exchange.AccountsKeep.{
  on_account-Keeps, relock-Keeps, rebalance-Keeps, settle-Keeps,
}
use perpl_dex_sdk.Exchange.ContractsKeep.{on_contract-Keeps, method-Keeps}

module _ (n : Numbers) (R : Type 0) (id : PerpetualId) where
  add_order-IsContract :
      (o : Order n.UD64) (p : Perpetual n)
      → IsContract n id p
      → IsContract n id (add_order n {R = R} o p).0
  unfolding add_order
  add_order-IsContract o p c = record {
    id_is = c.id_is;
    book_is = add_order-Reached n R o p c.book_is;
    funding_is = record { rate_is = c.funding_is.rate_is; payment_is = c.funding_is.payment_is };
  }

  update_order-IsContract :
      (o : Order n.UD64) (p : Perpetual n)
      → IsContract n id p
      → IsContract n id (update_order n {R = R} o p).0
  unfolding update_order
  update_order-IsContract o p c = record {
    id_is = c.id_is;
    book_is = update_order-Reached n R o p c.book_is;
    funding_is = record { rate_is = c.funding_is.rate_is; payment_is = c.funding_is.payment_is };
  }

  remove_order-IsContract :
      (order_id : OrderId) (p : Perpetual n)
      → IsContract n id p
      → IsContract n id (remove_order n {R = R} order_id p).0
  unfolding remove_order
  remove_order-IsContract order_id p c = record {
    id_is = c.id_is;
    book_is = remove_order-Reached n R order_id p c.book_is;
    funding_is = record { rate_is = c.funding_is.rate_is; payment_is = c.funding_is.payment_is };
  }

  add-Keeps : (o : Order n.UD64) → Keeps (IsContract n id) (call (add_order n {R = R} o))
  add-Keeps o = Keeps-call _ (add_order-IsContract o)

  update-Keeps : (o : Order n.UD64) → Keeps (IsContract n id) (call (update_order n {R = R} o))
  update-Keeps o = Keeps-call _ (update_order-IsContract o)

  update_expect-Keeps :
      (o : Order n.UD64) → Keeps (IsContract n id) (call_expect (update_order n {R = R} o))
  update_expect-Keeps o = Keeps-call_expect _ (update_order-IsContract o)

  remove-Keeps :
      (order_id : OrderId) → Keeps (IsContract n id) (call (remove_order n {R = R} order_id))
  remove-Keeps order_id = Keeps-call _ (remove_order-IsContract order_id)

  remove_expect-Keeps :
      (order_id : OrderId) → Keeps (IsContract n id) (call_expect (remove_order n {R = R} order_id))
  remove_expect-Keeps order_id = Keeps-call_expect _ (remove_order-IsContract order_id)

  last_price-Keeps :
      (at : StateInstant) (v : n.UD64)
      → Keeps {E = DexError n.UD64 R} (IsContract n id) (modify (update_last_price n at v))
  unfolding update_last_price
  last_price-Keeps at v = method-Keeps n id at _ search

ruleset book_rules = (
  keeps_rules, add-Keeps, update-Keeps, update_expect-Keeps, remove-Keeps, remove_expect-Keeps,
  last_price-Keeps,
)

module _ (n : Numbers) {R : Type 0} (tracked : List PerpetualId) (frame : Frame) (env : Env n) where
  open n use {U256}

  take_order-Keeps :
      (id : PerpetualId) (order_id : U256)
      → Keeps (IsContract n id) (take_order n {R = R} env order_id)
  unfolding take_order
  take_order-Keeps id order_id =
      Keeps-bind (order_id_of-Keeps n tracked frame (IsContract n id) order_id)
        (search book_rules depth 8)

  locked-Keeps :
      (id b : U256) → Keeps (Tracks n tracked frame) (on_account n env id (relock n {R = R} env b))
  locked-Keeps id b =
      on_account-Keeps n tracked frame env id _
        λ account. relock-Keeps n tracked frame env account b

  pub balanced-Keeps :
      (id b : U256)
      → Keeps (Tracks n tracked frame) (on_account n env id (rebalance n {R = R} env b))
  balanced-Keeps id b =
      on_account-Keeps n tracked frame env id _
        λ account. rebalance-Keeps n tracked frame env account b

  pub order_cleared-Keeps :
      (c : OrderClearing n) → Keeps (Tracks n tracked frame) (order_cleared n {R = R} env c)
  unfolding order_cleared
  order_cleared-Keeps c =
      Keeps-bind
        (on_contract-Keeps n tracked frame env c.perp_id _
          λ id. Keeps-bind (take_order-Keeps id c.order_id) (search keeps_rules))
        λ taken. Keeps-bind (locked-Keeps c.account_id c.locked_balance_cns) λ locked.
          Keeps-bind (balanced-Keeps c.recycler_account_id c.recycler_balance_cns)
            (search keeps_rules)

  settlement_failed-Keeps :
      (taken : Option (Order n.UD64 × StateEvents n))
      → Keeps (Tracks n tracked frame) (settlement_failed n {R = R} env taken)
  unfolding settlement_failed
  settlement_failed-Keeps none = Keeps-pure _
  settlement_failed-Keeps (some (o, event)) =
      Keeps-bind (err_ctx-Keeps n tracked frame env) (search keeps_rules)

  pub maker_settlement_failed-Keeps :
      (c : OrderClearing n)
      → Keeps (Tracks n tracked frame) (maker_settlement_failed n {R = R} env c)
  unfolding maker_settlement_failed
  maker_settlement_failed-Keeps c =
      Keeps-bind (perpetual-Keeps n tracked frame c.perp_id _ λ id. take_order-Keeps id c.order_id)
        λ taken. Keeps-bind (settlement_failed-Keeps taken) λ errors.
          Keeps-bind (locked-Keeps c.account_id c.locked_balance_cns) λ locked.
            Keeps-bind (balanced-Keeps c.recycler_account_id c.recycler_balance_cns)
              (search keeps_rules)

  fill_maker-Keeps :
      (id : PerpetualId) (o : Order n.UD64) (size : n.UD64)
      → Keeps (IsContract n id) (fill_maker n {R = R} env o size)
  unfolding fill_maker
  fill_maker-Keeps id o size = search book_rules depth 8

  pub maker_order_filled-Keeps :
      (f : MakerOrderFilled n) → Keeps (Tracks n tracked frame) (maker_order_filled n {R = R} env f)
  unfolding maker_order_filled
  maker_order_filled-Keeps f =
      Keeps-bind
        (order-Keeps n tracked frame f.perp_id f.order_id _
          λ o id. search (book_rules, fill_maker-Keeps) depth 20 fits 3000)
        λ fills.
          Keeps-bind (locked-Keeps f.account_id f.locked_balance_cns)
            λ locked. Keeps-bind (balanced-Keeps f.account_id f.balance_cns) (search keeps_rules)

  pub taker_order_filled-Keeps :
      (f : TakerOrderFilled n) → Keeps (Tracks n tracked frame) (taker_order_filled n {R = R} env f)
  unfolding taker_order_filled
  taker_order_filled-Keeps f = Keeps-bind (must_ctx-Keeps n tracked frame env) λ c.
      Keeps-bind (perpetual_at-Keeps n tracked frame c.perpetual_id _ (search keeps_rules depth 12))
        λ fill.
          Keeps-bind
            (account_at-Keeps n tracked frame c.account_id _
              (rebalance-Keeps n tracked frame env c.account_id f.balance_cns))
            (search keeps_rules)

  pub order_placed-Keeps :
      (e : OrderPlaced n) → Keeps (Tracks n tracked frame) (order_placed n {R = R} env e)
  unfolding order_placed
  order_placed-Keeps e = Keeps-bind (must_ctx-Keeps n tracked frame env) λ c.
      Keeps-bind (order_id_of-Keeps n tracked frame (Tracks n tracked frame) e.order_id) λ id.
        Keeps-bind
          (perpetual_at-Keeps n tracked frame c.perpetual_id _ (search book_rules depth 12))
          λ event.
            Keeps-bind
              (account_at-Keeps n tracked frame c.account_id _
                (settle-Keeps n tracked frame env c.account_id e.locked_balance_cns e.balance_cns))
              (search keeps_rules)

  pub order_cancelled-Keeps :
      (l b : U256) → Keeps (Tracks n tracked frame) (order_cancelled n {R = R} env l b)
  unfolding order_cancelled
  order_cancelled-Keeps l b = Keeps-bind (must_ctx-Keeps n tracked frame env) λ c.
      Keeps-bind (Keeps-convert _) λ id.
        Keeps-bind
          (perpetual_at-Keeps n tracked frame c.perpetual_id _ (search book_rules depth 12))
          λ event.
            Keeps-bind
              (account_at-Keeps n tracked frame c.account_id _
                (settle-Keeps n tracked frame env c.account_id l b))
              (search keeps_rules)

  pub order_cancelled_by-Keeps :
      (e : OrderCancelledBy n) → Keeps (Tracks n tracked frame) (order_cancelled_by n {R = R} env e)
  unfolding order_cancelled_by
  order_cancelled_by-Keeps e =
      Keeps-bind
        (order-Keeps n tracked frame e.perp_id e.order_id _ λ o id. search book_rules depth 8)
        λ event. Keeps-bind (locked-Keeps e.account_id e.locked_balance_cns) (search keeps_rules)

  pub order_changed-Keeps :
      (e : OrderChanged n) → Keeps (Tracks n tracked frame) (order_changed n {R = R} env e)
  unfolding order_changed
  order_changed-Keeps e = Keeps-bind (must_ctx-Keeps n tracked frame env) λ c.
      Keeps-bind (Keeps-convert _) λ id.
        Keeps-bind
          (perpetual_at-Keeps n tracked frame c.perpetual_id _
            (search book_rules depth 20 fits 3000))
          λ event.
            Keeps-bind
              (account_at-Keeps n tracked frame c.account_id _
                (settle-Keeps n tracked frame env c.account_id e.locked_balance_cns e.balance_cns))
              (search keeps_rules)

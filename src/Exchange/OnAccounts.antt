-- ===== src/Exchange/OnAccounts.antt =====
-- src/state/exchange.rs: the handlers of the events of accounts and of the exchange itself, and of the
-- errors of order requests.
use mathlib.Core.Option
use perpl_dex_sdk.Prelude.{ℕ, Bool, none, some, List, [], ◌∷◌, ltb, if◌then◌else◌}
use perpl_dex_sdk.Numbers.{Numbers}
use perpl_dex_sdk.Table
use perpl_dex_sdk.BookKeys.{by_id}
use perpl_dex_sdk.Converters.{from_unsigned128}
use perpl_dex_sdk.Account.{
  Account, from_event, update_frozen, update_balance, update_locked_balance,
}
use perpl_dex_sdk.StateEvents.{
  StateEvents, OrderErrorType, amount_exceeds_available_balance, order_post_failed, created, frozen,
  balance_updated, locked_balance_updated, halted, min_post_updated, min_settle_updated,
  recycle_fee_updated, order_error,
}
use perpl_dex_sdk.Emit.{account_event}
use perpl_dex_sdk.Exchange.{Exchange}
use perpl_dex_sdk.Exchange.Handler.{◌>>=◌, ◌>>◌, pure, gets, modify, convert, collected, forgiven}
use perpl_dex_sdk.Exchange.Lookup.{Env, On, account, err_ctx}

module _ (n : Numbers) {R : Type 0} (env : Env n) where
  open n use {U256, Address}

  -- `acc.update_balance(..)`, with its event.
  unfoldable pub rebalance : U256 → On n R (Account n) (StateEvents n)
  rebalance balance_cns = do
    balance ← convert (from_unsigned128 n env.cc balance_cns)
    modify (update_balance n env.instant balance)
    gets (λ a. account_event n env.ctx (balance_updated a.balance) a)

  -- `acc.update_locked_balance(..)`, with its event.
  unfoldable pub relock : U256 → On n R (Account n) (StateEvents n)
  relock locked_balance_cns = do
    locked_balance ← convert (from_unsigned128 n env.cc locked_balance_cns)
    modify (update_locked_balance n env.instant locked_balance)
    gets (λ a. account_event n env.ctx (locked_balance_updated a.locked_balance) a)

  -- Both, for the account of an order's request.
  unfoldable pub settle : U256 → U256 → On n R (Account n) (List (StateEvents n))
  settle locked_balance_cns balance_cns = do
    locked_balance ← convert (from_unsigned128 n env.cc locked_balance_cns)
    modify (update_locked_balance n env.instant locked_balance)
    balance ← convert (from_unsigned128 n env.cc balance_cns)
    modify (update_balance n env.instant balance)
    gets (λ a.
        account_event n env.ctx (locked_balance_updated a.locked_balance) a
        ∷ account_event n env.ctx (balance_updated a.balance) a
        ∷ [])

  -- `self.account(id).map(f).into_iter().collect()`
  unfoldable pub on_account :
      U256 → On n R (Account n) (StateEvents n) → On n R (Exchange n) (List (StateEvents n))
  unfolding account
  on_account id f = do event ← account n id f; pure (collected event)

  unfoldable pub account_created : Address → U256 → On n R (Exchange n) (List (StateEvents n))
  account_created address id = do
    track_all_accounts ← gets (λ e. e.track_all_accounts)
    if track_all_accounts
        then (do
          account_id ← convert (n.to_u32 id)
          modify (λ e. record e {
            accounts =
                Table.insert by_id account_id (from_event n env.instant account_id address)
                  e.accounts;
          })
          pure (
              StateEvents.account
                (record { account_id = account_id; request_id = none; type = created account_id })
              ∷ []))
        else pure []

  unfoldable pub account_freeze : U256 → ℕ → On n R (Exchange n) (List (StateEvents n))
  unfolding on_account
  account_freeze account_id status = on_account account_id do
    modify (update_frozen n env.instant (ltb 0 status))
    gets (λ a. account_event n env.ctx (frozen a.frozen) a)

  unfoldable pub account_liquidation_credit :
      U256 → U256 → On n R (Exchange n) (List (StateEvents n))
  unfolding on_account rebalance
  account_liquidation_credit account_id end_balance_cns =
      on_account account_id (rebalance end_balance_cns)

  -- `CollateralDeposit` and `CollateralWithdrawal`.
  unfoldable pub collateral_moved : U256 → U256 → On n R (Exchange n) (List (StateEvents n))
  unfolding on_account rebalance
  collateral_moved account_id balance_cns = on_account account_id (rebalance balance_cns)

  -- `TransferAccountToProtocol` and `TransferProtocolToAccount`.
  unfoldable pub transferred : U256 → U256 → On n R (Exchange n) (List (StateEvents n))
  unfolding on_account rebalance
  transferred account_id balance_cns = on_account account_id (rebalance balance_cns)

  -- `self.err_ctx(ctx, event)?.map(|ctx| StateEvents::order_error(ctx, type))`
  unfoldable pub failed : OrderErrorType n → On n R (Exchange n) (List (StateEvents n))
  unfolding err_ctx
  failed type = do
    ctx ← err_ctx n env
    pure (collected (Option.map (λ c. order_error n c type) ctx))

  unfoldable pub amount_exceeds : U256 → U256 → On n R (Exchange n) (List (StateEvents n))
  unfolding err_ctx
  amount_exceeds amount_cns available_balance_cns = do
    ctx ← err_ctx n env
    elim ctx [
      | none ↦ pure []
      | some c ↦ do
        amount ← convert (from_unsigned128 n env.cc amount_cns)
        available_balance ← convert (from_unsigned128 n env.cc available_balance_cns)
        pure (order_error n c (amount_exceeds_available_balance amount available_balance) ∷ [])
    ]

  unfoldable pub post_failed : U256 → On n R (Exchange n) (List (StateEvents n))
  unfolding err_ctx
  post_failed reason = do
    ctx ← err_ctx n env
    elim ctx [
      | none ↦ pure []
      | some c ↦ do
        code ← convert (n.to_u16 reason)
        pure (order_error n c (order_post_failed code) ∷ [])
    ]

  -- `PriceOutOfRange`, which is used for mark and oracle prices too.
  unfoldable pub price_failed : On n R (Exchange n) (List (StateEvents n))
  unfolding err_ctx
  price_failed = do
    ctx ← λ e. forgiven (err_ctx n env e)
    pure (collected (Option.map (λ c. order_error n c OrderErrorType.price_out_of_range) ctx))

  unfoldable pub exchange_halted : Bool → On n R (Exchange n) (List (StateEvents n))
  exchange_halted status = do
    modify (λ e. record e { is_halted = status })
    gets (λ e. StateEvents.exchange (halted e.is_halted) ∷ [])

  unfoldable pub min_post_changed : U256 → On n R (Exchange n) (List (StateEvents n))
  min_post_changed min_post_cns = do
    min_post ← convert (from_unsigned128 n env.cc min_post_cns)
    modify (λ e. record e { min_post = min_post })
    gets (λ e. StateEvents.exchange (min_post_updated e.min_post) ∷ [])

  unfoldable pub min_settle_changed : U256 → On n R (Exchange n) (List (StateEvents n))
  min_settle_changed min_settle_cns = do
    min_settle ← convert (from_unsigned128 n env.cc min_settle_cns)
    modify (λ e. record e { min_settle = min_settle })
    gets (λ e. StateEvents.exchange (min_settle_updated e.min_settle) ∷ [])

  unfoldable pub recycle_fee_changed : U256 → On n R (Exchange n) (List (StateEvents n))
  recycle_fee_changed recycle_fee_cns = do
    recycle_fee ← convert (from_unsigned128 n env.cc recycle_fee_cns)
    modify (λ e. record e { recycle_fee = recycle_fee })
    gets (λ e. StateEvents.exchange (recycle_fee_updated e.recycle_fee) ∷ [])

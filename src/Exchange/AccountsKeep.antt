-- ===== src/Exchange/AccountsKeep.antt =====
-- The handlers of src/state/exchange.rs for accounts and for the exchange keep the state valid.
use perpl_dex_sdk.Prelude.{ℕ, ◌≡◌, ◌⊎◌, sym, ◌∙◌, true, subst, Bool, List, refl}
use perpl_dex_sdk.Types.{PerpetualId, AccountId, StateInstant}
use perpl_dex_sdk.Numbers.{Numbers}
use perpl_dex_sdk.Table.Each.{Each, keys}
use perpl_dex_sdk.Account.{Account, update_frozen, update_balance, update_locked_balance}
use perpl_dex_sdk.StateEvents.{StateEvents, OrderErrorType}
use perpl_dex_sdk.Exchange.{Exchange}
use perpl_dex_sdk.Exchange.Handler.{modify}
use perpl_dex_sdk.Exchange.Lookup.{Env, On, err_ctx}
use perpl_dex_sdk.Exchange.OnAccounts.{
  rebalance, relock, settle, on_account, account_created, account_freeze,
  account_liquidation_credit, collateral_moved, transferred, failed, amount_exceeds, post_failed,
  price_failed, exchange_halted, min_post_changed, min_settle_changed, recycle_fee_changed,
}
use perpl_dex_sdk.Exchange.Keeps.{
  Keeps, Keeps-modify, Keeps-bind, Keeps-forgiven, Keeps-gets, Keeps-ifs, Keeps-reads,
  Keeps-convert, Keeps-then, Keeps-pure, Keeps-elim, keeps_rules,
}
use perpl_dex_sdk.Exchange.Valid.{Frame, IsContract, IsAccount, Tracks}
use perpl_dex_sdk.Exchange.LookupKeeps.{
  inserted, from_event-IsAccount, account-Keeps, err_ctx-Keeps,
}

module _ (n : Numbers) (tracked : List PerpetualId) (at : StateInstant) {E : Type 0} where
  pub update_balance-Keeps :
      (id : AccountId) (b : n.UD128)
      → Keeps {E = E} (IsAccount n tracked id) (modify (update_balance n at b))
  unfolding update_balance
  update_balance-Keeps id b =
      Keeps-modify _ λ a h. record { id_is = h.id_is; positions_are = h.positions_are }

  update_locked_balance-Keeps :
      (id : AccountId) (b : n.UD128)
      → Keeps {E = E} (IsAccount n tracked id) (modify (update_locked_balance n at b))
  unfolding update_locked_balance
  update_locked_balance-Keeps id b =
      Keeps-modify _ λ a h. record { id_is = h.id_is; positions_are = h.positions_are }

  update_frozen-Keeps :
      (id : AccountId) (b : Bool)
      → Keeps {E = E} (IsAccount n tracked id) (modify (update_frozen n at b))
  unfolding update_frozen
  update_frozen-Keeps id b =
      Keeps-modify _ λ a h. record { id_is = h.id_is; positions_are = h.positions_are }

ruleset account_rules =
    (keeps_rules, update_balance-Keeps, update_locked_balance-Keeps, update_frozen-Keeps)

module _ (n : Numbers) (tracked : List PerpetualId) (frame : Frame) where
  -- A state with the same tables and the same instant.
  same_tables :
      (e e' : Exchange n)
      → e.perpetuals ≡ e'.perpetuals
      → e.accounts ≡ e'.accounts
      → e.instant ≡ e'.instant
      → e.track_all_accounts ≡ e'.track_all_accounts
      → Tracks n tracked frame e
      → Tracks n tracked frame e'
  same_tables e e' p a i l t = record {
    contracts_are = subst (Each (IsContract n)) p t.contracts_are;
    tracked_are = subst (λ m. keys m ≡ tracked) p t.tracked_are;
    accounts_are = subst (Each (IsAccount n tracked)) a t.accounts_are;
    instant_is = sym i ∙ t.instant_is;
    track_all_is = sym l ∙ t.track_all_is;
    listed_are = subst (λ m. (frame.track_all ≡ true) ⊎ (keys m ≡ frame.listed)) a t.listed_are;
  }

module _ (n : Numbers) {R : Type 0} (tracked : List PerpetualId) (frame : Frame) (env : Env n) where
  open n use {U256, Address}

  pub rebalance-Keeps :
      (id : AccountId) (b : U256) → Keeps (IsAccount n tracked id) (rebalance n {R = R} env b)
  unfolding rebalance
  rebalance-Keeps id b = search account_rules

  pub relock-Keeps :
      (id : AccountId) (b : U256) → Keeps (IsAccount n tracked id) (relock n {R = R} env b)
  unfolding relock
  relock-Keeps id b = search account_rules

  pub settle-Keeps :
      (id : AccountId) (l b : U256) → Keeps (IsAccount n tracked id) (settle n {R = R} env l b)
  unfolding settle
  settle-Keeps id l b = search account_rules depth 12

  pub on_account-Keeps :
      (id : U256) (f : On n R (Account n) (StateEvents n))
      → ((account : AccountId) → Keeps (IsAccount n tracked account) f)
      → Keeps (Tracks n tracked frame) (on_account n env id f)
  unfolding on_account
  on_account-Keeps id f k = Keeps-bind (account-Keeps n tracked frame id f k) (search keeps_rules)

  pub account_created-Keeps :
      (address : Address) (id : U256)
      → Keeps (Tracks n tracked frame) (account_created n {R = R} env address id)
  unfolding account_created
  account_created-Keeps address id =
      Keeps-reads (λ b. b ≡ frame.track_all) (λ e. e.track_all_accounts) (λ e t. t.track_all_is)
        λ all is.
          Keeps-ifs all
            (λ h. Keeps-bind (Keeps-convert _) λ account.
              Keeps-then
                (Keeps-modify _ λ e t.
                  inserted n tracked frame account _ e (t.track_all_is ∙ sym is ∙ h)
                    (from_event-IsAccount n tracked frame env.instant account address) t)
                (Keeps-pure _))
            (λ h. Keeps-pure _)

  pub account_freeze-Keeps :
      (id : U256) (status : ℕ)
      → Keeps (Tracks n tracked frame) (account_freeze n {R = R} env id status)
  unfolding account_freeze
  account_freeze-Keeps id status = on_account-Keeps id _ λ account. search account_rules

  pub account_liquidation_credit-Keeps :
      (id b : U256) → Keeps (Tracks n tracked frame) (account_liquidation_credit n {R = R} env id b)
  unfolding account_liquidation_credit
  account_liquidation_credit-Keeps id b = on_account-Keeps id _ λ account. rebalance-Keeps account b

  pub collateral_moved-Keeps :
      (id b : U256) → Keeps (Tracks n tracked frame) (collateral_moved n {R = R} env id b)
  unfolding collateral_moved
  collateral_moved-Keeps id b = on_account-Keeps id _ λ account. rebalance-Keeps account b

  pub transferred-Keeps :
      (id b : U256) → Keeps (Tracks n tracked frame) (transferred n {R = R} env id b)
  unfolding transferred
  transferred-Keeps id b = on_account-Keeps id _ λ account. rebalance-Keeps account b

  error_context : Keeps (Tracks n tracked frame) (err_ctx n {R = R} env)
  error_context = err_ctx-Keeps n tracked frame env

  pub failed-Keeps :
      (type : OrderErrorType n) → Keeps (Tracks n tracked frame) (failed n {R = R} env type)
  unfolding failed
  failed-Keeps type = Keeps-bind error_context (search keeps_rules)

  pub amount_exceeds-Keeps :
      (a b : U256) → Keeps (Tracks n tracked frame) (amount_exceeds n {R = R} env a b)
  unfolding amount_exceeds
  amount_exceeds-Keeps a b =
      Keeps-bind error_context λ ctx. Keeps-elim ctx (search keeps_rules) (search keeps_rules)

  pub post_failed-Keeps :
      (reason : U256) → Keeps (Tracks n tracked frame) (post_failed n {R = R} env reason)
  unfolding post_failed
  post_failed-Keeps reason =
      Keeps-bind error_context λ ctx. Keeps-elim ctx (search keeps_rules) (search keeps_rules)

  pub price_failed-Keeps : Keeps (Tracks n tracked frame) (price_failed n {R = R} env)
  unfolding price_failed
  price_failed-Keeps = Keeps-bind (Keeps-forgiven _ error_context) (search keeps_rules)

  pub exchange_halted-Keeps :
      (status : Bool) → Keeps (Tracks n tracked frame) (exchange_halted n {R = R} env status)
  unfolding exchange_halted
  exchange_halted-Keeps status =
      Keeps-then (Keeps-modify _ λ e t. same_tables n tracked frame e _ refl refl refl refl t)
        (Keeps-gets _)

  pub min_post_changed-Keeps :
      (v : U256) → Keeps (Tracks n tracked frame) (min_post_changed n {R = R} env v)
  unfolding min_post_changed
  min_post_changed-Keeps v = Keeps-bind (Keeps-convert _) λ x.
      Keeps-then (Keeps-modify _ λ e t. same_tables n tracked frame e _ refl refl refl refl t)
        (Keeps-gets _)

  pub min_settle_changed-Keeps :
      (v : U256) → Keeps (Tracks n tracked frame) (min_settle_changed n {R = R} env v)
  unfolding min_settle_changed
  min_settle_changed-Keeps v = Keeps-bind (Keeps-convert _) λ x.
      Keeps-then (Keeps-modify _ λ e t. same_tables n tracked frame e _ refl refl refl refl t)
        (Keeps-gets _)

  pub recycle_fee_changed-Keeps :
      (v : U256) → Keeps (Tracks n tracked frame) (recycle_fee_changed n {R = R} env v)
  unfolding recycle_fee_changed
  recycle_fee_changed-Keeps v = Keeps-bind (Keeps-convert _) λ x.
      Keeps-then (Keeps-modify _ λ e t. same_tables n tracked frame e _ refl refl refl refl t)
        (Keeps-gets _)

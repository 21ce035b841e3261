-- ===== src/Exchange/Lookup.antt =====
-- src/state/exchange.rs: the lookups of the handlers. Each takes the closure that the source runs on the
-- references that it returns.
use perpl_dex_sdk.Prelude.{ℕ, Option, none, some, is_some, if◌then◌else◌, ok, err}
use perpl_dex_sdk.Types.{AccountId, PerpetualId, OrderId, StateInstant, nonzero}
use perpl_dex_sdk.Numbers.{Numbers}
use perpl_dex_sdk.Table
use perpl_dex_sdk.BookKeys.{by_id}
use perpl_dex_sdk.DexError.{DexError, order_context_expected, order_not_found, position_not_found}
use perpl_dex_sdk.Order.{Order}
use perpl_dex_sdk.OrderBook.{get_order_data}
use perpl_dex_sdk.Position.{Position}
use perpl_dex_sdk.Perpetual.{Perpetual, Converter}
use perpl_dex_sdk.Account.{Account}
use perpl_dex_sdk.StateEvents.{OrderContext}
use perpl_dex_sdk.Exchange.{Exchange, ensure_account}
use perpl_dex_sdk.Exchange.Handler.{
  Handler, ◌>>=◌, ◌>>◌, pure, gets, modify, convert, or_error, borrowed,
}

-- What a handler reads beside the state: the arguments of `apply_raw_event`, and `cc`.
pub record Env (n : Numbers) : Type 0 where
  pub instant : StateInstant
  pub cc : Converter
  pub ctx : Option (OrderContext n)
  pub tx_index : ℕ
  pub log_index : ℕ

-- A handler of a part `S` of the state. `R` is the type of the contract's errors.
abbrev pub On : Numbers → Type 0 → Type 0 → Type 0 → Type 0
On n R S A = Handler (DexError n.UD64 R) S A

module _ (n : Numbers) {R : Type 0} where
  open n use {UD64, U256}

  -- `must_ctx`
  unfoldable pub must_ctx : Env n → On n R (Exchange n) (OrderContext n)
  must_ctx env = or_error env.ctx (order_context_expected env.tx_index env.log_index)

  unfoldable pub err_ctx : Env n → On n R (Exchange n) (Option (OrderContext n))
  unfolding must_ctx
  err_ctx env = do
    c ← must_ctx env
    tracked ← gets (λ e. is_some (Table.get by_id c.account_id e.accounts))
    pure (if tracked then some c else none)

  -- `self.accounts.get_mut(&id).map(f)`
  unfoldable pub account_at :
      {A : Type 0} → AccountId → On n R (Account n) A → On n R (Exchange n) (Option A)
  account_at id f e = elim (Table.get by_id id e.accounts) [
    | none ↦ some (e, ok none)
    | some a ↦
        borrowed (λ a'. record e { accounts = Table.modify by_id id (λ _. a') e.accounts }) (f a)
  ]

  -- `self.perpetuals.get_mut(&id).map(f)`
  unfoldable pub perpetual_at :
      {A : Type 0} → PerpetualId → On n R (Perpetual n) A → On n R (Exchange n) (Option A)
  perpetual_at id f e = elim (Table.get by_id id e.perpetuals) [
    | none ↦ some (e, ok none)
    | some p ↦
        borrowed (λ p'. record e { perpetuals = Table.modify by_id id (λ _. p') e.perpetuals })
          (f p)
  ]

  unfoldable pub account :
      {A : Type 0} → U256 → On n R (Account n) A → On n R (Exchange n) (Option A)
  unfolding account_at
  account id f = do
    account_id ← convert (n.to_u32 id)
    modify (ensure_account n account_id)
    account_at account_id f

  unfoldable pub perpetual :
      {A : Type 0} → U256 → On n R (Perpetual n) A → On n R (Exchange n) (Option A)
  unfolding perpetual_at
  perpetual id f = do perpetual_id ← convert (n.to_u32 id); perpetual_at perpetual_id f

  -- `NonZeroU16::new(id.to::<u16>()).expect(..)`
  unfoldable pub order_id_of : {S : Type 0} → U256 → On n R S OrderId
  order_id_of id = do raw ← convert (n.to_u16 id); convert (nonzero raw)

  -- `self.order(..)`, with its `?`.
  unfoldable pub order :
      {A : Type 0}
      → U256
      → U256
      → (Order UD64 → On n R (Perpetual n) A)
      → On n R (Exchange n) (Option A)
  unfolding perpetual order_id_of
  order perp_id ord_id f = do
    id ← order_id_of ord_id
    perpetual perp_id do
      p ← gets (λ p. p)
      o ← or_error (get_order_data ⦃d = n.ud64⦄ id p.l3_book) (order_not_found p.id id)
      f o

  -- The account `id` and the contract `perpetual_id`, where both are there.
  unfoldable pub both_at :
      {A : Type 0}
      → AccountId
      → PerpetualId
      → On n R (Account n × Perpetual n) A
      → On n R (Exchange n) (Option A)
  both_at id perpetual_id f e = elim (Table.get by_id id e.accounts) [
    | none ↦ some (e, ok none)
    | some a ↦ elim (Table.get by_id perpetual_id e.perpetuals) [
      | none ↦ some (e, ok none)
      | some p ↦
          borrowed
            (λ (a', p'). record e {
              accounts = Table.modify by_id id (λ _. a') e.accounts;
              perpetuals = Table.modify by_id perpetual_id (λ _. p') e.perpetuals;
            })
            (f (a, p))
    ]
  ]

  unfoldable pub account_perpetual :
      {A : Type 0}
      → U256
      → U256
      → On n R (Account n × Perpetual n) A
      → On n R (Exchange n) (Option A)
  unfolding both_at
  account_perpetual acc_id perp_id f = do
    id ← convert (n.to_u32 acc_id)
    modify (ensure_account n id)
    perpetual_id ← convert (n.to_u32 perp_id)
    both_at id perpetual_id f

  -- The position of the account `id` in the contract `perpetual_id`, with the contract.
  unfoldable pub position_at :
      {A : Type 0}
      → AccountId
      → PerpetualId
      → On n R (Position n × Perpetual n) A
      → On n R (Exchange n) (Option A)
  position_at id perpetual_id f e = elim (Table.get by_id id e.accounts) [
    | none ↦ some (e, ok none)
    | some a ↦ elim (Table.get by_id perpetual_id a.positions) [
      | none ↦ some (e, err (position_not_found id perpetual_id))
      | some pos ↦ elim (Table.get by_id perpetual_id e.perpetuals) [
        | none ↦ none
        | some p ↦
            borrowed
              (λ (pos', p'). record e {
                accounts =
                    Table.modify by_id id
                      (λ _. record a {
                        positions = Table.modify by_id perpetual_id (λ _. pos') a.positions;
                      })
                      e.accounts;
                perpetuals = Table.modify by_id perpetual_id (λ _. p') e.perpetuals;
              })
              (f (pos, p))
      ]
    ]
  ]

  -- `self.position(..)`, with its `?`.
  unfoldable pub position :
      {A : Type 0}
      → U256
      → U256
      → On n R (Position n × Perpetual n) A
      → On n R (Exchange n) (Option A)
  unfolding position_at
  position acc_id perp_id f = do
    id ← convert (n.to_u32 acc_id)
    modify (ensure_account n id)
    perpetual_id ← convert (n.to_u32 perp_id)
    position_at id perpetual_id f

-- ===== src/Exchange/OnContracts.antt =====
-- src/state/exchange.rs: the handlers of the events that configure a perpetual contract, and of its
-- prices.
use perpl_dex_sdk.Prelude.{Bool, true, not, none, some, List, [], ◌∷◌, ok}
use perpl_dex_sdk.Types.{PerpetualId}
use perpl_dex_sdk.Numbers.{Numbers}
use perpl_dex_sdk.Converters.{from_unsigned, from_signed64, from_i64}
use perpl_dex_sdk.Position.{Position, pnl, apply_mark_price}
use perpl_dex_sdk.Perpetual.{
  Perpetual, update_oracle_feed_id, update_paused, update_funding, update_is_oracle_used,
  update_initial_margin, update_oracle_price, update_maintenance_margin, update_maker_fee,
  update_taker_fee, update_mark_price, update_price_max_age_sec,
}
use perpl_dex_sdk.StateEvents.{
  StateEvents, oracle_configuration_updated, paused, initial_margin_fraction_updated,
  oracle_price_updated, maintenance_margin_fraction_updated, maker_fee_updated, taker_fee_updated,
  mark_price_updated, unrealized_pnl_updated,
}
use perpl_dex_sdk.Emit.{perpetual_event, position_event}
use perpl_dex_sdk.Exchange.{Exchange, on_positions}
use perpl_dex_sdk.Exchange.RawEvents.{FundingEventCompleted}
use perpl_dex_sdk.Exchange.Handler.{◌>>=◌, ◌>>◌, pure, gets, modify, convert, collected}
use perpl_dex_sdk.Exchange.Lookup.{Env, On, perpetual}

module _ (n : Numbers) (env : Env n) where
  -- A position at a new mark price.
  unfoldable pub remarked : n.UD64 → Position n → Position n × List (StateEvents n)
  remarked mark_price p =
      let p' = apply_mark_price n env.instant mark_price p in
      (
        p',
        position_event n none (unrealized_pnl_updated (pnl n p') p'.delta_pnl p'.premium_pnl) p'
            ∷ [],
      )

module _ (n : Numbers) {R : Type 0} (env : Env n) where
  open n use {UD64, U256, B256}

  -- `self.perpetual(id).map(f).into_iter().collect()`
  unfoldable pub on_contract :
      U256 → On n R (Perpetual n) (StateEvents n) → On n R (Exchange n) (List (StateEvents n))
  unfolding perpetual
  on_contract id f = do event ← perpetual n id f; pure (collected event)

  unfoldable pub link_feed_updated : U256 → B256 → On n R (Exchange n) (List (StateEvents n))
  unfolding on_contract
  link_feed_updated perp_id feed_id = on_contract perp_id do
    modify (update_oracle_feed_id n env.instant feed_id)
    gets (λ p. perpetual_event n (oracle_configuration_updated p.is_oracle_used p.oracle_feed_id) p)

  unfoldable pub contract_paused : U256 → Bool → On n R (Exchange n) (List (StateEvents n))
  unfolding on_contract
  contract_paused perp_id status = on_contract perp_id do
    modify (update_paused n env.instant status)
    gets (λ p. perpetual_event n (paused p.is_paused) p)

  unfoldable pub contract_removed : U256 → On n R (Exchange n) (List (StateEvents n))
  unfolding on_contract
  contract_removed perp_id = on_contract perp_id do
    modify (update_paused n env.instant true)
    gets (λ p. perpetual_event n (paused p.is_paused) p)

  unfoldable pub funding_completed :
      FundingEventCompleted n → On n R (Exchange n) (List (StateEvents n))
  unfolding perpetual
  funding_completed f = do
    _ ← perpetual n f.perp_id do
      p ← gets (λ p. p)
      rate ← convert (from_signed64 n p.funding_rate_converter f.actual_rate_pct100k)
      let payment = from_i64 n p.price_converter (n.as_i64 f.funding_payment_pns)
      block_num ← convert (n.to_u64 f.funding_event_block)
      p' ← convert (update_funding n env.instant rate payment block_num p)
      modify (λ _. p')
    pure []

  unfoldable pub ignore_oracle_updated : U256 → Bool → On n R (Exchange n) (List (StateEvents n))
  unfolding on_contract
  ignore_oracle_updated perp_id ign_oracle = on_contract perp_id do
    modify (update_is_oracle_used n env.instant (not ign_oracle))
    gets (λ p. perpetual_event n (oracle_configuration_updated p.is_oracle_used p.oracle_feed_id) p)

  unfoldable pub initial_margin_updated : U256 → U256 → On n R (Exchange n) (List (StateEvents n))
  unfolding on_contract
  initial_margin_updated perp_id init_margin_frac_hdths = on_contract perp_id do
    p ← gets (λ p. p)
    margin ← convert (from_unsigned n p.leverage_converter init_margin_frac_hdths)
    modify (update_initial_margin n env.instant margin)
    gets (λ p. perpetual_event n (initial_margin_fraction_updated p.initial_margin) p)

  unfoldable pub link_price_updated : U256 → U256 → On n R (Exchange n) (List (StateEvents n))
  unfolding on_contract
  link_price_updated perp_id oracle_price_pns = on_contract perp_id do
    p ← gets (λ p. p)
    price ← convert (from_unsigned n p.price_converter oracle_price_pns)
    modify (update_oracle_price n env.instant price)
    gets (λ p. perpetual_event n (oracle_price_updated p.oracle_price) p)

  unfoldable pub maintenance_margin_changed :
      U256 → U256 → On n R (Exchange n) (List (StateEvents n))
  unfolding on_contract
  maintenance_margin_changed perp_id maint_margin_frac_hdths = on_contract perp_id do
    p ← gets (λ p. p)
    margin ← convert (from_unsigned n p.leverage_converter maint_margin_frac_hdths)
    modify (update_maintenance_margin n env.instant margin)
    gets (λ p. perpetual_event n (maintenance_margin_fraction_updated p.maintenance_margin) p)

  unfoldable pub maker_fee_changed : U256 → U256 → On n R (Exchange n) (List (StateEvents n))
  unfolding on_contract
  maker_fee_changed perp_id maker_fee_per_100k = on_contract perp_id do
    p ← gets (λ p. p)
    fee ← convert (from_unsigned n p.fee_converter maker_fee_per_100k)
    modify (update_maker_fee n env.instant fee)
    gets (λ p. perpetual_event n (maker_fee_updated p.maker_fee) p)

  unfoldable pub taker_fee_changed : U256 → U256 → On n R (Exchange n) (List (StateEvents n))
  unfolding on_contract
  taker_fee_changed perp_id taker_fee_per_100k = on_contract perp_id do
    p ← gets (λ p. p)
    fee ← convert (from_unsigned n p.fee_converter taker_fee_per_100k)
    modify (update_taker_fee n env.instant fee)
    gets (λ p. perpetual_event n (taker_fee_updated p.taker_fee) p)

  unfoldable pub price_max_age_updated : U256 → U256 → On n R (Exchange n) (List (StateEvents n))
  unfolding perpetual
  price_max_age_updated perp_id max_age_sec = do
    _ ← perpetual n perp_id do
      seconds ← convert (n.to_u64 max_age_sec)
      modify (update_price_max_age_sec n env.instant seconds)
    pure []

  -- The new mark of a contract on all tracked positions.
  unfoldable pub mark_positions : PerpetualId → UD64 → On n R (Exchange n) (List (StateEvents n))
  unfolding remarked
  mark_positions perp_id mark_price e =
      let (accounts, events) = on_positions n (remarked n env mark_price) perp_id e.accounts in
      some (record e { accounts = accounts }, ok events)

  unfoldable pub mark_updated : U256 → U256 → On n R (Exchange n) (List (StateEvents n))
  unfolding perpetual mark_positions
  mark_updated perp_id price_pns = do
    perp_mark ← perpetual n {A = PerpetualId × UD64} perp_id do
      p ← gets (λ p. p)
      price ← convert (from_unsigned n p.price_converter price_pns)
      modify (update_mark_price n env.instant price)
      gets (λ p. (p.id, p.mark_price))
    elim perp_mark [
      | none ↦ pure []
      | some (id, mark_price) ↦ do
        events ← mark_positions id mark_price
        pure (
            StateEvents.perpetual
              (record { perpetual_id = id; type = mark_price_updated mark_price })
            ∷ events)
    ]

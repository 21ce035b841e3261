-- ===== src/Exchange/ContractsKeep.antt =====
-- The handlers of src/state/exchange.rs for contracts and for mark prices keep the state valid.
use perpl_dex_sdk.Prelude.{ℕ, ◌≡◌, refl, sym, subst, ◌∙◌, Bool, some, some_inj, List}
use perpl_dex_sdk.Types.{PerpetualId, StateInstant}
use perpl_dex_sdk.Numbers.{Numbers}
use perpl_dex_sdk.Perpetual.{
  Perpetual, update_oracle_feed_id, update_paused, update_funding, update_is_oracle_used,
  update_initial_margin, update_oracle_price, update_maintenance_margin, update_maker_fee,
  update_taker_fee, update_mark_price, update_price_max_age_sec,
}
use perpl_dex_sdk.Perpetual.Funding.{settled, update_funding_as}
use perpl_dex_sdk.OrderBook.Reached.{Reached}
use perpl_dex_sdk.StateEvents.{StateEvents}
use perpl_dex_sdk.Exchange.RawEvents.{FundingEventCompleted}
use perpl_dex_sdk.Exchange.Handler.{modify}
use perpl_dex_sdk.Exchange.Lookup.{Env, On}
use perpl_dex_sdk.Exchange.OnContracts.{
  on_contract, link_feed_updated, contract_paused, contract_removed, funding_completed,
  ignore_oracle_updated, initial_margin_updated, link_price_updated, maintenance_margin_changed,
  maker_fee_changed, taker_fee_changed, price_max_age_updated,
}
use perpl_dex_sdk.Exchange.Keeps.{
  Keeps, Keeps-modify, Keeps-bind, Keeps-convert, Keeps-reads, Keeps-converts, keeps_rules,
}
use perpl_dex_sdk.Exchange.Valid.{Frame, IsContract, Tracks}
use perpl_dex_sdk.Exchange.LookupKeeps.{perpetual-Keeps}

module _ (n : Numbers) where
  -- A contract that another method has left the number, the book and the funding of.
  pub same_book :
      (id : PerpetualId) (p p' : Perpetual n)
      → p.id ≡ p'.id
      → p.l3_book ≡ p'.l3_book
      → p.next_funding_rate ≡ p'.next_funding_rate
      → p.next_funding_payment ≡ p'.next_funding_payment
      → p.next_funding_event_block ≡ p'.next_funding_event_block
      → IsContract n id p
      → IsContract n id p'
  same_book id p p' i b r x bl c = record {
    id_is = sym i ∙ c.id_is;
    book_is = subst (Reached ⦃d = n.ud64⦄) b c.book_is;
    funding_is = record {
      rate_is = cc (r, bl, c.funding_is.rate_is);
      payment_is = cc (x, bl, c.funding_is.payment_is);
    };
  }

  update_funding-IsContract :
      (id : PerpetualId) (at : StateInstant) (rate : n.D64) (payment : n.D256) (bl : ℕ)
      (p p' : Perpetual n)
      → update_funding n at rate payment bl p ≡ some p'
      → IsContract n id p
      → IsContract n id p'
  update_funding-IsContract id at rate payment bl p p' e c =
      let (old, h) =
        settled n bl p.prev_funding_rate p.next_funding_rate p.next_funding_event_block
          c.funding_is.rate_is in
      subst (IsContract n id) (some_inj (sym (update_funding_as n p at rate payment bl old h) ∙ e))
        (record {
          id_is = c.id_is;
          book_is = c.book_is;
          funding_is = record { rate_is = refl; payment_is = refl };
        })

  -- A method that leaves them alone.
  pub record Spares (f : Perpetual n → Perpetual n) : Type 0 where
    pub id_stays : (p : Perpetual n) → p.id ≡ (f p).id
    pub book_stays : (p : Perpetual n) → p.l3_book ≡ (f p).l3_book
    pub rate_stays : (p : Perpetual n) → p.next_funding_rate ≡ (f p).next_funding_rate
    pub payment_stays : (p : Perpetual n) → p.next_funding_payment ≡ (f p).next_funding_payment
    pub block_stays :
        (p : Perpetual n) → p.next_funding_event_block ≡ (f p).next_funding_event_block

  module _ {E : Type 0} (id : PerpetualId) (at : StateInstant) where
    pub method-Keeps :
        (f : Perpetual n → Perpetual n) → Spares f → Keeps {E = E} (IsContract n id) (modify f)
    method-Keeps f h = Keeps-modify f λ p c.
        same_book id p (f p) (h.id_stays p) (h.book_stays p) (h.rate_stays p) (h.payment_stays p)
          (h.block_stays p) c

    update_oracle_feed_id-Keeps :
        (v : n.B256) → Keeps {E = E} (IsContract n id) (modify (update_oracle_feed_id n at v))
    unfolding update_oracle_feed_id
    update_oracle_feed_id-Keeps v = method-Keeps _ search

    update_paused-Keeps :
        (v : Bool) → Keeps {E = E} (IsContract n id) (modify (update_paused n at v))
    unfolding update_paused
    update_paused-Keeps v = method-Keeps _ search

    update_is_oracle_used-Keeps :
        (v : Bool) → Keeps {E = E} (IsContract n id) (modify (update_is_oracle_used n at v))
    unfolding update_is_oracle_used
    update_is_oracle_used-Keeps v = method-Keeps _ search

    update_initial_margin-Keeps :
        (v : n.UD64) → Keeps {E = E} (IsContract n id) (modify (update_initial_margin n at v))
    unfolding update_initial_margin
    update_initial_margin-Keeps v = method-Keeps _ search

    update_oracle_price-Keeps :
        (v : n.UD64) → Keeps {E = E} (IsContract n id) (modify (update_oracle_price n at v))
    unfolding update_oracle_price
    update_oracle_price-Keeps v = method-Keeps _ search

    update_maintenance_margin-Keeps :
        (v : n.UD64) → Keeps {E = E} (IsContract n id) (modify (update_maintenance_margin n at v))
    unfolding update_maintenance_margin
    update_maintenance_margin-Keeps v = method-Keeps _ search

    update_maker_fee-Keeps :
        (v : n.UD64) → Keeps {E = E} (IsContract n id) (modify (update_maker_fee n at v))
    unfolding update_maker_fee
    update_maker_fee-Keeps v = method-Keeps _ search

    update_taker_fee-Keeps :
        (v : n.UD64) → Keeps {E = E} (IsContract n id) (modify (update_taker_fee n at v))
    unfolding update_taker_fee
    update_taker_fee-Keeps v = method-Keeps _ search

    pub update_mark_price-Keeps :
        (v : n.UD64) → Keeps {E = E} (IsContract n id) (modify (update_mark_price n at v))
    unfolding update_mark_price
    update_mark_price-Keeps v = method-Keeps _ search

    update_price_max_age_sec-Keeps :
        (v : ℕ) → Keeps {E = E} (IsContract n id) (modify (update_price_max_age_sec n at v))
    unfolding update_price_max_age_sec
    update_price_max_age_sec-Keeps v = method-Keeps _ search

ruleset contract_rules = (
  keeps_rules, update_oracle_feed_id-Keeps, update_paused-Keeps, update_is_oracle_used-Keeps,
  update_initial_margin-Keeps, update_oracle_price-Keeps, update_maintenance_margin-Keeps,
  update_maker_fee-Keeps, update_taker_fee-Keeps, update_mark_price-Keeps,
  update_price_max_age_sec-Keeps,
)

module _ (n : Numbers) {R : Type 0} (tracked : List PerpetualId) (frame : Frame) (env : Env n) where
  open n use {U256, B256}

  pub on_contract-Keeps :
      (id : U256) (f : On n R (Perpetual n) (StateEvents n))
      → ((contract : PerpetualId) → Keeps (IsContract n contract) f)
      → Keeps (Tracks n tracked frame) (on_contract n env id f)
  unfolding on_contract
  on_contract-Keeps id f k =
      Keeps-bind (perpetual-Keeps n tracked frame id f k) (search keeps_rules)

  pub link_feed_updated-Keeps :
      (id : U256) (v : B256) → Keeps (Tracks n tracked frame) (link_feed_updated n {R = R} env id v)
  unfolding link_feed_updated
  link_feed_updated-Keeps id v = on_contract-Keeps id _ λ contract. search contract_rules depth 8

  pub contract_paused-Keeps :
      (id : U256) (v : Bool) → Keeps (Tracks n tracked frame) (contract_paused n {R = R} env id v)
  unfolding contract_paused
  contract_paused-Keeps id v = on_contract-Keeps id _ λ contract. search contract_rules depth 8

  pub contract_removed-Keeps :
      (id : U256) → Keeps (Tracks n tracked frame) (contract_removed n {R = R} env id)
  unfolding contract_removed
  contract_removed-Keeps id = on_contract-Keeps id _ λ contract. search contract_rules depth 8

  pub ignore_oracle_updated-Keeps :
      (id : U256) (v : Bool)
      → Keeps (Tracks n tracked frame) (ignore_oracle_updated n {R = R} env id v)
  unfolding ignore_oracle_updated
  ignore_oracle_updated-Keeps id v =
      on_contract-Keeps id _ λ contract. search contract_rules depth 8

  pub initial_margin_updated-Keeps :
      (id : U256) (v : U256)
      → Keeps (Tracks n tracked frame) (initial_margin_updated n {R = R} env id v)
  unfolding initial_margin_updated
  initial_margin_updated-Keeps id v =
      on_contract-Keeps id _ λ contract. search contract_rules depth 8

  pub link_price_updated-Keeps :
      (id : U256) (v : U256)
      → Keeps (Tracks n tracked frame) (link_price_updated n {R = R} env id v)
  unfolding link_price_updated
  link_price_updated-Keeps id v = on_contract-Keeps id _ λ contract. search contract_rules depth 8

  pub maintenance_margin_changed-Keeps :
      (id : U256) (v : U256)
      → Keeps (Tracks n tracked frame) (maintenance_margin_changed n {R = R} env id v)
  unfolding maintenance_margin_changed
  maintenance_margin_changed-Keeps id v =
      on_contract-Keeps id _ λ contract. search contract_rules depth 8

  pub maker_fee_changed-Keeps :
      (id : U256) (v : U256) → Keeps (Tracks n tracked frame) (maker_fee_changed n {R = R} env id v)
  unfolding maker_fee_changed
  maker_fee_changed-Keeps id v = on_contract-Keeps id _ λ contract. search contract_rules depth 8

  pub taker_fee_changed-Keeps :
      (id : U256) (v : U256) → Keeps (Tracks n tracked frame) (taker_fee_changed n {R = R} env id v)
  unfolding taker_fee_changed
  taker_fee_changed-Keeps id v = on_contract-Keeps id _ λ contract. search contract_rules depth 8

  pub funding_completed-Keeps :
      (f : FundingEventCompleted n)
      → Keeps (Tracks n tracked frame) (funding_completed n {R = R} env f)
  unfolding funding_completed
  funding_completed-Keeps f =
      Keeps-bind
        (perpetual-Keeps n tracked frame f.perp_id _ λ id.
          Keeps-reads (IsContract n id) _ (λ p c. c)
            λ p c. Keeps-bind (Keeps-convert _) λ rate. Keeps-bind (Keeps-convert _) λ block_num.
              Keeps-converts _ λ p' e.
                Keeps-modify _
                  λ s h. update_funding-IsContract n id env.instant rate _ block_num p p' e c)
        (search keeps_rules)

  pub price_max_age_updated-Keeps :
      (id v : U256) → Keeps (Tracks n tracked frame) (price_max_age_updated n {R = R} env id v)
  unfolding price_max_age_updated
  price_max_age_updated-Keeps id v =
      Keeps-bind (perpetual-Keeps n tracked frame id _ λ contract. search contract_rules)
        (search keeps_rules)

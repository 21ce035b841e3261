-- ===== src/Exchange/StepsKeep.antt =====
-- What a step over all positions of a contract keeps, in src/state/exchange.rs: new marks, and the
-- events of the state at the end of a block.
use perpl_dex_sdk.Prelude.{
  ◌≡◌, refl, ◌⊎◌, sym, ap, subst, ◌∙◌, true, some, List, [], ◌∷◌, Option-cases, Bool-cases, inl,
  inr, some_inj,
}
use perpl_dex_sdk.Types.{PerpetualId, AccountId, StateInstant}
use perpl_dex_sdk.Numbers.{Numbers}
use perpl_dex_sdk.Table
use perpl_dex_sdk.Table.{Table}
use perpl_dex_sdk.Table.Each.{Each, keys, Each-get, Each-modify}
use perpl_dex_sdk.BookKeys.{by_id}
use perpl_dex_sdk.Position.{
  Position, apply_mark_price, apply_funding_payment, apply_maintenance_margin,
}
use perpl_dex_sdk.Perpetual.{Perpetual, update_state_instant}
use perpl_dex_sdk.Account.{Account}
use perpl_dex_sdk.StateEvents.{
  StateEvents, PerpetualEventType, funding_event, maintenance_margin_fraction_updated,
}
use perpl_dex_sdk.Types.{instant_ge}
use perpl_dex_sdk.Exchange.{
  Exchange, on_position, on_positions, funded, remargined, step_of, apply_state_event,
  apply_state_events, commit_perpetuals, commit, flatten,
}
use perpl_dex_sdk.Exchange.Lookup.{Env}
use perpl_dex_sdk.Exchange.OnContracts.{remarked, mark_positions, mark_updated}
use perpl_dex_sdk.Exchange.Keeps.{Keeps, Keeps-bind, Keeps-elim, keeps_rules}
use perpl_dex_sdk.Exchange.Valid.{Frame, IsContract, IsPosition, IsAccount, Tracks}
use perpl_dex_sdk.Exchange.LookupKeeps.{perpetual-Keeps}
use perpl_dex_sdk.Exchange.ContractsKeep.{same_book, update_mark_price-Keeps}

module _ (n : Numbers) where
  -- A step that leaves a position's account and contract.
  pub record Moves (step : Position n → Position n × List (StateEvents n)) : Type 0 where
    pub contract_stays : (p : Position n) → p.perpetual_id ≡ (step p).0.perpetual_id
    pub account_stays : (p : Position n) → p.account_id ≡ (step p).0.account_id

  moved-IsPosition :
      (tracked : List PerpetualId) (account : AccountId) (id : PerpetualId)
      (step : Position n → Position n × List (StateEvents n)) (p : Position n)
      → Moves step
      → IsPosition n tracked account id p
      → IsPosition n tracked account id (step p).0
  moved-IsPosition tracked account id step p m h = record {
    contract_is = sym (m.contract_stays p) ∙ h.contract_is;
    account_is = sym (m.account_stays p) ∙ h.account_is;
    is_tracked = h.is_tracked;
  }

  on_position-IsAccount :
      (tracked : List PerpetualId) (account : AccountId) (id : PerpetualId)
      (step : Position n → Position n × List (StateEvents n)) (a : Account n)
      → Moves step
      → IsAccount n tracked account a
      → IsAccount n tracked account (on_position n step id a).0
  unfolding on_position
  on_position-IsAccount tracked account id step a m h =
      elim (Option-cases (Table.get by_id id a.positions)) [
        | inl e ↦ rw (e, on_position) h
        | inr (p, e) ↦
            rw (e, on_position)
              (record {
                id_is = h.id_is;
                positions_are =
                    Each-modify (IsPosition n tracked account) id (step p).0 a.positions
                      (moved-IsPosition tracked account id step p m (
                        Each-get (IsPosition n tracked account) id p a.positions e h.positions_are))
                      h.positions_are;
              })
      ]

  on_positions-Each :
      (tracked : List PerpetualId) (id : PerpetualId)
      (step : Position n → Position n × List (StateEvents n)) (m : Table AccountId (Account n))
      → Moves step
      → Each (IsAccount n tracked) m
      → Each (IsAccount n tracked) (on_positions n step id m).0
  unfolding on_positions
  on_positions-Each tracked id step [] mv h = tt
  on_positions-Each tracked id step ((j, a) ∷ m) mv h =
      (on_position-IsAccount tracked j id step a mv h.0, on_positions-Each tracked id step m mv h.1)

  on_positions-keys :
      (id : PerpetualId) (step : Position n → Position n × List (StateEvents n))
      (m : Table AccountId (Account n))
      → keys (on_positions n step id m).0 ≡ keys m
  unfolding on_positions
  on_positions-keys id step [] = refl
  on_positions-keys id step ((j, a) ∷ m) = ap (λ ks. j ∷ ks) (on_positions-keys id step m)

  remarked-Moves : (env : Env n) (mark : n.UD64) → Moves (remarked n env mark)
  unfolding remarked apply_mark_price
  remarked-Moves env mark = search

  remargined-Moves : (at : StateInstant) (m : n.UD64) → Moves (remargined n at m)
  unfolding remargined apply_maintenance_margin
  remargined-Moves at m = search

  paid_ids :
      (at : StateInstant) (x : n.D256) (p : Position n)
      → (p.perpetual_id ≡ (apply_funding_payment n at x p).0.perpetual_id)
        × (p.account_id ≡ (apply_funding_payment n at x p).0.account_id)
  unfolding apply_funding_payment
  paid_ids at x p = elim (Bool-cases (instant_ge p.funding_instant at)) [
    | inl e ↦ rw e (refl, refl)
    | inr e ↦ rw e (refl, refl)
  ]

  funded-Moves : (at : StateInstant) (x : n.D256) → Moves (funded n at x)
  unfolding funded
  funded-Moves at x = record {
    contract_stays = λ p. (paid_ids at x p).0;
    account_stays = λ p. (paid_ids at x p).1;
  }

  stepped-Tracks :
      (tracked : List PerpetualId) (frame : Frame) (id : PerpetualId)
      (step : Position n → Position n × List (StateEvents n)) (e : Exchange n)
      → Moves step
      → Tracks n tracked frame e
      → Tracks n tracked frame (record e { accounts = (on_positions n step id e.accounts).0 })
  stepped-Tracks tracked frame id step e m t = record {
    contracts_are = t.contracts_are;
    tracked_are = t.tracked_are;
    accounts_are = on_positions-Each tracked id step e.accounts m t.accounts_are;
    instant_is = t.instant_is;
    track_all_is = t.track_all_is;
    listed_are =
        subst (λ ks. (frame.track_all ≡ true) ⊎ (ks ≡ frame.listed))
          (sym (on_positions-keys id step e.accounts)) t.listed_are;
  }

module _ (n : Numbers) {R : Type 0} (tracked : List PerpetualId) (frame : Frame) (env : Env n) where
  mark_positions-Keeps :
      (id : PerpetualId) (mark : n.UD64)
      → Keeps (Tracks n tracked frame) (mark_positions n {R = R} env id mark)
  unfolding mark_positions
  mark_positions-Keeps id mark = record {
    keeps = λ e t.
        stepped-Tracks n tracked frame id (remarked n env mark) e (remarked-Moves n env mark) t;
  }

  pub mark_updated-Keeps :
      (id v : n.U256) → Keeps (Tracks n tracked frame) (mark_updated n {R = R} env id v)
  unfolding mark_updated
  mark_updated-Keeps id v =
      Keeps-bind
        (perpetual-Keeps n tracked frame id _
          λ contract. search (keeps_rules, update_mark_price-Keeps) depth 8)
        λ perp_mark.
          Keeps-elim perp_mark (search keeps_rules)
            λ p. Keeps-bind (mark_positions-Keeps p.0 p.1) (search keeps_rules)

module _ (n : Numbers) where
  step_of-Moves :
      (at : StateInstant) (type : PerpetualEventType n)
      (step : Position n → Position n × List (StateEvents n))
      → step_of n at type ≡ some step
      → Moves n step
  unfolding step_of
  step_of-Moves at (funding_event rate x) step e =
      subst (Moves n) (some_inj e) (funded-Moves n at x)
  step_of-Moves at (maintenance_margin_fraction_updated m) step e =
      subst (Moves n) (some_inj e) (remargined-Moves n at m)
  step_of-Moves at _ step e = absurd (cc e)

  apply_state_event-Tracks :
      (tracked : List PerpetualId) (frame : Frame) (at : StateInstant) (event : StateEvents n)
      (e : Exchange n)
      → Tracks n tracked frame e
      → Tracks n tracked frame (apply_state_event n at event e).0
  unfolding apply_state_event
  apply_state_event-Tracks tracked frame at (StateEvents.perpetual pe) e t =
      elim (Option-cases (step_of n at pe.type)) [
        | inl h ↦ rw (h, apply_state_event) t
        | inr (step, h) ↦
            rw (h, apply_state_event)
              (stepped-Tracks n tracked frame pe.perpetual_id step e
                (step_of-Moves at pe.type step h) t)
      ]
  apply_state_event-Tracks tracked frame at _ e t = t

  apply_state_events-Tracks :
      (tracked : List PerpetualId) (frame : Frame) (at : StateInstant)
      (events : List (StateEvents n)) (e : Exchange n)
      → Tracks n tracked frame e
      → Tracks n tracked frame (apply_state_events n at events e).0
  unfolding apply_state_events
  apply_state_events-Tracks tracked frame at [] e t = t
  apply_state_events-Tracks tracked frame at (event ∷ events) e t =
      apply_state_events-Tracks tracked frame at events (apply_state_event n at event e).0
        (apply_state_event-Tracks tracked frame at event e t)

  commit_perpetuals-Each :
      (at : StateInstant) (m : Table PerpetualId (Perpetual n))
      → Each (IsContract n) m
      → Each (IsContract n) (commit_perpetuals n at m).0
  unfolding commit_perpetuals update_state_instant
  commit_perpetuals-Each at [] h = tt
  commit_perpetuals-Each at ((id, p) ∷ m) h =
      (same_book n id p _ refl refl refl refl refl h.0, commit_perpetuals-Each at m h.1)

  commit_perpetuals-keys :
      (at : StateInstant) (m : Table PerpetualId (Perpetual n))
      → keys (commit_perpetuals n at m).0 ≡ keys m
  unfolding commit_perpetuals
  commit_perpetuals-keys at [] = refl
  commit_perpetuals-keys at ((id, p) ∷ m) = ap (λ ks. id ∷ ks) (commit_perpetuals-keys at m)

  -- The end of a block moves a state to the block's instant.
  pub commit-Tracks :
      (tracked : List PerpetualId) (frame : Frame) (at : StateInstant) (e : Exchange n)
      → Tracks n tracked frame e
      → Tracks n tracked (record frame { instant = at }) (commit n at e).0
  unfolding commit
  commit-Tracks tracked frame at e t =
      apply_state_events-Tracks tracked (record frame { instant = at }) at
        (flatten n (commit_perpetuals n at e.perpetuals).1)
        (record e { instant = at; perpetuals = (commit_perpetuals n at e.perpetuals).0 })
        (record {
          contracts_are = commit_perpetuals-Each at e.perpetuals t.contracts_are;
          tracked_are = commit_perpetuals-keys at e.perpetuals ∙ t.tracked_are;
          accounts_are = t.accounts_are;
          instant_is = refl;
          track_all_is = t.track_all_is;
          listed_are = t.listed_are;
        })

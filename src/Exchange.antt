-- ===== src/Exchange.antt =====
-- src/state/exchange.rs: the state of the exchange, its lookups, and what it does at the end of a
-- block. `HashMap`s are tables in the order of their identifiers.
pub mod Positions
pub mod Commit
pub mod Handler
pub mod RawEvents
pub mod Lookup
pub mod OnAccounts
pub mod OnContracts
pub mod Requests
pub mod OnOrders
pub mod OnPositions
pub mod OnSizes
pub mod Dispatch
pub mod Block
pub mod Keeps
pub mod Valid
pub mod LookupKeeps
pub mod AccountsKeep
pub mod ContractsKeep
pub mod StepsKeep
pub mod OrdersKeep
pub mod MethodsKeep
pub mod PositionsKeep
pub mod SizesKeep
pub mod EventsKeep
pub mod Invariant
pub mod Instants
pub mod Fills
pub mod Failures
pub mod Tracking
pub mod Prepare
use perpl_dex_sdk.Prelude.{
  ℕ, ◌≡◌, Bool, true, false, not, ◌&&◌, Option, none, some, is_some, List, [], ◌∷◌, ◌++◌,
  if◌then◌else◌, map, is_empty,
}
use perpl_dex_sdk.Types.{StateInstant, PerpetualId, AccountId, RequestId}
use perpl_dex_sdk.Numbers.{Numbers}
use perpl_dex_sdk.Table
use perpl_dex_sdk.Table.{Table}
use perpl_dex_sdk.BookKeys.{by_id}
use perpl_dex_sdk.BlockEvents
use perpl_dex_sdk.BlockEvents.{EventContext}
use perpl_dex_sdk.Position.{Position, pnl, apply_funding_payment, apply_maintenance_margin}
use perpl_dex_sdk.Perpetual.{Perpetual, Converter, update_state_instant}
use perpl_dex_sdk.Account.{Account, from_event}
use perpl_dex_sdk.Emit.{position_event}
use perpl_dex_sdk.StateEvents
use perpl_dex_sdk.StateEvents.{
  StateEvents, PerpetualEvent, PerpetualEventType, PositionEventType, funding_event,
  maintenance_margin_fraction_updated, unrealized_pnl_updated, maintenance_margin_updated,
}

-- src/lib.rs
pub record Chain (n : Numbers) : Type 0 where
  pub chain_id : ℕ
  pub collateral_token : n.Address
  pub deployed_at_block : ℕ
  pub exchange : n.Address
  pub perpetuals : List PerpetualId

pub record Exchange (n : Numbers) : Type 0 where
  pub chain : Chain n
  pub instant : StateInstant
  pub collateral_converter : Converter
  pub funding_interval_blocks : ℕ
  pub min_post : n.UD128
  pub min_settle : n.UD128
  pub recycle_fee : n.UD128
  pub perpetuals : Table PerpetualId (Perpetual n)
  pub accounts : Table AccountId (Account n)
  pub is_halted : Bool
  pub track_all_accounts : Bool

module _ (n : Numbers) where
  open n use {D256, zero_address}

  -- `ensure_account`, for an identifier that has been converted.
  unfoldable pub ensure_account : AccountId → Exchange n → Exchange n
  ensure_account id e =
      if e.track_all_accounts && not (is_some (Table.get by_id id e.accounts))
      then (record e {
        accounts =
            Table.insert by_id id
              (from_event n (record { block_number = 0; block_timestamp = 0 }) id zero_address)
              e.accounts;
      })
      else e

  -- What a funding payment does to a position: an event if it is made.
  unfoldable pub funded : StateInstant → D256 → Position n → Position n × List (StateEvents n)
  unfolding position_event
  funded instant payment_per_unit p =
      let (p', made) = apply_funding_payment n instant payment_per_unit p in
      (
        p',
        if made
            then (position_event n none
                  (unrealized_pnl_updated (pnl n p') p'.delta_pnl p'.premium_pnl) p'
                ∷ [])
            else [],
      )

  unfoldable pub remargined : StateInstant → n.UD64 → Position n → Position n × List (StateEvents n)
  unfolding position_event
  remargined instant maintenance_margin p =
      let p' = apply_maintenance_margin n instant maintenance_margin p in
      (
        p',
        position_event n none (maintenance_margin_updated p'.maintenance_margin_requirement) p'
            ∷ [],
      )

  -- The account's position in the perpetual, where it has one, behind `step`.
  unfoldable pub on_position :
      (Position n → Position n × List (StateEvents n))
      → PerpetualId
      → Account n
      → Account n × List (StateEvents n)
  on_position step perpetual_id a = elim (Table.get by_id perpetual_id a.positions) [
    | none ↦ (a, [])
    | some p ↦
        let (p', events) = step p in
        (record a { positions = Table.modify by_id perpetual_id (λ _. p') a.positions }, events)
  ]

  -- `accounts.values_mut().filter_map(..).collect()`
  unfoldable pub on_positions :
      (Position n → Position n × List (StateEvents n))
      → PerpetualId
      → Table AccountId (Account n)
      → Table AccountId (Account n) × List (StateEvents n)
  unfolding on_position
  on_positions step perpetual_id [] = ([], [])
  on_positions step perpetual_id ((id, a) ∷ m) =
      let (a', events) = on_position step perpetual_id a in
      let (m', others) = on_positions step perpetual_id m in ((id, a') ∷ m', events ++ others)

  -- What an event of the state asks of the positions of its perpetual.
  unfoldable pub step_of :
      StateInstant → PerpetualEventType n → Option (Position n → Position n × List (StateEvents n))
  step_of instant (funding_event rate payment_per_unit) = some (funded instant payment_per_unit)
  step_of instant (maintenance_margin_fraction_updated maintenance_margin) =
      some (remargined instant maintenance_margin)
  step_of instant _ = none

  unfoldable pub apply_state_event :
      StateInstant → StateEvents n → Exchange n → Exchange n × List (StateEvents n)
  unfolding step_of on_positions
  apply_state_event instant (StateEvents.perpetual pe) e = elim (step_of instant pe.type) [
    | none ↦ (e, [])
    | some step ↦
        let (accounts, events) = on_positions step pe.perpetual_id e.accounts in
        (record e { accounts = accounts }, events)
  ]
  apply_state_event instant _ e = (e, [])

  -- `perpetuals.values_mut()`, each at the instant of the block, with the events of each.
  unfoldable pub commit_perpetuals :
      StateInstant
      → Table PerpetualId (Perpetual n)
      → Table PerpetualId (Perpetual n) × List (List (StateEvents n))
  commit_perpetuals instant [] = ([], [])
  commit_perpetuals instant ((id, p) ∷ m) =
      let (p', result) = update_state_instant n instant p in
      let (m', results) = commit_perpetuals instant m in
      ((id, p') ∷ m', if is_empty result then results else result ∷ results)

  abbrev pub flatten : List (List (StateEvents n)) → List (StateEvents n)
  flatten [] = []
  flatten (es ∷ ess) = es ++ flatten ess

  -- The second pass over the events of the perpetuals.
  unfoldable pub apply_state_events :
      StateInstant → List (StateEvents n) → Exchange n → Exchange n × List (List (StateEvents n))
  unfolding apply_state_event
  apply_state_events instant [] e = (e, [])
  apply_state_events instant (event ∷ events) e =
      let (e1, result) = apply_state_event instant event e in
      let (e2, results) = apply_state_events instant events e1 in
      (e2, if is_empty result then results else result ∷ results)

  -- The end of `apply_events`: the instant is committed, and the events that this produces are
  -- applied and returned behind those of the block.
  unfoldable pub commit :
      StateInstant → Exchange n → Exchange n × List (EventContext n (List (StateEvents n)))
  unfolding commit_perpetuals apply_state_events
  commit instant e =
      let (perpetuals, perp_events) = commit_perpetuals instant e.perpetuals in
      let e1 : Exchange n = record e { instant = instant; perpetuals = perpetuals } in
      let (e2, results) = apply_state_events instant (flatten perp_events) e1 in
      (e2, map (BlockEvents.empty n) (perp_events ++ results))

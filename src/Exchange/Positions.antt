-- ===== src/Exchange/Positions.antt =====
-- The position of an account in a perpetual, and what a step over all accounts does to it.
use mathlib.Core.Option
use perpl_dex_sdk.Prelude.{
  ◌≡◌, refl, false, Option, none, some, map_or, List, [], ◌∷◌, ◌++◌, arith, ◌==◌, ==_iff,
  if◌then◌else◌, Bool-cases, Option-cases, inl, inr, sym, ◌∙◌, subst,
}
use perpl_dex_sdk.Types.{StateInstant, PerpetualId, AccountId}
use perpl_dex_sdk.Numbers.{Numbers}
use perpl_dex_sdk.Table
use perpl_dex_sdk.Table.{Table}
use perpl_dex_sdk.Table.Laws.{get-modify}
use perpl_dex_sdk.BookKeys.{by_id}
use perpl_dex_sdk.Position.{Position, apply_funding_payment}
use perpl_dex_sdk.Perpetual.{Perpetual}
use perpl_dex_sdk.Account.{Account}
use perpl_dex_sdk.StateEvents.{StateEvents}
use perpl_dex_sdk.Exchange.{funded, on_position, on_positions}

module _ (n : Numbers) where
  open n use {D256}

  -- The position of an account in a perpetual.
  abbrev pub position_of :
      Table AccountId (Account n) → AccountId → PerpetualId → Option (Position n)
  position_of accounts id perpetual_id = elim (Table.get by_id id accounts) [
    | none ↦ none
    | some a ↦ Table.get by_id perpetual_id a.positions
  ]

  -- The payment of a contract's funding event at an instant, and those for a perpetual.
  abbrev pub payment_at : StateInstant → Perpetual n → List D256
  payment_at instant p = elim p.next_funding_payment [
    | none ↦ []
    | some payment ↦
        if map_or false (λ fe. fe == instant.block_number) p.next_funding_event_block
        then payment ∷ []
        else []
  ]

  abbrev pub payments : StateInstant → Table PerpetualId (Perpetual n) → PerpetualId → List D256
  payments instant [] perpetual_id = []
  payments instant ((key, p) ∷ m) perpetual_id =
      (if p.id == perpetual_id then payment_at instant p else []) ++ payments instant m perpetual_id

  -- Some payments, one after the other.
  abbrev pub pay_all : StateInstant → List D256 → Position n → Position n
  pay_all instant [] p = p
  pay_all instant (x ∷ xs) p = pay_all instant xs (apply_funding_payment n instant x p).0

  -- One payment to the positions of a perpetual.
  abbrev pub paid : StateInstant → D256 → Position n → Position n
  paid instant x p = (apply_funding_payment n instant x p).0

  pub funded_position :
      (instant : StateInstant) (x : D256) (p : Position n)
      → (funded n instant x p).0 ≡ paid instant x p
  unfolding funded
  funded_position instant x p = refl

  pub position_in :
      (step : Position n → Position n × List (StateEvents n)) (key pid : PerpetualId)
      (a : Account n)
      → Table.get by_id pid (on_position n step key a).0.positions ≡ (
          if key == pid
          then Option.map (λ p. (step p).0) (Table.get by_id pid a.positions)
          else Table.get by_id pid a.positions)
  unfolding on_position
  position_in step key pid a = elim (Bool-cases (key == pid)) [
    | inl same ↦
        let at : key ≡ pid = (==_iff key pid).0 same in
        rw same (elim (Option-cases (Table.get by_id key a.positions)) [
          | inl e ↦
              let e' : Table.get by_id pid a.positions ≡ none =
                subst (λ k. Table.get by_id k a.positions ≡ none) at e in
              rw (e, on_position) (rw e')
          | inr (p, e) ↦
              let e' : Table.get by_id pid a.positions ≡ some p =
                subst (λ k. Table.get by_id k a.positions ≡ some p) at e in
              rw (e, on_position)
                (get-modify by_id pid key (λ _. (step p).0) a.positions ∙ rw (same, e'))
        ])
    | inr other ↦ rw other (elim (Option-cases (Table.get by_id key a.positions)) [
      | inl e ↦ rw (e, on_position)
      | inr (p, e) ↦
          rw (e, on_position) (get-modify by_id pid key (λ _. (step p).0) a.positions ∙ rw other)
    ])
  ]

  -- A step that is taken by the positions of the perpetual `key`.
  abbrev pub stepped :
      (Position n → Position n × List (StateEvents n))
      → PerpetualId
      → PerpetualId
      → Option (Position n)
      → Option (Position n)
  stepped step key pid o = if key == pid then Option.map (λ p. (step p).0) o else o

  pub stepped-none :
      (step : Position n → Position n × List (StateEvents n)) (key pid : PerpetualId)
      → stepped step key pid none ≡ none
  stepped-none step key pid = ground arith

  pub positions_in :
      (step : Position n → Position n × List (StateEvents n)) (key pid : PerpetualId)
      (id : AccountId) (m : Table AccountId (Account n))
      → position_of (on_positions n step key m).0 id pid
        ≡ stepped step key pid (position_of m id pid)
  unfolding on_positions Table.get
  positions_in step key pid id [] = sym (stepped-none step key pid)
  positions_in step key pid id ((j, a) ∷ m) = elim (Bool-cases (Table.tied by_id id j)) [
    | inl here ↦ rw (here, position_of) (position_in step key pid a)
    | inr away ↦ rw (away, position_of) (positions_in step key pid id m)
  ]

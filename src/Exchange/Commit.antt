-- ===== src/Exchange/Commit.antt =====
-- What the end of a block does to the positions: each of them is paid the funding of its perpetual.
use mathlib.Core.Option
use mathlib.Core.List.{append_assoc, append-nil}
use perpl_dex_sdk.Prelude.{
  ◌≡◌, refl, Bool, true, false, ◌&&◌, Option, none, some, map_or, List, [], ◌∷◌, ◌++◌, arith, ◌==◌,
  if◌then◌else◌, is_empty, Bool-cases, inl, inr, ap, sym, ◌∙◌, fun_ext,
}
use perpl_dex_sdk.Types.{StateInstant, instant_ge, PerpetualId, AccountId}
use perpl_dex_sdk.Numbers.{Numbers}
use perpl_dex_sdk.Table.{Table}
use perpl_dex_sdk.Position.{Position, apply_funding_payment}
use perpl_dex_sdk.Perpetual.{Perpetual, update_state_instant, funding_events, funding_rate}
use perpl_dex_sdk.StateEvents.{StateEvents, PerpetualEventType, funding_event}
use perpl_dex_sdk.Exchange.{
  Exchange, funded, step_of, apply_state_event, commit_perpetuals, flatten, apply_state_events,
  commit,
}
use perpl_dex_sdk.Exchange.Positions.{
  position_of, payment_at, payments, pay_all, paid, stepped, positions_in,
}

module _ (n : Numbers) where
  open n use {D256}

  -- The payments that some events ask of a perpetual, where they all are funding events.
  abbrev payment_of : PerpetualId → StateEvents n → List D256
  payment_of pid (StateEvents.perpetual pe) = elim pe.type [
    | funding_event rate x ↦ if pe.perpetual_id == pid then x ∷ [] else []
    | _ ↦ []
  ]
  payment_of pid _ = []

  abbrev is_funding : StateEvents n → Bool
  is_funding (StateEvents.perpetual pe) = elim pe.type [ funding_event rate x ↦ true | _ ↦ false ]
  is_funding _ = false

  abbrev asked : PerpetualId → List (StateEvents n) → List D256
  asked pid [] = []
  asked pid (e ∷ es) = payment_of pid e ++ asked pid es

  abbrev all_funding : List (StateEvents n) → Bool
  all_funding [] = true
  all_funding (e ∷ es) = is_funding e && all_funding es

  asked-append :
      (pid : PerpetualId) (es fs : List (StateEvents n))
      → asked pid (es ++ fs) ≡ asked pid es ++ asked pid fs
  asked-append pid [] fs = refl
  asked-append pid (e ∷ es) fs =
      ap (λ xs. payment_of pid e ++ xs) (asked-append pid es fs)
      ∙ sym (append_assoc (payment_of pid e) (asked pid es) (asked pid fs))

  all_funding-append :
      (es fs : List (StateEvents n)) → all_funding (es ++ fs) ≡ (all_funding es && all_funding fs)
  all_funding-append [] fs = refl
  all_funding-append (e ∷ es) fs =
      ap (λ b. is_funding e && b) (all_funding-append es fs) ∙ ground arith

  map-map :
      (f g : Position n → Position n) (o : Option (Position n))
      → Option.map g (Option.map f o) ≡ Option.map (λ p. g (f p)) o
  map-map f g none = refl
  map-map f g (some p) = refl

  map_same : (o : Option (Position n)) → Option.map (λ p. p) o ≡ o
  map_same none = refl
  map_same (some p) = refl

  pay_all-append :
      (instant : StateInstant) (xs ys : List D256) (p : Position n)
      → pay_all n instant (xs ++ ys) p ≡ pay_all n instant ys (pay_all n instant xs p)
  pay_all-append instant [] ys p = refl
  pay_all-append instant (x ∷ xs) ys p = pay_all-append instant xs ys (paid n instant x p)

  paid_once :
      (instant : StateInstant) (key pid : PerpetualId) (x : D256) (o : Option (Position n))
      → stepped n (funded n instant x) key pid o
        ≡ Option.map (pay_all n instant (if key == pid then x ∷ [] else [])) o
  unfolding funded
  paid_once instant key pid x o = elim (Bool-cases (key == pid)) [
    | inl e ↦ rw e
    | inr e ↦ rw e (sym (map_same o))
  ]

  -- One funding event is one payment to the positions of its perpetual.
  position_of-type :
      (instant : StateInstant) (key pid : PerpetualId) (id : AccountId)
      (type : PerpetualEventType n) (e : Exchange n)
      → is_funding (StateEvents.perpetual (record { perpetual_id = key; type = type })) ≡ true
      → position_of n
          (apply_state_event n instant
            (StateEvents.perpetual (record { perpetual_id = key; type = type }))
            e).0.accounts
          id
          pid
        ≡ Option.map
            (pay_all n instant
              (payment_of pid (StateEvents.perpetual (record { perpetual_id = key; type = type }))))
            (position_of n e.accounts id pid)
  unfolding apply_state_event step_of
  position_of-type instant key pid id (funding_event rate x) e is =
      positions_in n (funded n instant x) key pid id e.accounts
      ∙ paid_once instant key pid x (position_of n e.accounts id pid)
  position_of-type instant key pid id _ e is = absurd (cc is)

  position_of-event :
      (instant : StateInstant) (pid : PerpetualId) (id : AccountId) (event : StateEvents n)
      (e : Exchange n)
      → is_funding event ≡ true
      → position_of n (apply_state_event n instant event e).0.accounts id pid
        ≡ Option.map (pay_all n instant (payment_of pid event)) (position_of n e.accounts id pid)
  position_of-event instant pid id (StateEvents.perpetual pe) e is =
      position_of-type instant pe.perpetual_id pid id pe.type e is
  position_of-event instant pid id _ e is = absurd (cc is)

  position_of-events :
      (instant : StateInstant) (pid : PerpetualId) (id : AccountId) (events : List (StateEvents n))
      (e : Exchange n)
      → all_funding events ≡ true
      → position_of n (apply_state_events n instant events e).0.accounts id pid
        ≡ Option.map (pay_all n instant (asked pid events)) (position_of n e.accounts id pid)
  unfolding apply_state_events
  position_of-events instant pid id [] e is = sym (map_same (position_of n e.accounts id pid))
  position_of-events instant pid id (event ∷ events) e is =
      position_of-events instant pid id events (apply_state_event n instant event e).0
        (ground arith)
      ∙ ap (Option.map (pay_all n instant (asked pid events)))
          (position_of-event instant pid id event e (ground arith))
      ∙ map-map (pay_all n instant (payment_of pid event)) (pay_all n instant (asked pid events))
          (position_of n e.accounts id pid)
      ∙ ap (λ f. Option.map f (position_of n e.accounts id pid))
          (fun_ext λ p. sym (pay_all-append instant (payment_of pid event) (asked pid events) p))

  -- The events and the payments that a contract with the payment `o` makes, if it is `due`.
  abbrev fired : PerpetualId → n.D64 → Bool → Option D256 → List (StateEvents n)
  fired id rate due none = []
  fired id rate due (some x) =
      if due
      then StateEvents.perpetual (record { perpetual_id = id; type = funding_event rate x }) ∷ []
      else []

  abbrev fired_payments : Bool → Option D256 → List D256
  fired_payments due none = []
  fired_payments due (some x) = if due then x ∷ [] else []

  fired_lem :
      (id pid : PerpetualId) (rate : n.D64) (due : Bool) (o : Option D256)
      → (all_funding (fired id rate due o) ≡ true)
        × (asked pid (fired id rate due o) ≡ (if id == pid then fired_payments due o else []))
  fired_lem id pid rate due none = (refl, ground arith)
  fired_lem id pid rate true (some x) = (refl, append-nil _)
  fired_lem id pid rate false (some x) = (refl, ground arith)

  -- The events of a contract at an instant.
  events_of :
      (instant : StateInstant) (pid : PerpetualId) (p : Perpetual n)
      → (all_funding (update_state_instant n instant p).1 ≡ true)
        × (asked pid (update_state_instant n instant p).1
            ≡ (if p.id == pid then payment_at n instant p else []))
  unfolding update_state_instant funding_events
  events_of instant pid p =
      fired_lem p.id pid (funding_rate n (record p { state_instant = instant }))
        (map_or false (λ fe. fe == instant.block_number) p.next_funding_event_block)
        p.next_funding_payment

  flatten-kept :
      (result : List (StateEvents n)) (results : List (List (StateEvents n)))
      → flatten n (if is_empty result then results else result ∷ results)
        ≡ result ++ flatten n results
  flatten-kept [] results = refl
  flatten-kept (e ∷ es) results = refl

  events_of_all :
      (instant : StateInstant) (pid : PerpetualId) (m : Table PerpetualId (Perpetual n))
      → (all_funding (flatten n (commit_perpetuals n instant m).1) ≡ true)
        × (asked pid (flatten n (commit_perpetuals n instant m).1) ≡ payments n instant m pid)
  unfolding commit_perpetuals
  events_of_all instant pid [] = (refl, refl)
  events_of_all instant pid ((key, p) ∷ m) =
      let result = (update_state_instant n instant p).1 in
      let results = (commit_perpetuals n instant m).1 in
      let (own, own_asked) = events_of instant pid p in
      let (others, others_asked) = events_of_all instant pid m in
      rw (flatten-kept result results) (
        all_funding-append result (flatten n results) ∙ rw (own, others),
        asked-append pid result (flatten n results) ∙ rw (own_asked, others_asked),
      )

  -- At the end of a block every position of the accounts is what it was, paid by
  -- `apply_funding_payment` with the payments of the contracts of its perpetual whose funding event
  -- is at this block, one after the other, and by nothing else.
  pub position_of-commit :
      (instant : StateInstant) (e : Exchange n) (id : AccountId) (pid : PerpetualId)
      → position_of n (commit n instant e).0.accounts id pid
        ≡ Option.map
            (pay_all n instant (payments n instant e.perpetuals pid))
            (position_of n e.accounts id pid)
  unfolding commit
  position_of-commit instant e id pid =
      let (funding, all) = events_of_all instant pid e.perpetuals in
      position_of-events instant pid id (flatten n (commit_perpetuals n instant e.perpetuals).1)
        (record e { instant = instant; perpetuals = (commit_perpetuals n instant e.perpetuals).0 })
        funding
      ∙ ap (λ xs. Option.map (pay_all n instant xs) (position_of n e.accounts id pid)) all

  paid-requirement :
      (instant : StateInstant) (x : D256) (p : Position n)
      → (apply_funding_payment n instant x p).0.maintenance_margin_requirement
        ≡ p.maintenance_margin_requirement
  unfolding apply_funding_payment
  paid-requirement instant x p = elim (Bool-cases (instant_ge p.funding_instant instant)) [
    | inl e ↦ rw e
    | inr e ↦ rw e
  ]

  pay_all-requirement :
      (instant : StateInstant) (xs : List D256) (p : Position n)
      → (pay_all n instant xs p).maintenance_margin_requirement ≡ p.maintenance_margin_requirement
  pay_all-requirement instant [] p = refl
  pay_all-requirement instant (x ∷ xs) p =
      pay_all-requirement instant xs (paid n instant x p) ∙ paid-requirement instant x p

  requirements_kept :
      (instant : StateInstant) (xs : List D256) (o : Option (Position n))
      → Option.map
          (λ (p : Position n). p.maintenance_margin_requirement)
          (Option.map (pay_all n instant xs) o)
        ≡ Option.map (λ (p : Position n). p.maintenance_margin_requirement) o
  requirements_kept instant xs none = refl
  requirements_kept instant xs (some p) = ap some (pay_all-requirement instant xs p)

  pub requirement_of-commit :
      (instant : StateInstant) (e : Exchange n) (id : AccountId) (pid : PerpetualId)
      → Option.map
          (λ (p : Position n). p.maintenance_margin_requirement)
          (position_of n (commit n instant e).0.accounts id pid)
        ≡ Option.map
            (λ (p : Position n). p.maintenance_margin_requirement)
            (position_of n e.accounts id pid)
  requirement_of-commit instant e id pid =
      ap (Option.map (λ (p : Position n). p.maintenance_margin_requirement))
        (position_of-commit instant e id pid)
      ∙ requirements_kept instant (payments n instant e.perpetuals pid)
          (position_of n e.accounts id pid)

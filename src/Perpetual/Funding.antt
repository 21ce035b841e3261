-- ===== src/Perpetual/Funding.antt =====
-- When a funding event fires, and which rate a contract pays before, at and behind it.
use perpl_dex_sdk.Prelude.{
  ℕ, ◌≡◌, refl, true, false, Option, none, some, is_some, [], ◌∷◌, arith, ltb, leb, ◌==◌,
  if◌then◌else◌, ◌&&◌, map_or, some_inj, ap, subst, sym, ◌∙◌, Bool-cases, inl, inr,
}
use perpl_dex_sdk.Types.{StateInstant}
use perpl_dex_sdk.Numbers.{Numbers}
use perpl_dex_sdk.StateEvents.{StateEvents, funding_event}
use perpl_dex_sdk.Perpetual.{
  Perpetual, funding_rate, rate_at, has_next_funding_rate, update_funding, settled_rate,
  update_state_instant, funding_events,
}

due_leb : (a b : ℕ) → (a == b) ≡ true → leb a b ≡ true
due_leb a b h = ground arith

by_time : {A : Type 0} (a b : ℕ) (x y : A) → (if leb a b then x else y) ≡ (if ltb b a then y else x)
by_time a b x y = elim (Bool-cases (ltb b a)) [
  | inl h ↦ let k : leb a b ≡ false = ground arith in rw (h, k)
  | inr h ↦ let k : leb a b ≡ true = ground arith in rw (h, k)
]

module _ (n : Numbers) where
  -- The three fields of the next funding event are set together.
  pub record FundingIsSet (p : Perpetual n) : Type 0 where
    pub rate_is : is_some p.next_funding_rate ≡ is_some p.next_funding_event_block
    pub payment_is : is_some p.next_funding_payment ≡ is_some p.next_funding_event_block

  pub settled :
      (bl : ℕ) (prev : n.D64) (next : Option n.D64) (block : Option ℕ)
      → is_some next ≡ is_some block
      → (old : n.D64) × (settled_rate n bl prev next block ≡ some old)
  unfolding settled_rate
  settled bl prev none block e = (prev, refl)
  settled bl prev (some next) none e = absurd (cc e)
  settled bl prev (some next) (some b) e = (if ltb b bl then next else prev, refl)

  -- The contract that `update_funding` leaves when it settles the rate `old`.
  abbrev pub announced : StateInstant → n.D64 → n.D64 → n.D256 → ℕ → Perpetual n → Perpetual n
  announced instant old rate payment bl p = record p {
    prev_funding_rate = old;
    next_funding_rate = some rate;
    next_funding_payment = some payment;
    next_funding_event_block = some bl;
    instant = instant;
  }

  pub update_funding_as :
      (p : Perpetual n) (at : StateInstant) (rate : n.D64) (payment : n.D256) (bl : ℕ) (old : n.D64)
      → settled_rate n bl p.prev_funding_rate p.next_funding_rate p.next_funding_event_block
        ≡ some old
      → update_funding n at rate payment bl p ≡ some (announced at old rate payment bl p)
  unfolding update_funding
  update_funding_as p at rate payment bl old e =
      ap
        (λ (o : Option n.D64). elim o [
          | none ↦ none
          | some r ↦ some (announced at r rate payment bl p)
        ])
        e

  -- On a contract whose funding fields are set together `update_funding` does not panic, and keeps
  -- them so. When the state then moves to an instant, the contract emits one funding event, with
  -- the announced rate and payment, at the block of the announcement, and none at another block; it
  -- reports the announced rate from that block on, and a next rate before it.
  pub update_funding_schedule :
      (p : Perpetual n) (at now : StateInstant) (rate : n.D64) (payment : n.D256) (bl : ℕ)
      → FundingIsSet p
      → (p' : Perpetual n) × (old : n.D64) × (update_funding n at rate payment bl p ≡ some p')
        × FundingIsSet p'
        × ((update_state_instant n now p').1 ≡ (
            if bl == now.block_number
            then (StateEvents.perpetual
                  (record { perpetual_id = p.id; type = funding_event rate payment })
                ∷ [])
            else []))
        × (funding_rate n (update_state_instant n now p').0
            ≡ (if ltb now.block_number bl then old else rate))
        × (has_next_funding_rate n (update_state_instant n now p').0 ≡ ltb now.block_number bl)
  unfolding update_funding update_state_instant funding_events funding_rate rate_at
      has_next_funding_rate
  update_funding_schedule p at now rate payment bl set =
      let (old, e) =
        settled bl p.prev_funding_rate p.next_funding_rate p.next_funding_event_block set.rate_is in
      (
        announced at old rate payment bl p,
        old,
        update_funding_as p at rate payment bl old e,
        record { rate_is = refl; payment_is = refl },
        elim (Bool-cases (bl == now.block_number)) [
          | inl due ↦ rw (due, due_leb bl now.block_number due)
          | inr other ↦ rw other
        ],
        by_time bl now.block_number rate old,
        refl,
      )

  unpaid :
      (b bl : ℕ) (prev old : n.D64) (next : Option n.D64) (block : Option ℕ)
      → is_some next ≡ is_some block
      → (is_some next && map_or false (λ e. ltb b e) block) ≡ false
      → ltb b bl ≡ true
      → settled_rate n bl prev next block ≡ some old
      → rate_at n b prev next block ≡ old
  unfolding settled_rate rate_at
  unpaid b bl prev old none block e idle before s = some_inj s
  unpaid b bl prev old (some next) none e idle before s = absurd (cc s)
  unpaid b bl prev old (some next) (some k) e idle before s =
      let due : leb k b ≡ true = ground arith in
      let past : ltb k bl ≡ true = ground arith in
      rw due (some_inj (subst (λ t. some (if t then next else prev) ≡ some old) past s))

  pub update_funding_ahead :
      (p : Perpetual n) (at : StateInstant) (rate : n.D64) (payment : n.D256) (bl : ℕ)
      → FundingIsSet p
      → has_next_funding_rate n p ≡ false
      → ltb p.state_instant.block_number bl ≡ true
      → (p' : Perpetual n) × (update_funding n at rate payment bl p ≡ some p')
        × (funding_rate n p' ≡ funding_rate n p)
        × (has_next_funding_rate n p' ≡ true)
  unfolding funding_rate rate_at has_next_funding_rate
  update_funding_ahead p at rate payment bl set idle ahead =
      let (old, e) =
        settled bl p.prev_funding_rate p.next_funding_rate p.next_funding_event_block set.rate_is in
      let b = p.state_instant.block_number in
      (
        announced at old rate payment bl p,
        update_funding_as p at rate payment bl old e,
        by_time bl b rate old
            ∙ rw ahead (
                sym (
                  unpaid b bl p.prev_funding_rate old p.next_funding_rate p.next_funding_event_block
                    set.rate_is idle ahead e)),
        ahead,
      )

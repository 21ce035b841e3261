-- ===== src/Exchange/Instants.antt =====
-- What `apply_events` of src/state/exchange.rs makes of a state: its four outcomes, with the instants.
use perpl_dex_sdk.Prelude.{
  ℕ, ◌+◌, ◌≤◌, ◌<◌, ◌≡◌, ◌⊎◌, refl, true, false, Option, some, none, List, Result, ok, err,
  Bool-cases, inl, inr, Option-cases, subst, sym, ltb, arith,
}
use perpl_dex_sdk.Types.{StateInstant, instant_ge, instant_lt}
use perpl_dex_sdk.Numbers.{Numbers}
use perpl_dex_sdk.DexError.{DexError, block_out_of_order}
use perpl_dex_sdk.BlockEvents.{EventContext}
use perpl_dex_sdk.StateEvents.{StateEvents}
use perpl_dex_sdk.Table.Each.{keys}
use perpl_dex_sdk.Exchange.{Exchange, commit}
use perpl_dex_sdk.Exchange.RawEvents.{RawBlockEvents}
use perpl_dex_sdk.Exchange.Handler.{◌>>=◌, pure}
use perpl_dex_sdk.Exchange.Block.{apply_all, apply_events, StateBlockEvents}
use perpl_dex_sdk.Exchange.Keeps.{Leaves}
use perpl_dex_sdk.Exchange.Valid.{Frame, frame_of, Tracks, IsValid, Tracks-IsValid}
use perpl_dex_sdk.Exchange.StepsKeep.{commit-Tracks}
use perpl_dex_sdk.Exchange.Invariant.{apply_all-Keeps}

module _ (n : Numbers) where
  -- The state behind `old` is valid, with the same contracts, and, unless all accounts are tracked,
  -- with the same accounts.
  pub record Holds (old e : Exchange n) : Type 0 where
    pub valid_is : IsValid n e
    pub contracts_stay : keys e.perpetuals ≡ keys old.perpetuals
    pub accounts_stay : (old.track_all_accounts ≡ true) ⊎ (keys e.accounts ≡ keys old.accounts)

  held :
      (old e : Exchange n) (frame : Frame)
      → frame.track_all ≡ old.track_all_accounts
      → frame.listed ≡ keys old.accounts
      → Tracks n (keys old.perpetuals) frame e
      → Holds old e
  held old e frame a l t = record {
    valid_is = Tracks-IsValid n (keys old.perpetuals) frame e t;
    contracts_stay = t.tracked_are;
    accounts_stay =
        subst (λ b. (b ≡ true) ⊎ (keys e.accounts ≡ keys old.accounts)) a
          (subst (λ ks. (frame.track_all ≡ true) ⊎ (keys e.accounts ≡ ks)) l t.listed_are);
  }

module _ (n : Numbers) (R : Type 0) where
  -- What a block makes of the state `old`.
  pub data Outcome (old : Exchange n) (block : RawBlockEvents n)
      : Exchange n → Result (DexError n.UD64 R) (Option (StateBlockEvents n)) → Type 0 where
    already : instant_ge old.instant block.instant ≡ true → Outcome old block old (ok none)
    out_of_order :
        old.instant.block_number + 1 < block.instant.block_number
        → Outcome old block old
            (err (block_out_of_order (old.instant.block_number + 1) block.instant.block_number))
    fails :
        {e : Exchange n} {error : DexError n.UD64 R}
        → e.instant ≡ old.instant
        → Holds n old e
        → Outcome old block e (err error)
    applies :
        {e : Exchange n} {events : List (EventContext n (List (StateEvents n)))}
        → instant_ge old.instant block.instant ≡ false
        → block.instant.block_number ≤ old.instant.block_number + 1
        → e.instant ≡ block.instant
        → Holds n old e
        → Outcome old block e (ok (some (record { instant = block.instant; events = events })))

  abbrev Ends :
      Exchange n
      → RawBlockEvents n
      → Option (Exchange n × Result (DexError n.UD64 R) (Option (StateBlockEvents n)))
      → Type 0
  Ends old block none = Unit
  Ends old block (some (e, r)) = Outcome old block e r

  not_late : (a b : ℕ) → ltb (a + 1) b ≡ false → b ≤ a + 1
  not_late a b h = ground arith

  late : (a b : ℕ) → ltb (a + 1) b ≡ true → a + 1 < b
  late a b h = ground arith

  apply_events-Ends :
      (block : RawBlockEvents n) (e : Exchange n)
      → IsValid n e
      → Ends e block (apply_events n {R = R} block e)
  unfolding apply_events ◌>>=◌ pure
  apply_events-Ends block e v = elim (Bool-cases (instant_ge e.instant block.instant)) [
    | inl h ↦ rw (h, apply_events) (already h)
    | inr h ↦
        let from = e.instant.block_number in
        elim (Bool-cases (ltb (from + 1) block.instant.block_number)) [
          | inl l ↦ rw (h, l, apply_events) (out_of_order (late from block.instant.block_number l))
          | inr l ↦
              let kept =
                (apply_all-Keeps n R (keys e.perpetuals) (frame_of n e) block.instant block.events
                    none none).keeps
                  e v in
              elim (Option-cases (apply_all n {R = R} block.instant block.events none none e)) [
                | inl k ↦ rw (h, l, k, apply_events) tt
                | inr ((s, err error), k) ↦
                    let t = subst (Leaves (Tracks n (keys e.perpetuals) (frame_of n e))) k kept in
                    rw (h, l, k, apply_events)
                      (fails t.instant_is (held n e s (frame_of n e) refl refl t))
                | inr ((s, ok events), k) ↦
                    let t =
                      commit-Tracks n (keys e.perpetuals) (frame_of n e) block.instant s
                        (subst (Leaves (Tracks n (keys e.perpetuals) (frame_of n e))) k kept) in
                    rw (h, l, k, apply_events)
                      (applies h (not_late from block.instant.block_number l) t.instant_is (
                        held n e (commit n block.instant s).0
                          (record (frame_of n e) { instant = block.instant }) refl refl t))
              ]
        ]
  ]

  -- `apply_events` on a valid state ends in one of four ways, unless it panics. A block that is not
  -- behind the state's instant changes nothing and gives no events; one whose number is beyond the
  -- next changes nothing and is the error `BlockOutOfOrder`; an error in the block leaves the
  -- instant; and a block that is applied has the same or the next number, moves the state to its
  -- instant, and gives events of that instant.
  pub apply_events-Outcome :
      (block : RawBlockEvents n) (e e' : Exchange n)
      (r : Result (DexError n.UD64 R) (Option (StateBlockEvents n)))
      → IsValid n e
      → apply_events n block e ≡ some (e', r)
      → Outcome e block e' r
  apply_events-Outcome block e e' r v h = subst (Ends e block) h (apply_events-Ends block e v)

  behind :
      {old new : Exchange n} {block : RawBlockEvents n}
      {r : Result (DexError n.UD64 R) (Option (StateBlockEvents n))}
      → IsValid n old
      → Outcome old block new r
      → Holds n old new
  behind v (already a) = record { valid_is = v; contracts_stay = refl; accounts_stay = inr refl }
  behind v (out_of_order a) = record {
    valid_is = v;
    contracts_stay = refl;
    accounts_stay = inr refl;
  }
  behind v (fails a u) = u
  behind v (applies a b c u) = u

  -- Whatever the events of a block, and whether they end in an error or not, a state that was valid
  -- is valid behind `apply_events`: each contract is kept under its number, its book is one that the
  -- book's operations make, and its funding fields are set together; each account is kept under its
  -- number; and each position is one of its account, in a tracked contract. The tracked contracts are
  -- the same as before, and so are the accounts, unless all accounts are tracked.
  pub apply_events-Holds :
      (block : RawBlockEvents n) (e e' : Exchange n)
      (r : Result (DexError n.UD64 R) (Option (StateBlockEvents n)))
      → IsValid n e
      → apply_events n block e ≡ some (e', r)
      → Holds n e e'
  apply_events-Holds block e e' r v h = behind v (apply_events-Outcome block e e' r v h)

  again_is :
      {old new : Exchange n} {block : RawBlockEvents n} {x : StateBlockEvents n}
      → Outcome old block new (ok (some x))
      → new.instant ≡ block.instant
  again_is (applies a b c u) = c

  not_before_itself : (i : StateInstant) → instant_ge i i ≡ true
  unfolding instant_ge instant_lt
  not_before_itself i = ground arith

  -- A block that has been applied is ignored when it comes again: the second time nothing changes,
  -- and there are no events.
  pub apply_events-again :
      (block : RawBlockEvents n) (e e' : Exchange n) (events : StateBlockEvents n)
      → IsValid n e
      → apply_events n {R = R} block e ≡ some (e', ok (some events))
      → apply_events n {R = R} block e' ≡ some (e', ok none)
  unfolding apply_events
  apply_events-again block e e' events v h =
      let same = again_is (apply_events-Outcome block e e' (ok (some events)) v h) in
      let late : instant_ge e'.instant block.instant ≡ true =
        subst (λ i. instant_ge i block.instant ≡ true) (sym same)
          (not_before_itself block.instant) in
      rw (late, apply_events) refl

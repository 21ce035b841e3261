-- ===== src/Exchange/Invariant.antt =====
-- The state of src/state/exchange.rs stays valid, block by block.
use perpl_dex_sdk.Prelude.{
  ℕ, ◌≡◌, Option, some, none, List, [], ◌∷◌, Result, ok, err, inl, inr, Option-cases, ◌>>=◌, subst,
  some_inj, ap,
}
use perpl_dex_sdk.Types.{PerpetualId, StateInstant}
use perpl_dex_sdk.Numbers.{Numbers}
use perpl_dex_sdk.DexError.{DexError}
use perpl_dex_sdk.StateEvents.{StateEvents, OrderContext}
use perpl_dex_sdk.Exchange.{Exchange}
use perpl_dex_sdk.Exchange.RawEvents.{RawEvent}
use perpl_dex_sdk.Exchange.Lookup.{Env}
use perpl_dex_sdk.Exchange.Dispatch.{handle, apply_raw_event, next_context}
use perpl_dex_sdk.Exchange.Block.{reset_context, apply_all}
use perpl_dex_sdk.Exchange.Keeps.{Keeps, Leaves, Keeps-bind, Keeps-pure}
use perpl_dex_sdk.Exchange.Valid.{Frame, Tracks}
use perpl_dex_sdk.Exchange.EventsKeep.{handle-Keeps}

-- An outcome beside a context.
abbrev both {ℓ κ} : {A : Type ℓ} {B : Type κ} → Option A → Option B → Option (A × B)
both o c = o >>= λ x. c >>= λ y. let p : _ × _ = (x, y) in some p

both_first {ℓ κ} :
    {A : Type ℓ} {B : Type κ} (o : Option A) (c : Option B) (p : A × B)
    → both o c ≡ some p
    → o ≡ some p.0
both_first none c p h = absurd (cc h)
both_first (some x) none p h = absurd (cc h)
both_first {A = A} {B = B} (some x) (some y) p h = ap (λ (q : A × B). some q.0) (some_inj h)

module _ (n : Numbers) (R : Type 0) (tracked : List PerpetualId) (frame : Frame) where
  Leaves-some :
      (o : Option (Exchange n × Result (DexError n.UD64 R) (List (StateEvents n))))
      (r : Exchange n × Result (DexError n.UD64 R) (List (StateEvents n)))
      → o ≡ some r
      → Leaves (Tracks n tracked frame) o
      → Tracks n tracked frame r.0
  Leaves-some o r h l = subst (Leaves (Tracks n tracked frame)) h l

  apply_raw_event-Tracks :
      (at : StateInstant) (event : RawEvent n) (ctx ctx' : Option (OrderContext n)) (e : Exchange n)
      (r : Exchange n × Result (DexError n.UD64 R) (List (StateEvents n)))
      → apply_raw_event n {R = R} at event ctx e ≡ some (r, ctx')
      → Tracks n tracked frame e
      → Tracks n tracked frame r.0
  unfolding apply_raw_event
  apply_raw_event-Tracks at event ctx ctx' e r h t =
      let env : Env n = record {
        instant = at;
        cc = e.collateral_converter;
        ctx = ctx;
        tx_index = event.tx_index;
        log_index = event.log_index;
      } in
      Leaves-some (handle n {R = R} env event.event e) r
        (both_first (handle n {R = R} env event.event e) (next_context n event.event ctx) (r, ctx')
          h)
        ((handle-Keeps n tracked frame env event.event).keeps e t)

  apply_all-Leaves :
      (at : StateInstant) (events : List (RawEvent n)) (prev : Option ℕ)
      (ctx : Option (OrderContext n)) (e : Exchange n)
      → Tracks n tracked frame e
      → Leaves (Tracks n tracked frame) (apply_all n {R = R} at events prev ctx e)
  unfolding apply_all
  apply_all-Leaves at [] prev ctx e t = t
  apply_all-Leaves at (event ∷ events) prev ctx e t =
      elim (Option-cases
        (apply_raw_event n {R = R} at event (reset_context n prev event.tx_index ctx) e)) [
          | inl h ↦ rw (h, apply_all) tt
          | inr (((s, err error), ctx'), h) ↦
              rw (h, apply_all)
                (apply_raw_event-Tracks at event (reset_context n prev event.tx_index ctx) ctx' e
                  (s, err error) h t)
          | inr (((s, ok result), ctx'), h) ↦
              rw (h, apply_all)
                ((Keeps-bind {P = Tracks n tracked frame}
                    {m = apply_all n {R = R} at events (some event.tx_index) ctx'}
                    (record {
                      keeps = λ x tx. apply_all-Leaves at events (some event.tx_index) ctx' x tx;
                    })
                    (λ rest. Keeps-pure _)).keeps
                  s
                  (apply_raw_event-Tracks at event (reset_context n prev event.tx_index ctx) ctx' e
                    (s, ok result) h t))
        ]

  pub apply_all-Keeps :
      (at : StateInstant) (events : List (RawEvent n)) (prev : Option ℕ)
      (ctx : Option (OrderContext n))
      → Keeps (Tracks n tracked frame) (apply_all n {R = R} at events prev ctx)
  apply_all-Keeps at events prev ctx = record { keeps = apply_all-Leaves at events prev ctx }

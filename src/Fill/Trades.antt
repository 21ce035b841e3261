-- ===== src/Fill/Trades.antt =====
-- Where the maker fills of the trades come from: each of them is of one event, and stands in one
-- trade at most, in the order of the events.
use mathlib.Core.List.{append_assoc, append-nil}
use perpl_dex_sdk.Prelude.{
  ◌≡◌, ◌⊎◌, refl, Bool, true, false, Option, none, some, List, [], ◌∷◌, ◌++◌, map, unwrap_or,
  if◌then◌else◌, ltb, map_or, ◌>>=◌, ap, sym, ◌∙◌, subst, some_inj, Bool-cases, inl, inr,
  Subsequence, Subsequence-refl, Subsequence-nil, Subsequence-trans, Subsequence-append,
}
use perpl_dex_sdk.Types.{OrderSide, request_type_from, try_side}
use perpl_dex_sdk.Numbers.{Numbers}
use perpl_dex_sdk.Fill.{MakerFill, TakerTrade}
use perpl_dex_sdk.Fill.Listener.{
  NormalizationConfig, OrderContext, OrderRequest, MakerOrderFilled, TakerOrderFilled,
  ExchangeEvents, order_request, order_batch_completed, maker_order_filled, taker_order_filled,
  other, RawEvent, PendingMakerFill, TradeProcessor, reset, pending_of, handle_maker_fill, fill_of,
  matched, all_in, handle_taker_fill, handle_order_request, track, no_trade, process_event,
  at_boundary, push, process_events,
}

-- A chain that does not panic.
pub bind_some {ℓ κ} :
    {A : Type ℓ} {B : Type κ} (m : Option A) (f : A → Option B) (r : B)
    → (m >>= f) ≡ some r
    → (a : A) × (m ≡ some a) × (f a ≡ some r)
bind_some none f r e = absurd (cc e)
bind_some (some a) f r e = (a, refl, e)

taken {ℓ} : {A : Type ℓ} (b : Bool) (x y r : A) → (if b then x else y) ≡ r → (x ≡ r) ⊎ (y ≡ r)
taken true x y r e = inl e
taken false x y r e = inr e

map-append {ℓ κ} :
    {A : Type ℓ} {B : Type κ} (f : A → B) (xs ys : List A) → map f (xs ++ ys) ≡ map f xs ++ map f ys
map-append f [] ys = refl
map-append f (x ∷ xs) ys = ap (λ zs. f x ∷ zs) (map-append f xs ys)

then_Subsequence {ℓ} :
    {A : Type ℓ} (made rest held held' held'' own tail : List A)
    → Subsequence (made ++ held') (held ++ own)
    → Subsequence (rest ++ held'') (held' ++ tail)
    → Subsequence ((made ++ rest) ++ held'') (held ++ (own ++ tail))
then_Subsequence made rest held held' held'' own tail a b =
    let first = Subsequence-append a (Subsequence-refl tail) in
    let second = Subsequence-append (Subsequence-refl made) b in
    let joined : Subsequence (made ++ (rest ++ held'')) ((held ++ own) ++ tail) =
      Subsequence-trans first (subst (Subsequence _) (sym (append_assoc made held' tail)) second) in
    subst (λ xs. Subsequence xs (held ++ (own ++ tail))) (sym (append_assoc made rest held''))
      (subst (Subsequence _) (append_assoc held own tail) joined)

module _ (n : Numbers) where
  abbrev pub pending_fills : List (PendingMakerFill n) → List (MakerFill n)
  pending_fills ms = map (fill_of n) ms

  -- The fills of some trades, one after the other.
  abbrev pub fills : List (TakerTrade n) → List (MakerFill n)
  fills [] = []
  fills (t ∷ ts) = t.maker_fills ++ fills ts

  abbrev pub fills_of : Option (TakerTrade n) → List (MakerFill n)
  fills_of none = []
  fills_of (some t) = t.maker_fills

  -- The fills of the makers' events.
  abbrev pub event_fills : NormalizationConfig → RawEvent n → List (MakerFill n)
  event_fills config event = elim event.event [
    | maker_order_filled e ↦ pending_fills (unwrap_or (pending_of n config event e) [])
    | _ ↦ []
  ]

  abbrev pub all_event_fills : NormalizationConfig → List (RawEvent n) → List (MakerFill n)
  all_event_fills config [] = []
  all_event_fills config (event ∷ events) =
      event_fills config event ++ all_event_fills config events

  fills-push :
      (o : Option (TakerTrade n)) (ts : List (TakerTrade n))
      → fills (push n o ts) ≡ fills_of o ++ fills ts
  fills-push none ts = refl
  fills-push (some t) ts = refl

  -- What one event may do to the fills.
  record Kept (c : TradeProcessor n) (own : List (MakerFill n)) (c' : TradeProcessor n)
      (trade : Option (TakerTrade n)) : Type 0 where
    config_is : c'.config ≡ c.config
    kept :
        Subsequence
          (fills_of trade ++ pending_fills c'.pending_maker_fills)
          (pending_fills c.pending_maker_fills ++ own)

  Kept-matched :
      (c : TradeProcessor n) (event : RawEvent n) (e : TakerOrderFilled n)
      (ms : List (PendingMakerFill n)) (ctx : Option OrderContext) (trade : Option (TakerTrade n))
      → matched n c.config ctx event e ms ≡ some trade
      → Subsequence (fills_of trade) (pending_fills ms)
  unfolding matched
  Kept-matched c event e [] ctx trade h =
      subst (λ t. Subsequence (fills_of t) []) (some_inj h) (Subsequence-nil [])
  Kept-matched c event e (m ∷ ms) none trade h =
      subst (λ t. Subsequence (fills_of t) (pending_fills (m ∷ ms))) (some_inj h)
        (Subsequence-nil _)
  Kept-matched c event e (m ∷ ms) (some ctx) trade h =
      elim (taken (all_in n event.tx_hash (m ∷ ms)) _ _ _ h) [
        | inl run ↦
            let (fee, fits, made) =
              bind_some (n.parts64 e.fee_cns c.config.collateral_converter.decimals) _ _ run in
            subst (λ t. Subsequence (fills_of t) (pending_fills (m ∷ ms))) (some_inj made)
              (Subsequence-refl (pending_fills (m ∷ ms)))
        | inr refused ↦
            subst (λ t. Subsequence (fills_of t) (pending_fills (m ∷ ms))) (some_inj refused)
              (Subsequence-nil _)
      ]

  -- A step that leaves the configuration and the fills as they are, or forgets the fills.
  Kept-same :
      (c c' : TradeProcessor n)
      → c'.config ≡ c.config
      → Subsequence (pending_fills c'.pending_maker_fills) (pending_fills c.pending_maker_fills)
      → Kept c [] c' none
  Kept-same c c' e a = record {
    config_is = e;
    kept = subst (Subsequence _) (sym (append-nil (pending_fills c.pending_maker_fills))) a;
  }

  Kept-track :
      (c c' : TradeProcessor n) (e : OrderRequest n) (side : Option OrderSide)
      → track n side e c ≡ some c'
      → Kept c [] c' none
  unfolding track
  Kept-track c c' e none h =
      subst (λ k. Kept c [] k none) (some_inj h) (Kept-same c c refl (Subsequence-refl _))
  Kept-track c c' e (some side) h =
      let (id, fits, run) = bind_some (n.to_u32 e.account_id) _ _ h in
      subst (λ k. Kept c [] k none) (some_inj run) (Kept-same c _ refl (Subsequence-refl _))

  Kept-order_request :
      (c c' : TradeProcessor n) (e : OrderRequest n)
      → handle_order_request n e c ≡ some c'
      → Kept c [] c' none
  unfolding handle_order_request
  Kept-order_request c c' e h =
      let (type, known, run) = bind_some (request_type_from e.order_type) _ _ h in
      Kept-track c c' e (try_side type) run

  Kept-maker :
      (c c' : TradeProcessor n) (event : RawEvent n) (e : MakerOrderFilled n)
      → handle_maker_fill n event e c ≡ some c'
      → Kept c (pending_fills (unwrap_or (pending_of n c.config event e) [])) c' none
  unfolding handle_maker_fill
  Kept-maker c c' event e h =
      let (ms, parsed, run) = bind_some (pending_of n c.config event e) _ _ h in
      subst (λ k. Kept c (pending_fills (unwrap_or (pending_of n c.config event e) [])) k none)
        (some_inj run)
        (record {
          config_is = refl;
          kept = rw (parsed, map-append (fill_of n) c.pending_maker_fills ms) (Subsequence-refl _);
        })

  Kept-taker :
      (c c' : TradeProcessor n) (event : RawEvent n) (e : TakerOrderFilled n)
      (trade : Option (TakerTrade n))
      → handle_taker_fill n event e c ≡ some (c', trade)
      → Kept c [] c' trade
  unfolding handle_taker_fill
  Kept-taker c c' event e trade h =
      let (t, made, run) =
        bind_some (matched n c.config c.order_context event e c.pending_maker_fills) _ _ h in
      let after = some_inj run in
      subst (λ (k : TradeProcessor n × Option (TakerTrade n)). Kept c [] k.0 k.1) after
        (record {
          config_is = refl;
          kept =
              rw (append-nil (fills_of t), append-nil (pending_fills c.pending_maker_fills))
                (Kept-matched c event e c.pending_maker_fills c.order_context t made);
        })

  -- An event that makes no trade.
  Kept-no_trade :
      (c c' : TradeProcessor n) (own : List (MakerFill n)) (m : Option (TradeProcessor n))
      (trade : Option (TakerTrade n))
      → ((k : TradeProcessor n) → m ≡ some k → Kept c own k none)
      → no_trade n m ≡ some (c', trade)
      → Kept c own c' trade
  Kept-no_trade c c' own none trade step h = absurd (cc h)
  Kept-no_trade c c' own (some k) trade step h =
      subst (λ (r : TradeProcessor n × Option (TakerTrade n)). Kept c own r.0 r.1) (some_inj h)
        (step k refl)

  Kept-event :
      (c c' : TradeProcessor n) (event : RawEvent n) (x : ExchangeEvents n)
      (trade : Option (TakerTrade n))
      → process_event n (record event { event = x }) c ≡ some (c', trade)
      → Kept c (event_fills c.config (record event { event = x })) c' trade
  unfolding process_event reset
  Kept-event c c' event (order_request e) trade h =
      Kept-no_trade c c' [] _ trade (λ k. Kept-order_request c k e) h
  Kept-event c c' event order_batch_completed trade h =
      Kept-no_trade c c' [] _ trade
        (λ k e.
          subst (λ k. Kept c [] k none) (some_inj e)
            (Kept-same c (reset n c) refl (Subsequence-nil _)))
        h
  Kept-event c c' event (maker_order_filled e) trade h =
      Kept-no_trade c c' _ _ trade
        (λ k. Kept-maker c k (record event { event = maker_order_filled e }) e) h
  Kept-event c c' event (taker_order_filled e) trade h =
      Kept-taker c c' (record event { event = taker_order_filled e }) e trade h
  Kept-event c c' event other trade h =
      Kept-no_trade c c' [] _ trade
        (λ k e.
          subst (λ k. Kept c [] k none) (some_inj e) (Kept-same c c refl (Subsequence-refl _)))
        h

  pub boundary_config :
      (c : TradeProcessor n) (event : RawEvent n) → (at_boundary n event c).config ≡ c.config
  unfolding at_boundary reset
  boundary_config c event =
      elim (Bool-cases (map_or false (λ idx. ltb idx event.tx_index) c.prev_tx_index)) [
        | inl e ↦ rw e
        | inr e ↦ rw e
      ]

  boundary_kept :
      (c : TradeProcessor n) (event : RawEvent n)
      → Subsequence
          (pending_fills (at_boundary n event c).pending_maker_fills)
          (pending_fills c.pending_maker_fills)
  unfolding at_boundary reset
  boundary_kept c event =
      elim (Bool-cases (map_or false (λ idx. ltb idx event.tx_index) c.prev_tx_index)) [
        | inl e ↦ rw e (Subsequence-nil _)
        | inr e ↦ rw e (Subsequence-refl _)
      ]

  -- Whatever the processor starts from, unless it panics: the fills of the trades that a list of events yields,
  -- followed by those it still holds, are some of the fills it held at first and of the
  -- fills of the makers' events, each at most once and in that order.
  pub process_events-Subsequence :
      (events : List (RawEvent n)) (c c' : TradeProcessor n) (trades : List (TakerTrade n))
      → process_events n events c ≡ some (c', trades)
      → Subsequence
          (fills trades ++ pending_fills c'.pending_maker_fills)
          (pending_fills c.pending_maker_fills ++ all_event_fills c.config events)
  unfolding process_events
  process_events-Subsequence [] c c' trades h =
      subst
        (λ (r : TradeProcessor n × List (TakerTrade n)).
          Subsequence (fills r.1 ++ pending_fills r.0.pending_maker_fills)
            (pending_fills c.pending_maker_fills ++ []))
        (some_inj h)
        (subst (Subsequence _) (sym (append-nil (pending_fills c.pending_maker_fills)))
          (Subsequence-refl _))
  process_events-Subsequence (event ∷ events) c c' trades h =
      let c0 = at_boundary n event c in
      let ((c1, trade), step, run) = bind_some (process_event n event c0) _ _ h in
      let c1' : TradeProcessor n = record c1 { prev_tx_index = some event.tx_index } in
      let ((c2, rest), steps, last) = bind_some (process_events n events c1') _ _ run in
      let one = Kept-event c0 c1 event event.event trade step in
      let all = process_events-Subsequence events c1' c2 rest steps in
      let config_is = boundary_config c event in
      let goal = pending_fills c.pending_maker_fills ++ all_event_fills c.config (event ∷ events) in
      subst
        (λ (r : TradeProcessor n × List (TakerTrade n)).
          Subsequence (fills r.1 ++ pending_fills r.0.pending_maker_fills)
            (pending_fills c.pending_maker_fills ++ all_event_fills c.config (event ∷ events)))
        (some_inj last)
        (subst (λ xs. Subsequence (xs ++ pending_fills c2.pending_maker_fills) goal)
          (sym (fills-push trade rest))
          (then_Subsequence (fills_of trade) (fills rest) (pending_fills c.pending_maker_fills)
            (pending_fills c1.pending_maker_fills) (pending_fills c2.pending_maker_fills)
            (event_fills c.config event) (all_event_fills c.config events)
            (Subsequence-trans
              (Subsequence-append (boundary_kept c event) (
                subst (λ k. Subsequence (event_fills c0.config event) (event_fills k event))
                  config_is (Subsequence-refl _)))
              one.kept)
            (subst
              (λ k.
                Subsequence (fills rest ++ pending_fills c2.pending_maker_fills)
                  (pending_fills c1.pending_maker_fills ++ all_event_fills k events))
              (one.config_is ∙ config_is) all)))

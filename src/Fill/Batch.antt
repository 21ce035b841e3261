-- ===== src/Fill/Batch.antt =====
-- A transaction as the contract emits it: an order request, the maker fills of its matches, and the
-- taker's fill.
use mathlib.Core.List.{append_assoc, append-nil}
use perpl_dex_sdk.Prelude.{
  ℕ, ◌≡◌, refl, Bool, true, false, ◌&&◌, Option, none, some, List, [], ◌∷◌, ◌++◌, map, ltb, ◌>>=◌,
  ap, sym, ◌∙◌, subst, some_inj, arith,
}
use perpl_dex_sdk.Types.{
  nonzero, PerpetualId, AccountId, OrderSide, RequestType, request_type_from, try_side,
}
use perpl_dex_sdk.Numbers.{Numbers}
use perpl_dex_sdk.Fill.{TakerTrade}
use perpl_dex_sdk.Fill.Trades.{bind_some, boundary_config}
use perpl_dex_sdk.Fill.Listener.{
  NormalizationConfig, OrderContext, OrderRequest, MakerOrderFilled, TakerOrderFilled,
  ExchangeEvents, order_request, maker_order_filled, taker_order_filled, RawEvent, PendingMakerFill,
  TradeProcessor, pending_of, converted, converters_of, PerpetualConverters, handle_maker_fill,
  fill_of, matched, all_in, handle_taker_fill, handle_order_request, track, no_trade, process_event,
  at_boundary, push, process_events,
}

both : (x y : Bool) → (x && y) ≡ true → (x ≡ true) × (y ≡ true)
both x y h = ground arith

both_true : (x y : Bool) → x ≡ true → y ≡ true → (x && y) ≡ true
both_true x y a b = ground arith

module _ (n : Numbers) where
  -- The log of one maker fill.
  pub record MakerLog : Type 0 where
    pub log_index : ℕ
    pub fill : MakerOrderFilled n

  abbrev pub in_tx : n.B256 → ℕ → ℕ → ExchangeEvents n → RawEvent n
  in_tx tx_hash tx_index log_index event = record {
    tx_hash = tx_hash;
    tx_index = tx_index;
    log_index = log_index;
    event = event;
  }

  abbrev pub maker_event : n.B256 → ℕ → MakerLog → RawEvent n
  maker_event hash tx l = in_tx hash tx l.log_index (maker_order_filled l.fill)

  -- The pending fills of the makers' logs.
  abbrev pub parsed :
      NormalizationConfig → n.B256 → ℕ → List MakerLog → Option (List (PendingMakerFill n))
  parsed config hash tx [] = some []
  parsed config hash tx (l ∷ ls) = do
    fill ← pending_of n config (maker_event hash tx l) l.fill
    fills ← parsed config hash tx ls
    some (fill ++ fills)

  abbrev pub with_fills : List (PendingMakerFill n) → TradeProcessor n → TradeProcessor n
  with_fills ms c = record c { pending_maker_fills = c.pending_maker_fills ++ ms }

  abbrev pub at_tx : ℕ → TradeProcessor n → TradeProcessor n
  at_tx tx c = record c { prev_tx_index = some tx }

  -- An event of the current transaction resets nothing.
  at_boundary-at_tx :
      (hash : n.B256) (tx i : ℕ) (x : ExchangeEvents n) (c : TradeProcessor n)
      → at_boundary n (in_tx hash tx i x) (at_tx tx c) ≡ at_tx tx c
  unfolding at_boundary
  at_boundary-at_tx hash tx i x c = let same : ltb tx tx ≡ false = ground arith in rw same

  same_pair {ℓ κ} :
      {A : Type ℓ} {B : Type κ} (m : Option (A × B)) → (m >>= λ x. some (x.0, x.1)) ≡ m
  same_pair none = refl
  same_pair (some x) = refl

  handled :
      (event : RawEvent n) (e : MakerOrderFilled n) (c : TradeProcessor n)
      (ms : List (PendingMakerFill n))
      → pending_of n c.config event e ≡ some ms
      → handle_maker_fill n event e c ≡ some (with_fills ms c)
  unfolding handle_maker_fill
  handled event e c ms h = rw h

  process_event-maker :
      (hash : n.B256) (tx : ℕ) (l : MakerLog) (c : TradeProcessor n)
      (ms : List (PendingMakerFill n))
      → pending_of n c.config (maker_event hash tx l) l.fill ≡ some ms
      → process_event n (maker_event hash tx l) c ≡ some (with_fills ms c, none)
  unfolding process_event
  process_event-maker hash tx l c ms h =
      ap (no_trade n) (handled (maker_event hash tx l) l.fill c ms h)

  -- One event, and then the others.
  process_events-step :
      (hash : n.B256) (tx i : ℕ) (x : ExchangeEvents n) (rest : List (RawEvent n))
      (c c1 : TradeProcessor n) (trade : Option (TakerTrade n))
      → process_event n (in_tx hash tx i x) (at_boundary n (in_tx hash tx i x) c) ≡ some (c1, trade)
      → process_events n (in_tx hash tx i x ∷ rest) c
        ≡ (process_events n rest (at_tx tx c1) >>= λ r. some (r.0, push n trade r.1))
  unfolding process_events
  process_events-step hash tx i x rest c c1 trade h =
      ap
        (λ (m : Option (TradeProcessor n × Option (TakerTrade n))).
          m >>= λ a. process_events n rest (at_tx tx a.0) >>= λ r. some (r.0, push n a.1 r.1))
        h

  -- The logs of the makers only add their fills.
  process_events-makers :
      (hash : n.B256) (tx : ℕ) (logs : List MakerLog) (rest : List (RawEvent n))
      (c : TradeProcessor n) (ms : List (PendingMakerFill n))
      → parsed c.config hash tx logs ≡ some ms
      → process_events n (map (maker_event hash tx) logs ++ rest) (at_tx tx c)
        ≡ process_events n rest (at_tx tx (with_fills ms c))
  process_events-makers hash tx [] rest c ms h =
      subst
        (λ ps.
          process_events n rest (at_tx tx c) ≡ process_events n rest (at_tx tx (with_fills ps c)))
        (some_inj h)
        (ap (λ ps. process_events n rest (at_tx tx (record c { pending_maker_fills = ps })))
          (sym (append-nil c.pending_maker_fills)))
  process_events-makers hash tx (l ∷ logs) rest c ms h =
      let (fill, one, run) =
        bind_some (pending_of n c.config (maker_event hash tx l) l.fill) _ _ h in
      let (fills, all, sum) = bind_some (parsed c.config hash tx logs) _ _ run in
      process_events-step hash tx l.log_index (maker_order_filled l.fill)
        (map (maker_event hash tx) logs ++ rest) (at_tx tx c) (with_fills fill (at_tx tx c)) none
        (ap (process_event n (maker_event hash tx l))
            (at_boundary-at_tx hash tx l.log_index (maker_order_filled l.fill) c)
          ∙ process_event-maker hash tx l (at_tx tx c) fill one)
      ∙ same_pair _
      ∙ process_events-makers hash tx logs rest (with_fills fill c) fills all
      ∙ ap (λ ps. process_events n rest (at_tx tx (record c { pending_maker_fills = ps })))
          (append_assoc c.pending_maker_fills fill fills)
      ∙ ap (λ ps. process_events n rest (at_tx tx (with_fills ps c))) (some_inj sum)

  -- A maker's fill carries the hash of its event.
  all_in-append :
      (hash : n.B256) (xs ys : List (PendingMakerFill n))
      → all_in n hash xs ≡ true
      → all_in n hash ys ≡ true
      → all_in n hash (xs ++ ys) ≡ true
  unfolding all_in
  all_in-append hash [] ys a b = b
  all_in-append hash (x ∷ xs) ys a b =
      let (own, others) = both (n.eq_B256 x.tx_hash hash) (all_in n hash xs) a in
      both_true (n.eq_B256 x.tx_hash hash) (all_in n hash (xs ++ ys)) own
        (all_in-append hash xs ys others b)

  module _ (hash_refl : (x : n.B256) → n.eq_B256 x x ≡ true) where
    all_in-converted :
        (config : NormalizationConfig) (converters : Option PerpetualConverters) (id : PerpetualId)
        (event : RawEvent n) (e : MakerOrderFilled n) (ms : List (PendingMakerFill n))
        → converted n config converters id event e ≡ some ms
        → all_in n event.tx_hash ms ≡ true
    unfolding converted all_in
    all_in-converted config none id event e ms h =
        subst (λ ps. all_in n event.tx_hash ps ≡ true) (some_inj h) refl
    all_in-converted config (some converters) id event e ms h =
        let (a, _, h1) = bind_some (n.to_u32 e.account_id) _ _ h in
        let (o, _, h2) = bind_some (n.to_u16 e.order_id) _ _ h1 in
        let (o', _, h3) = bind_some (nonzero o) _ _ h2 in
        let (p, _, h4) =
          bind_some (n.parts64 e.price_pns converters.price_converter.decimals) _ _ h3 in
        let (s, _, h5) =
          bind_some (n.parts64 e.lot_lns converters.size_converter.decimals) _ _ h4 in
        let (f, _, h6) =
          bind_some (n.parts64 e.fee_cns config.collateral_converter.decimals) _ _ h5 in
        subst (λ ps. all_in n event.tx_hash ps ≡ true) (some_inj h6)
          (both_true (n.eq_B256 event.tx_hash event.tx_hash) true (hash_refl event.tx_hash) refl)

    all_in-parsed :
        (config : NormalizationConfig) (hash : n.B256) (tx : ℕ) (logs : List MakerLog)
        (ms : List (PendingMakerFill n))
        → parsed config hash tx logs ≡ some ms
        → all_in n hash ms ≡ true
    unfolding all_in pending_of
    all_in-parsed config hash tx [] ms h = subst (λ ps. all_in n hash ps ≡ true) (some_inj h) refl
    all_in-parsed config hash tx (l ∷ logs) ms h =
        let (fill, one, run) =
          bind_some (pending_of n config (maker_event hash tx l) l.fill) _ _ h in
        let (fills, all, sum) = bind_some (parsed config hash tx logs) _ _ run in
        let (id, _, conv) = bind_some (n.to_u32 l.fill.perp_id) _ _ one in
        subst (λ ps. all_in n hash ps ≡ true) (some_inj sum)
          (all_in-append hash fill fills
            (all_in-converted config (converters_of id config.perpetuals) id (maker_event hash tx l)
              l.fill fill conv)
            (all_in-parsed config hash tx logs fills all))

  -- A batch that one request starts.
  abbrev pub batch :
      n.B256 → ℕ → OrderRequest n → List MakerLog → ℕ → TakerOrderFilled n → List (RawEvent n)
  batch hash tx request logs i taker =
      in_tx hash tx 0 (order_request request)
      ∷ (map (maker_event hash tx) logs ++ in_tx hash tx i (taker_order_filled taker) ∷ [])

  -- The trade of a batch.
  abbrev pub trade_of :
      n.B256
      → ℕ
      → AccountId
      → OrderSide
      → n.UD64
      → PendingMakerFill n
      → List (PendingMakerFill n)
      → TakerTrade n
  trade_of hash tx account s fee m ms = record {
    tx_hash = hash;
    tx_index = tx;
    perpetual_id = m.perpetual_id;
    taker_account_id = account;
    taker_side = s;
    taker_fee = fee;
    maker_fills = map (fill_of n) (m ∷ ms);
  }

  process_event-request :
      (event : RawEvent n) (request : OrderRequest n) (c : TradeProcessor n) (type : RequestType)
      (s : OrderSide) (account : AccountId)
      → request_type_from request.order_type ≡ some type
      → try_side type ≡ some s
      → n.to_u32 request.account_id ≡ some account
      → process_event n (record event { event = order_request request }) c
        ≡ some (record c { order_context = some (record { account_id = account; side = s }) }, none)
  unfolding process_event handle_order_request track
  process_event-request event request c type s account t side fits = rw (t, side, fits)

  matched_lem :
      (config : NormalizationConfig) (ctx : OrderContext) (hash : n.B256) (tx i : ℕ)
      (e : TakerOrderFilled n) (m : PendingMakerFill n) (ms : List (PendingMakerFill n))
      (fee : n.UD64)
      → all_in n hash (m ∷ ms) ≡ true
      → n.parts64 e.fee_cns config.collateral_converter.decimals ≡ some fee
      → matched n config (some ctx) (in_tx hash tx i (taker_order_filled e)) e (m ∷ ms)
        ≡ some (some (trade_of hash tx ctx.account_id ctx.side fee m ms))
  unfolding matched
  matched_lem config ctx hash tx i e m ms fee same fits = rw (same, fits)

  process_event-taker :
      (hash : n.B256) (tx i : ℕ) (e : TakerOrderFilled n) (c : TradeProcessor n)
      (ctx : OrderContext) (ps : List (PendingMakerFill n)) (t : Option (TakerTrade n))
      → matched n c.config (some ctx) (in_tx hash tx i (taker_order_filled e)) e ps ≡ some t
      → process_event n
          (in_tx hash tx i (taker_order_filled e))
          (record c { order_context = some ctx; pending_maker_fills = ps })
        ≡ some (record c { order_context = some ctx; pending_maker_fills = [] }, t)
  unfolding process_event handle_taker_fill
  process_event-taker hash tx i e c ctx ps t h =
      ap
        (λ (o : Option (Option (TakerTrade n))).
          o >>= λ t. some (record c { order_context = some ctx; pending_maker_fills = [] }, t))
        h

  module _ (hash_refl : (x : n.B256) → n.eq_B256 x x ≡ true) (c : TradeProcessor n) (hash : n.B256)
      (tx : ℕ) (request : OrderRequest n) (logs : List MakerLog) (i : ℕ)
      (taker : TakerOrderFilled n) (type : RequestType) (s : OrderSide) (account : AccountId)
      (m : PendingMakerFill n) (ms : List (PendingMakerFill n)) (fee : n.UD64)
      (fresh : (at_boundary n (in_tx hash tx 0 (order_request request)) c).pending_maker_fills ≡ [])
      (known : request_type_from request.order_type ≡ some type) (sided : try_side type ≡ some s)
      (fits : n.to_u32 request.account_id ≡ some account)
      (makers : parsed c.config hash tx logs ≡ some (m ∷ ms))
      (fee_fits : n.parts64 taker.fee_cns c.config.collateral_converter.decimals ≡ some fee) where
    abbrev start : TradeProcessor n
    start = at_boundary n (in_tx hash tx 0 (order_request request)) c

    abbrev ctx : OrderContext
    ctx = record { account_id = account; side = s }

    -- The processor within the transaction.
    abbrev holding : List (PendingMakerFill n) → TradeProcessor n
    holding ps = record start {
      order_context = some ctx;
      pending_maker_fills = ps;
      prev_tx_index = some tx;
    }

    -- Where equality of hashes is reflexive: a request of a known side, the logs of its maker fills, at least one of them of a known
    -- perpetual, and the taker's fill, in one transaction and with numbers that fit, to a processor that holds no
    -- fills of the transaction: they yield one trade, of the request's account and side, with all of the
    -- maker fills in the order of their logs, and no fill is left over.
    pub process_events-batch :
        (c' : TradeProcessor n) × (process_events n (batch hash tx request logs i taker) c
          ≡ some (c', trade_of hash tx account s fee m ms ∷ []))
        × (c'.pending_maker_fills ≡ [])
    unfolding process_events
    process_events-batch =
        let last = in_tx hash tx i (taker_order_filled taker) in
        let trade = trade_of hash tx account s fee m ms in
        let known_config = boundary_config n c (in_tx hash tx 0 (order_request request)) in
        (
          holding [],
          process_events-step hash tx 0 (order_request request)
                (map (maker_event hash tx) logs ++ last ∷ []) c
                (record start { order_context = some ctx }) none
                (process_event-request (in_tx hash tx 0 (order_request request)) request start type
                  s account known sided fits)
              ∙ same_pair _
              ∙ process_events-makers hash tx logs (last ∷ [])
                  (record start { order_context = some ctx }) (m ∷ ms)
                  (subst (λ k. parsed k hash tx logs ≡ some (m ∷ ms)) (sym known_config) makers)
              ∙ ap (λ ps. process_events n (last ∷ []) (holding (ps ++ (m ∷ ms)))) fresh
              ∙ process_events-step hash tx i (taker_order_filled taker) [] (holding (m ∷ ms))
                  (holding []) (some trade)
                  (ap (process_event n last)
                      (at_boundary-at_tx hash tx i (taker_order_filled taker) (holding (m ∷ ms)))
                    ∙ process_event-taker hash tx i taker (holding (m ∷ ms)) ctx (m ∷ ms)
                        (some trade)
                        (matched_lem start.config ctx hash tx i taker m ms fee
                          (all_in-parsed hash_refl c.config hash tx logs (m ∷ ms) makers)
                          (subst
                            (λ k.
                              n.parts64 taker.fee_cns k.collateral_converter.decimals ≡ some fee)
                            (sym known_config) fee_fits))),
          refl,
        )

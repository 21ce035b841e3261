-- ===== src/Fill/Listener.antt =====
-- src/fill/listener.rs: the processor that turns the contract's events into trades. It has no I/O.
-- A function that can panic returns an `Option`; its state goes on beside its result.
use perpl_dex_sdk.Prelude.{
  ℕ, Bool, true, false, ◌&&◌, Option, none, some, List, [], ◌∷◌, ◌++◌, map, ◌==◌, ltb, map_or,
  if◌then◌else◌, ◌>>=◌,
}
use perpl_dex_sdk.Types.{
  PerpetualId, AccountId, OrderId, OrderSide, request_type_from, try_side, nonzero,
}
use perpl_dex_sdk.Numbers.{Numbers}
use perpl_dex_sdk.BlockEvents.{BlockEvents, EventContext}
use perpl_dex_sdk.Perpetual.{Converter}
use perpl_dex_sdk.Fill.{MakerFill, TakerTrade, BlockTrades}

pub record PerpetualConverters : Type 0 where
  pub price_converter : Converter
  pub size_converter : Converter

pub record NormalizationConfig : Type 0 where
  pub collateral_converter : Converter
  pub perpetuals : List (PerpetualId × PerpetualConverters)

-- `perpetuals.get(&id)`
unfoldable pub converters_of :
    PerpetualId → List (PerpetualId × PerpetualConverters) → Option PerpetualConverters
converters_of id [] = none
converters_of id ((id', c) ∷ m) = if id' == id then some c else converters_of id m

pub record OrderContext : Type 0 where
  pub account_id : AccountId
  pub side : OrderSide

-- The fields of the contract's events that the processor reads.
pub record OrderRequest (n : Numbers) : Type 0 where
  pub account_id : n.U256
  pub order_type : ℕ

pub record MakerOrderFilled (n : Numbers) : Type 0 where
  pub perp_id : n.U256
  pub account_id : n.U256
  pub order_id : n.U256
  pub price_pns : n.U256
  pub lot_lns : n.U256
  pub fee_cns : n.U256

pub record TakerOrderFilled (n : Numbers) : Type 0 where
  pub fee_cns : n.U256

-- The cases of `match event.event()`; `other` is every other event of the contract.
pub data ExchangeEvents (n : Numbers) : Type 0 where
  order_request : OrderRequest n → ExchangeEvents n
  order_batch_completed : ExchangeEvents n
  maker_order_filled : MakerOrderFilled n → ExchangeEvents n
  taker_order_filled : TakerOrderFilled n → ExchangeEvents n
  other : ExchangeEvents n

abbrev pub RawEvent : Numbers → Type 0
RawEvent n = EventContext n (ExchangeEvents n)

pub record PendingMakerFill (n : Numbers) : Type 0 where
  pub tx_hash : n.B256
  pub log_index : ℕ
  pub perpetual_id : PerpetualId
  pub maker_account_id : AccountId
  pub maker_order_id : OrderId
  pub price : n.UD64
  pub size : n.UD64
  pub maker_fee : n.UD64

pub record TradeProcessor (n : Numbers) : Type 0 where
  pub config : NormalizationConfig
  pub order_context : Option OrderContext
  pub pending_maker_fills : List (PendingMakerFill n)
  pub prev_tx_index : Option ℕ

module _ (n : Numbers) where
  unfoldable pub new : NormalizationConfig → TradeProcessor n
  new config = record {
    config = config;
    order_context = none;
    pending_maker_fills = [];
    prev_tx_index = none;
  }

  -- `order_context.take()` and `pending_maker_fills.clear()`
  unfoldable pub reset : TradeProcessor n → TradeProcessor n
  reset c = record c { order_context = none; pending_maker_fills = [] }

  -- The fill that a maker's event adds: one, or none for a perpetual without converters.
  unfoldable pub converted :
      NormalizationConfig
      → Option PerpetualConverters
      → PerpetualId
      → RawEvent n
      → MakerOrderFilled n
      → Option (List (PendingMakerFill n))
  converted config none perp_id event e = some []
  converted config (some converters) perp_id event e = do
    maker_account_id ← n.to_u32 e.account_id
    raw_order_id ← n.to_u16 e.order_id
    maker_order_id ← nonzero raw_order_id
    price ← n.parts64 e.price_pns converters.price_converter.decimals
    size ← n.parts64 e.lot_lns converters.size_converter.decimals
    maker_fee ← n.parts64 e.fee_cns config.collateral_converter.decimals
    some (
        record {
          tx_hash = event.tx_hash;
          log_index = event.log_index;
          perpetual_id = perp_id;
          maker_account_id = maker_account_id;
          maker_order_id = maker_order_id;
          price = price;
          size = size;
          maker_fee = maker_fee;
        }
        ∷ [])

  unfoldable pub pending_of :
      NormalizationConfig → RawEvent n → MakerOrderFilled n → Option (List (PendingMakerFill n))
  unfolding converters_of converted
  pending_of config event e = do
    perp_id ← n.to_u32 e.perp_id
    converted config (converters_of perp_id config.perpetuals) perp_id event e

  unfoldable pub handle_maker_fill :
      RawEvent n → MakerOrderFilled n → TradeProcessor n → Option (TradeProcessor n)
  unfolding pending_of
  handle_maker_fill event e c = do
    fills ← pending_of c.config event e
    some (record c { pending_maker_fills = c.pending_maker_fills ++ fills })

  -- The `MakerFill` of a pending fill.
  unfoldable pub fill_of : PendingMakerFill n → MakerFill n
  fill_of m = record {
    log_index = m.log_index;
    maker_account_id = m.maker_account_id;
    maker_order_id = m.maker_order_id;
    price = m.price;
    size = m.size;
    fee = m.maker_fee;
  }

  unfoldable pub all_in : n.B256 → List (PendingMakerFill n) → Bool
  all_in hash [] = true
  all_in hash (m ∷ ms) = n.eq_B256 m.tx_hash hash && all_in hash ms

  -- The trade of the taken maker fills, behind `mem::take`.
  unfoldable pub matched :
      NormalizationConfig
      → Option OrderContext
      → RawEvent n
      → TakerOrderFilled n
      → List (PendingMakerFill n)
      → Option (Option (TakerTrade n))
  unfolding all_in fill_of
  matched config ctx event e [] = some none
  matched config none event e (m ∷ ms) = some none
  matched config (some ctx) event e (m ∷ ms) =
      if all_in event.tx_hash (m ∷ ms)
      then (do
        taker_fee ← n.parts64 e.fee_cns config.collateral_converter.decimals
        some (
            some (record {
              tx_hash = event.tx_hash;
              tx_index = event.tx_index;
              perpetual_id = m.perpetual_id;
              taker_account_id = ctx.account_id;
              taker_side = ctx.side;
              taker_fee = taker_fee;
              maker_fills = map fill_of (m ∷ ms);
            })))
      else some none

  unfoldable pub handle_taker_fill :
      RawEvent n
      → TakerOrderFilled n
      → TradeProcessor n
      → Option (TradeProcessor n × Option (TakerTrade n))
  unfolding matched
  handle_taker_fill event e c = do
    trade ← matched c.config c.order_context event e c.pending_maker_fills
    some (record c { pending_maker_fills = [] }, trade)

  -- The context of a request; a request without a side leaves the one before.
  unfoldable pub track :
      Option OrderSide → OrderRequest n → TradeProcessor n → Option (TradeProcessor n)
  track none e c = some c
  track (some side) e c = do
    account_id ← n.to_u32 e.account_id
    some (record c { order_context = some (record { account_id = account_id; side = side }) })

  unfoldable pub handle_order_request :
      OrderRequest n → TradeProcessor n → Option (TradeProcessor n)
  unfolding track
  handle_order_request e c = do
    request_type ← request_type_from e.order_type
    track (try_side request_type) e c

  abbrev pub no_trade :
      Option (TradeProcessor n) → Option (TradeProcessor n × Option (TakerTrade n))
  no_trade c = c >>= λ c'. some (c', none)

  unfoldable pub process_event :
      RawEvent n → TradeProcessor n → Option (TradeProcessor n × Option (TakerTrade n))
  unfolding handle_order_request handle_maker_fill handle_taker_fill reset
  process_event event c = elim event.event [
    | order_request e ↦ no_trade (handle_order_request e c)
    | order_batch_completed ↦ no_trade (some (reset c))
    | maker_order_filled e ↦ no_trade (handle_maker_fill event e c)
    | taker_order_filled e ↦ handle_taker_fill event e c
    | other ↦ no_trade (some c)
  ]

  -- The reset at the boundary of a transaction.
  unfoldable pub at_boundary : RawEvent n → TradeProcessor n → TradeProcessor n
  unfolding reset
  at_boundary event c =
      if map_or false (λ idx. ltb idx event.tx_index) c.prev_tx_index then reset c else c

  abbrev pub push : Option (TakerTrade n) → List (TakerTrade n) → List (TakerTrade n)
  push none trades = trades
  push (some trade) trades = trade ∷ trades

  -- The loop of `process_block`.
  unfoldable pub process_events :
      List (RawEvent n) → TradeProcessor n → Option (TradeProcessor n × List (TakerTrade n))
  unfolding at_boundary process_event
  process_events [] c = some (c, [])
  process_events (event ∷ events) c = do
    (c1, trade) ← process_event event (at_boundary event c)
    (c2, trades) ← process_events events (record c1 { prev_tx_index = some event.tx_index })
    some (c2, push trade trades)

  unfoldable pub process_block :
      BlockEvents (RawEvent n) → TradeProcessor n → Option (TradeProcessor n × BlockTrades n)
  unfolding process_events
  process_block block c = do
    (c', trades) ← process_events block.events c
    some (c', record { instant = block.instant; trades = trades })

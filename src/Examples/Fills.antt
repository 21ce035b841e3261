-- ===== src/Examples/Fills.antt =====
-- A transaction in which account 7 buys from two makers.
use perpl_dex_sdk.Prelude.{ℕ, ◌≡◌, refl, none, some, List, [], ◌∷◌, ◌++◌, ==_refl, Subsequence}
use perpl_dex_sdk.Types.{bid, RequestType, request_type_from, try_side}
use perpl_dex_sdk.Fill.{TakerTrade}
use perpl_dex_sdk.Fill.Listener.{
  NormalizationConfig, OrderRequest, TakerOrderFilled, PendingMakerFill, TradeProcessor,
  process_events, process_event, at_boundary, reset, handle_order_request, track, handle_maker_fill,
  handle_taker_fill, pending_of, converted, converters_of, matched, all_in, fill_of,
}
use perpl_dex_sdk.Fill.Trades.{process_events-Subsequence, fills, pending_fills, all_event_fills}
use perpl_dex_sdk.Fill.Batch.{MakerLog, batch, trade_of, process_events-batch}
use perpl_dex_sdk.Examples.Scale.{scale}
use perpl_dex_sdk.Examples.Contracts.{units}

abbrev config : NormalizationConfig
config = record {
  collateral_converter = units;
  perpetuals = (1, record { price_converter = units; size_converter = units }) ∷ [];
}

-- A processor that still holds a fill of an earlier transaction.
abbrev processor : TradeProcessor scale
processor = record {
  config = config;
  order_context = none;
  pending_maker_fills =
      record {
        tx_hash = 77;
        log_index = 9;
        perpetual_id = 1;
        maker_account_id = 5;
        maker_order_id = 5;
        price = 99;
        size = 1;
        maker_fee = 0;
      }
      ∷ [];
  prev_tx_index = some 0;
}

abbrev request : OrderRequest scale
request = record { account_id = 7; order_type = 0 }

abbrev maker_log : ℕ → ℕ → ℕ → ℕ → MakerLog scale
maker_log log_index order_id price size = record {
  log_index = log_index;
  fill = record {
    perp_id = 1;
    account_id = 30;
    order_id = order_id;
    price_pns = price;
    lot_lns = size;
    fee_cns = 2;
  };
}

abbrev logs : List (MakerLog scale)
logs = maker_log 1 11 100 4 ∷ maker_log 2 12 101 6 ∷ []

abbrev taker : TakerOrderFilled scale
taker = record { fee_cns = 8 }

abbrev pending : ℕ → ℕ → ℕ → ℕ → PendingMakerFill scale
pending log_index order_id price size = record {
  tx_hash = 88;
  log_index = log_index;
  perpetual_id = 1;
  maker_account_id = 30;
  maker_order_id = order_id;
  price = price;
  size = size;
  maker_fee = 2;
}

abbrev trade : TakerTrade scale
trade = trade_of scale 88 3 7 bid 8 (pending 1 11 100 4) (pending 2 12 101 6 ∷ [])

process_events-batch_example :
    (c' : TradeProcessor scale) × (process_events scale
        (batch scale 88 3 request logs 3 taker)
        processor
      ≡ some (c', trade ∷ []))
    × (c'.pending_maker_fills ≡ [])
unfolding at_boundary reset request_type_from try_side pending_of converted converters_of
process_events-batch_example =
    process_events-batch scale ==_refl processor 88 3 request logs 3 taker RequestType.open_long bid
      7 (pending 1 11 100 4) (pending 2 12 101 6 ∷ []) 8 refl refl refl refl refl refl

abbrev after : TradeProcessor scale
after = record {
  config = config;
  order_context = some (record { account_id = 7; side = bid });
  pending_maker_fills = [];
  prev_tx_index = some 3;
}

process_events-Subsequence_example : Subsequence (fills scale (trade ∷ []) ++ []) (
    pending_fills scale processor.pending_maker_fills
    ++ all_event_fills scale config (batch scale 88 3 request logs 3 taker))
unfolding process_events process_event at_boundary reset request_type_from try_side pending_of
    converted converters_of handle_order_request track handle_maker_fill handle_taker_fill matched
    all_in fill_of
process_events-Subsequence_example =
    process_events-Subsequence scale (batch scale 88 3 request logs 3 taker) processor after
      (trade ∷ []) refl

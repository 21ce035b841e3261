-- ===== src/Examples/Events.antt =====
-- Single events on the exchange of one contract and one account, and a request.
use mathlib.Core.Option
use perpl_dex_sdk.Prelude.{
  ℕ, ◌≡◌, refl, true, false, none, some, is_some, List, [], ◌∷◌, ok, err, arith, if◌then◌else◌,
  ◌==◌,
}
use perpl_dex_sdk.Types.{
  RequestType, OrderType, PerpetualId, AccountId, side, order_type_of_request, request_type_from,
  request_type_code, try_side,
}
use perpl_dex_sdk.Types.Requests.{request_type_from-code, try_side-order}
use perpl_dex_sdk.Table
use perpl_dex_sdk.BookKeys.{by_id}
use perpl_dex_sdk.DexError.{order_context_expected}
use perpl_dex_sdk.Converters.{from_unsigned, to_unsigned}
use perpl_dex_sdk.BookOrder.{order_side, set_prev, set_next}
use perpl_dex_sdk.BookOrder
use perpl_dex_sdk.BookLevel
use perpl_dex_sdk.BookLevel.{set_head, set_tail, add_size}
use perpl_dex_sdk.OrderBook
use perpl_dex_sdk.OrderBook.{
  get_order_data, get_order, get_level, get_or_create_level, link_at_tail, modify_linked,
  modify_order, modify_level, insert_order, append_to_level,
}
use perpl_dex_sdk.OrderBook.Ops.{add_order, append_order}
use perpl_dex_sdk.OrderBook.Rep.{Rep}
use perpl_dex_sdk.Position.{apply_mark_price}
use perpl_dex_sdk.Perpetual.{Perpetual, update_mark_price}
use perpl_dex_sdk.StateEvents.{StateEvents, OrderErrorType, OrderContext}
use perpl_dex_sdk.Exchange.{Exchange}
use perpl_dex_sdk.Exchange.Positions.{position_of}
use perpl_dex_sdk.Exchange.RawEvents.{ExchangeEvents, RawEvent}
use perpl_dex_sdk.Exchange.Handler.{pure}
use perpl_dex_sdk.Exchange.Lookup.{Env, position_at}
use perpl_dex_sdk.Exchange.OnOrders.{fill_maker}
use perpl_dex_sdk.Exchange.OnContracts.{mark_updated}
use perpl_dex_sdk.Exchange.Dispatch.{handle}
use perpl_dex_sdk.Exchange.Block.{apply_all}
use perpl_dex_sdk.Exchange.Failures.{report, handle-report, apply_all-reset}
use perpl_dex_sdk.Exchange.Fills.{filled_order, fill_maker-queues}
use perpl_dex_sdk.Exchange.Tracking.{position_at-total, mark_updated-at_mark}
use perpl_dex_sdk.Exchange.Prepare.{OrderRequest, OrderDesc, prepare, answer, prepare-placed}
use perpl_dex_sdk.Exchange.Requests.{context_of, placed}
use perpl_dex_sdk.Examples.Scale.{scale, amounts, scale-WordLaws}
use perpl_dex_sdk.Examples.Positions.{at}
use perpl_dex_sdk.Examples.Books.{ask_of, queues2, book2-Rep, node1, found1}
use perpl_dex_sdk.Examples.Contracts.{contract, units}
use perpl_dex_sdk.Examples.Exchanges.{exchange, funding_contract}
use perpl_dex_sdk.Examples.Blocks.{exchange-IsValid}

-- An event without a request before it, in transaction 2.
abbrev env : Env scale
env = record { instant = at 50; cc = units; ctx = none; tx_index = 2; log_index = 6 }

handle-report_example :
    handle scale {R = ℕ} env ExchangeEvents.crosses_book exchange
    ≡ some (exchange, report scale ℕ env OrderErrorType.crosses_book exchange)
handle-report_example =
    handle-report scale ℕ env ExchangeEvents.crosses_book OrderErrorType.crosses_book exchange refl

abbrev lost : RawEvent scale
lost = record {
  tx_hash = 9;
  tx_index = 2;
  log_index = 6;
  event = ExchangeEvents.order_cancelled 0 0;
}

apply_all-reset_example :
    apply_all scale {R = ℕ} (at 50) (lost ∷ []) (some 1) none exchange
    ≡ some (exchange, err (order_context_expected 2 6))
apply_all-reset_example = apply_all-reset scale ℕ (at 50) lost [] 1 none exchange (omega arith) refl

-- 2 of the first order's 5 are filled.
fill_maker-queues_example :
    (p' : Perpetual scale) × (event : StateEvents scale) × (fill_maker scale {R = ℕ} env
        (ask_of 1 5)
        2
        contract
      ≡ some (p', ok event))
    × Rep ⦃d = amounts⦄ p'.l3_book queues2
    × (get_order_data ⦃d = amounts⦄ 1 p'.l3_book ≡ some (filled_order scale env node1 2))
unfolding OrderBook.new side add_order append_order get_order get_level get_or_create_level
    link_at_tail modify_linked modify_order modify_level insert_order append_to_level Table.get
    Table.insert Table.modify set_prev set_next set_head set_tail add_size BookOrder.new
    BookLevel.new BookLevel.is_empty
fill_maker-queues_example =
    fill_maker-queues scale ℕ env contract queues2 node1 2 book2-Rep found1 refl (omega arith)

position_at-total_example : is_some (position_at scale {R = ℕ} 7 1 (pure tt) exchange) ≡ true
unfolding pure
position_at-total_example =
    position_at-total scale {R = ℕ} 7 1 (pure tt) exchange exchange-IsValid (λ s. refl)

mark_updated-at_mark_example :
    (e' : Exchange scale) × (events : List (StateEvents scale)) × (mark_updated scale {R = ℕ} env 1
        90 exchange
      ≡ some (e', ok events))
    × (Table.get by_id 1 e'.perpetuals ≡ some (update_mark_price scale (at 50) 90 funding_contract))
    × ((account : AccountId) (pid : PerpetualId)
        → position_of scale e'.accounts account pid ≡ (
            if 1 == pid
            then Option.map
                (apply_mark_price scale (at 50) 90)
                (position_of scale exchange.accounts account pid)
            else position_of scale exchange.accounts account pid))
unfolding Table.get from_unsigned
mark_updated-at_mark_example =
    mark_updated-at_mark scale ℕ env 1 90 exchange 1 funding_contract 90 refl refl refl refl

abbrev request : OrderRequest scale
request = record {
  request_id = 11;
  perp_id = 1;
  type = RequestType.open_short;
  order_id = none;
  price = 100;
  size = 5;
  expiry_block = some 60;
  post_only = true;
  fill_or_kill = false;
  immediate_or_cancel = false;
  max_matches = none;
  leverage = 10;
  last_exec_block = none;
  amount = none;
}

prepare-placed_example :
    (desc : OrderDesc scale) × (ctx : OrderContext scale) × (prepare scale exchange request
      ≡ some desc)
    × (context_of scale (answer scale 7 desc) ≡ some ctx)
    × (ctx.perpetual_id ≡ 1)
    × (ctx.order_id ≡ none)
    × (placed scale (at 50) ctx 3 5 units (record { decimals = 2 })
        ≡ some (record {
          instant = at 50;
          request_id = some 11;
          order_id = 3;
          type = OrderType.open_short;
          account_id = 7;
          price = 100;
          size = 5;
          expiry_block = 60;
          leverage = 10;
          post_only = some true;
          fill_or_kill = some false;
          immediate_or_cancel = some false;
          prev_order_id = none;
          next_order_id = none;
        }))
unfolding Table.get order_type_of_request from_unsigned to_unsigned
prepare-placed_example =
    prepare-placed scale scale-WordLaws exchange funding_contract request 7 (at 50) 3 5
      OrderType.open_short refl (omega arith) (omega arith) (omega arith) (omega arith) (λ h. cc h)
      (omega arith) refl refl refl

request_type_from-code_example :
    request_type_from (request_type_code RequestType.close_short) ≡ some RequestType.close_short
request_type_from-code_example = request_type_from-code RequestType.close_short

try_side-order_example :
    try_side RequestType.open_long ≡ Option.map side (order_type_of_request RequestType.open_long)
try_side-order_example = try_side-order RequestType.open_long

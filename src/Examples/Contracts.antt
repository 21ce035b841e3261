-- ===== src/Examples/Contracts.antt =====
-- A contract with the book of two asks and no funding event yet.
use perpl_dex_sdk.Prelude.{ℕ, ◌≡◌, refl, true, false, none, some, [], ◌∷◌, arith, ok, pos, ℤ}
use perpl_dex_sdk.Types.{side}
use perpl_dex_sdk.Order.{Order}
use perpl_dex_sdk.StateEvents.{StateEvents, funding_event}
use perpl_dex_sdk.OrderBook.{get_order_data}
use perpl_dex_sdk.OrderBook.Rep.{Rep}
use perpl_dex_sdk.Perpetual.{
  Perpetual, Converter, update_funding, update_state_instant, funding_rate, has_next_funding_rate,
}
use perpl_dex_sdk.Perpetual.Orders.{route, update_order}
use perpl_dex_sdk.Perpetual.Routing.{update_order-route_queues, route_queues}
use perpl_dex_sdk.Perpetual.Funding.{FundingIsSet, update_funding_schedule, update_funding_ahead}
use perpl_dex_sdk.Examples.Scale.{scale, amounts}
use perpl_dex_sdk.Examples.Positions.{at}
use perpl_dex_sdk.Examples.Books.{ask_of, book2, queues2, book2-Rep, node1, found1}

abbrev pub units : Converter
units = record { decimals = 0 }

abbrev pub contract : Perpetual scale
contract = record {
  instant = at 40;
  state_instant = at 40;
  id = 1;
  name = "TEST";
  symbol = "TEST";
  is_paused = false;
  price_converter = units;
  size_converter = units;
  leverage_converter = record { decimals = 2 };
  fee_converter = record { decimals = 5 };
  funding_rate_converter = record { decimals = 5 };
  base_price = 0;
  maker_fee = 0;
  taker_fee = 0;
  initial_margin = 0;
  maintenance_margin = 0;
  last_price = 0;
  last_price_block = none;
  last_price_timestamp = 0;
  mark_price = 0;
  mark_price_block = none;
  mark_price_timestamp = 0;
  oracle_price = 0;
  oracle_price_block = none;
  oracle_price_timestamp = 0;
  prev_funding_rate = pos 3;
  next_funding_rate = none;
  next_funding_payment = none;
  next_funding_event_block = none;
  funding_start_block = 0;
  oracle_feed_id = 0;
  is_oracle_used = false;
  price_max_age_sec = 0;
  l3_book = book2;
  open_interest = 0;
}

contract-FundingIsSet : FundingIsSet scale contract
contract-FundingIsSet = record { rate_is = refl; payment_is = refl }

-- The rate 5 is announced for block 50, and the state moves to block 50.
update_funding_schedule_example :
    (p' : Perpetual scale) × (old : ℤ) × (update_funding scale (at 41) (pos 5) (pos 2) 50 contract
      ≡ some p')
    × FundingIsSet scale p'
    × ((update_state_instant scale (at 50) p').1
        ≡ StateEvents.perpetual (record { perpetual_id = 1; type = funding_event (pos 5) (pos 2) })
          ∷ [])
    × (funding_rate scale (update_state_instant scale (at 50) p').0 ≡ pos 5)
    × (has_next_funding_rate scale (update_state_instant scale (at 50) p').0 ≡ false)
update_funding_schedule_example =
    update_funding_schedule scale contract (at 41) (at 50) (pos 5) (pos 2) 50 contract-FundingIsSet

update_funding_ahead_example :
    (p' : Perpetual scale) × (update_funding scale (at 41) (pos 5) (pos 2) 50 contract ≡ some p')
    × (funding_rate scale p' ≡ funding_rate scale contract)
    × (has_next_funding_rate scale p' ≡ true)
unfolding has_next_funding_rate
update_funding_ahead_example =
    update_funding_ahead scale contract (at 41) (pos 5) (pos 2) 50 contract-FundingIsSet refl refl

-- An ask at 100 moves to 120.
abbrev repriced : Order ℕ
repriced = record (ask_of 1 5) { price = 120 }

update_order-route_queues_example :
    ((update_order scale {R = ℕ} repriced contract).1 ≡ ok tt)
    × Rep ⦃d = amounts⦄ (update_order scale {R = ℕ} repriced contract).0.l3_book (
        route_queues ⦃d = amounts⦄
          (route ⦃d = amounts⦄ (ask_of 1 5) repriced)
          repriced
          node1
          queues2)
    × (get_order_data ⦃d = amounts⦄ 1 (update_order scale {R = ℕ} repriced contract).0.l3_book
        ≡ some repriced)
unfolding side
update_order-route_queues_example =
    update_order-route_queues scale contract queues2 repriced node1 book2-Rep found1 refl refl refl
      (omega arith)

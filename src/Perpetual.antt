-- ===== src/Perpetual.antt =====
-- src/state/perpetual.rs: a perpetual contract, with its market data, its funding and its order book.
-- A method on `&mut self` returns the contract that it leaves, beside its result.
pub mod Orders
pub mod Routing
pub mod Funding
pub mod Books
use Prim.Native.String.{String}
use perpl_dex_sdk.Prelude.{
  ℕ, ◌+◌, Bool, true, false, not, ◌&&◌, Option, none, some, is_some, map_or, List, [], ◌∷◌, ◌==◌,
  ltb, leb, if◌then◌else◌, Result, ok, err, and_then, or_fail, map_err,
}
use perpl_dex_sdk.Amount.{Amount}
use perpl_dex_sdk.Types.{StateInstant, PerpetualId, OrderId}
use perpl_dex_sdk.Numbers.{Numbers}
use perpl_dex_sdk.Order.{Order}
use perpl_dex_sdk.BookError.{OrderBookError}
use perpl_dex_sdk.DexError.{DexError, order_not_found, order_book}
use perpl_dex_sdk.OrderBook
use perpl_dex_sdk.OrderBook.{OrderBook, get_order_data}
use perpl_dex_sdk.OrderBook.Ops
use perpl_dex_sdk.OrderBook.Ops.{remove_order_by_id, move_to_back}
use perpl_dex_sdk.StateEvents.{StateEvents, PerpetualEventType, funding_event}

-- `num::Converter`
pub record Converter : Type 0 where
  pub decimals : ℕ

pub record Perpetual (n : Numbers) : Type 0 where
  pub instant : StateInstant
  pub state_instant : StateInstant
  pub id : PerpetualId
  pub name : String
  pub symbol : String
  pub is_paused : Bool
  pub price_converter : Converter
  pub size_converter : Converter
  pub leverage_converter : Converter
  pub fee_converter : Converter
  pub funding_rate_converter : Converter
  pub base_price : n.UD64
  pub maker_fee : n.UD64
  pub taker_fee : n.UD64
  pub initial_margin : n.UD64
  pub maintenance_margin : n.UD64
  pub last_price : n.UD64
  pub last_price_block : Option ℕ
  pub last_price_timestamp : ℕ
  pub mark_price : n.UD64
  pub mark_price_block : Option ℕ
  pub mark_price_timestamp : ℕ
  pub oracle_price : n.UD64
  pub oracle_price_block : Option ℕ
  pub oracle_price_timestamp : ℕ
  pub prev_funding_rate : n.D64
  pub next_funding_rate : Option n.D64
  pub next_funding_payment : Option n.D256
  pub next_funding_event_block : Option ℕ
  pub funding_start_block : ℕ
  pub oracle_feed_id : n.B256
  pub is_oracle_used : Bool
  pub price_max_age_sec : ℕ
  pub l3_book : OrderBook n.UD64
  pub open_interest : n.UD128

module _ (n : Numbers) where
  open n use {UD64, UD128, D64, D256, B256, add128, sub128, resize128, ud64}

  unfoldable pub is_mark_price_obsolete : Perpetual n → Bool
  is_mark_price_obsolete p =
      leb (p.mark_price_timestamp + p.price_max_age_sec) p.instant.block_timestamp

  unfoldable pub is_oracle_price_obsolete : Perpetual n → Bool
  is_oracle_price_obsolete p =
      leb (p.oracle_price_timestamp + p.price_max_age_sec) p.instant.block_timestamp

  -- `next_funding_rate.zip(next_funding_event_block)`, guarded by the block.
  unfoldable pub rate_at : ℕ → D64 → Option D64 → Option ℕ → D64
  rate_at block prev none bl = prev
  rate_at block prev (some next) none = prev
  rate_at block prev (some next) (some bl) = if leb bl block then next else prev

  unfoldable pub funding_rate : Perpetual n → D64
  unfolding rate_at
  funding_rate p =
      rate_at p.state_instant.block_number p.prev_funding_rate p.next_funding_rate
        p.next_funding_event_block

  unfoldable pub has_next_funding_rate : Perpetual n → Bool
  has_next_funding_rate p =
      is_some p.next_funding_rate
      && map_or false (λ bl. ltb p.state_instant.block_number bl) p.next_funding_event_block

  -- The event of `update_state_instant`, once the instant is set.
  unfoldable pub funding_events : StateInstant → Perpetual n → List (StateEvents n)
  unfolding funding_rate
  funding_events instant p = elim p.next_funding_payment [
    | none ↦ []
    | some payment ↦
        if map_or false (λ fe. fe == instant.block_number) p.next_funding_event_block
        then (StateEvents.perpetual
              (record { perpetual_id = p.id; type = funding_event (funding_rate p) payment })
            ∷ [])
        else []
  ]

  unfoldable pub update_state_instant :
      StateInstant → Perpetual n → Perpetual n × List (StateEvents n)
  unfolding funding_events
  update_state_instant instant p =
      let p' : Perpetual n = record p { state_instant = instant } in (p', funding_events instant p')

  -- The rate that goes into `prev_funding_rate`; `none` is the panic of `expect`.
  unfoldable pub settled_rate : ℕ → D64 → Option D64 → Option ℕ → Option D64
  settled_rate block_num prev none bl = some prev
  settled_rate block_num prev (some next) none = none
  settled_rate block_num prev (some next) (some bl) = some (if ltb bl block_num then next else prev)

  unfoldable pub update_funding : StateInstant → D64 → D256 → ℕ → Perpetual n → Option (Perpetual n)
  unfolding settled_rate
  update_funding instant funding_rate funding_payment block_num p =
      elim (settled_rate block_num p.prev_funding_rate p.next_funding_rate
        p.next_funding_event_block) [
          | none ↦ none
          | some rate ↦ some (record p {
            prev_funding_rate = rate;
            next_funding_rate = some funding_rate;
            next_funding_payment = some funding_payment;
            next_funding_event_block = some block_num;
            instant = instant;
          })
        ]

  unfoldable pub update_paused : StateInstant → Bool → Perpetual n → Perpetual n
  update_paused instant paused p = record p { is_paused = paused; instant = instant }

  unfoldable pub update_maker_fee : StateInstant → UD64 → Perpetual n → Perpetual n
  update_maker_fee instant maker_fee p = record p { maker_fee = maker_fee; instant = instant }

  unfoldable pub update_taker_fee : StateInstant → UD64 → Perpetual n → Perpetual n
  update_taker_fee instant taker_fee p = record p { taker_fee = taker_fee; instant = instant }

  unfoldable pub update_initial_margin : StateInstant → UD64 → Perpetual n → Perpetual n
  update_initial_margin instant initial_margin p = record p {
    initial_margin = initial_margin;
    instant = instant;
  }

  unfoldable pub update_maintenance_margin : StateInstant → UD64 → Perpetual n → Perpetual n
  update_maintenance_margin instant maintenance_margin p = record p {
    maintenance_margin = maintenance_margin;
    instant = instant;
  }

  unfoldable pub update_last_price : StateInstant → UD64 → Perpetual n → Perpetual n
  update_last_price instant last_price p = record p {
    last_price = last_price;
    last_price_block = some instant.block_number;
    last_price_timestamp = instant.block_timestamp;
    instant = instant;
  }

  unfoldable pub update_mark_price : StateInstant → UD64 → Perpetual n → Perpetual n
  update_mark_price instant mark_price p = record p {
    mark_price = mark_price;
    mark_price_block = some instant.block_number;
    mark_price_timestamp = instant.block_timestamp;
    instant = instant;
  }

  unfoldable pub update_oracle_price : StateInstant → UD64 → Perpetual n → Perpetual n
  update_oracle_price instant oracle_price p = record p {
    oracle_price = oracle_price;
    oracle_price_block = some instant.block_number;
    oracle_price_timestamp = instant.block_timestamp;
    instant = instant;
  }

  unfoldable pub update_oracle_feed_id : StateInstant → B256 → Perpetual n → Perpetual n
  update_oracle_feed_id instant oracle_feed_id p = record p {
    oracle_feed_id = oracle_feed_id;
    instant = instant;
  }

  unfoldable pub update_is_oracle_used : StateInstant → Bool → Perpetual n → Perpetual n
  update_is_oracle_used instant is_oracle_used p = record p {
    is_oracle_used = is_oracle_used;
    instant = instant;
  }

  unfoldable pub update_price_max_age_sec : StateInstant → ℕ → Perpetual n → Perpetual n
  update_price_max_age_sec instant price_max_age_sec p = record p {
    price_max_age_sec = price_max_age_sec;
    instant = instant;
  }

  unfoldable pub update_open_interest : StateInstant → UD64 → UD64 → Perpetual n → Perpetual n
  update_open_interest instant prev_size new_size p = record p {
    open_interest = add128 (sub128 p.open_interest (resize128 prev_size)) (resize128 new_size);
    instant = instant;
  }

-- ===== src/Snapshot/Contracts.antt =====
-- src/state/perpetual.rs: `Perpetual::new`, from the contract's struct `PerpetualInfo`, with the fields
-- that it reads, and the orders of the snapshot.
use perpl_dex_sdk.Prelude.{
  ℤ, ◌≡◌, Bool, not, Option, is_some, none, some, List, sym, ◌∙◌, ap, ◌>>=◌, subst,
}
use Prim.Native.String.{String}
use perpl_dex_sdk.Types.{StateInstant, PerpetualId}
use perpl_dex_sdk.Numbers.{Numbers}
use perpl_dex_sdk.Converters.{from_unsigned, from_unsigned128, from_signed64}
use perpl_dex_sdk.Order.{Order}
use perpl_dex_sdk.OrderBook
use perpl_dex_sdk.OrderBook.Reached.{Reached, fresh}
use perpl_dex_sdk.Perpetual.{Perpetual, Converter}
use perpl_dex_sdk.Perpetual.Orders.{add_orders_from_snapshot}
use perpl_dex_sdk.Perpetual.Books.{add_orders_from_snapshot-Reached}
use perpl_dex_sdk.Exchange.Valid.{IsContract}

module _ (n : Numbers) where
  open n use {UD64, U256, B256}

  pub record PerpetualInfo : Type 0 where
    pub name : String
    pub symbol : String
    pub price_decimals : U256
    pub lot_decimals : U256
    pub link_feed_id : B256
    pub ref_price_max_age_sec : U256
    pub mark_pns : U256
    pub mark_timestamp : U256
    pub last_pns : U256
    pub last_timestamp : U256
    pub oracle_pns : U256
    pub oracle_timestamp_sec : U256
    pub long_open_interest_lns : U256
    pub funding_start_block : U256
    pub funding_rate_pct100k : ℤ
    pub paused : Bool
    pub base_price_pns : U256
    pub ign_oracle : Bool

  -- `LEVERAGE_SCALE`, `FEE_SCALE` and `FUNDING_RATE_SCALE`.
  abbrev leverage_converter : Converter
  leverage_converter = record { decimals = 2 }

  abbrev fee_converter : Converter
  fee_converter = record { decimals = 5 }

  abbrev funding_rate_converter : Converter
  funding_rate_converter = record { decimals = 5 }

  -- `Perpetual::new`; `none` is a panic of a conversion.
  unfoldable pub contract :
      StateInstant → PerpetualId → PerpetualInfo → U256 → U256 → U256 → U256 → Option (Perpetual n)
  contract instant id info maker_fee taker_fee initial_margin maintenance_margin = do
    price_decimals ← n.to_u8 info.price_decimals
    let price_converter : Converter = record { decimals = price_decimals }
    size_decimals ← n.to_u8 info.lot_decimals
    let size_converter : Converter = record { decimals = size_decimals }
    base_price ← from_unsigned n price_converter info.base_price_pns
    maker ← from_unsigned n fee_converter maker_fee
    taker ← from_unsigned n fee_converter taker_fee
    initial ← from_unsigned n leverage_converter initial_margin
    maintenance ← from_unsigned n leverage_converter maintenance_margin
    last_price ← from_unsigned n price_converter info.last_pns
    last_timestamp ← n.to_u64 info.last_timestamp
    mark_price ← from_unsigned n price_converter info.mark_pns
    mark_timestamp ← n.to_u64 info.mark_timestamp
    oracle_price ← from_unsigned n price_converter info.oracle_pns
    oracle_timestamp ← n.to_u64 info.oracle_timestamp_sec
    rate ← from_signed64 n funding_rate_converter (n.of_i16 info.funding_rate_pct100k)
    start_block ← n.to_u64 info.funding_start_block
    max_age ← n.to_u64 info.ref_price_max_age_sec
    open_interest ← from_unsigned128 n size_converter info.long_open_interest_lns
    some (record {
      instant = instant;
      state_instant = instant;
      id = id;
      name = info.name;
      symbol = info.symbol;
      is_paused = info.paused;
      price_converter = price_converter;
      size_converter = size_converter;
      leverage_converter = leverage_converter;
      fee_converter = fee_converter;
      funding_rate_converter = funding_rate_converter;
      base_price = base_price;
      maker_fee = maker;
      taker_fee = taker;
      initial_margin = initial;
      maintenance_margin = maintenance;
      last_price = last_price;
      last_price_block = none;
      last_price_timestamp = last_timestamp;
      mark_price = mark_price;
      mark_price_block = none;
      mark_price_timestamp = mark_timestamp;
      oracle_price = oracle_price;
      oracle_price_block = none;
      oracle_price_timestamp = oracle_timestamp;
      prev_funding_rate = rate;
      next_funding_rate = none;
      next_funding_payment = none;
      next_funding_event_block = none;
      funding_start_block = start_block;
      oracle_feed_id = info.link_feed_id;
      is_oracle_used = not info.ign_oracle;
      price_max_age_sec = max_age;
      l3_book = OrderBook.new ⦃d = n.ud64⦄;
      open_interest = open_interest;
    })

  -- What a contract of a snapshot starts as.
  record IsNew (id : PerpetualId) (p : Perpetual n) : Type 0 where
    id_is : p.id ≡ id
    book_is : p.l3_book ≡ OrderBook.new ⦃d = n.ud64⦄
    rate_is : p.next_funding_rate ≡ none
    payment_is : p.next_funding_payment ≡ none
    block_is : p.next_funding_event_block ≡ none

  abbrev Ends : PerpetualId → Option (Perpetual n) → Type 0
  Ends id none = Unit
  Ends id (some p) = IsNew id p

  record Makes (id : PerpetualId) (o : Option (Perpetual n)) : Type 0 where
    ends : Ends id o

  makes :
      {A : Type 0} (id : PerpetualId) (o : Option A) (f : A → Option (Perpetual n))
      → ((a : A) → Makes id (f a))
      → Makes id (o >>= f)
  makes id none f h = record { ends = tt }
  makes id (some a) f h = h a

  starts : (id : PerpetualId) (p : Perpetual n) → IsNew id p → Makes id (some p)
  starts id p h = record { ends = h }

  contract-Makes :
      (instant : StateInstant) (id : PerpetualId) (info : PerpetualInfo)
      (maker_fee taker_fee initial_margin maintenance_margin : U256)
      → Makes id (contract instant id info maker_fee taker_fee initial_margin maintenance_margin)
  unfolding contract
  contract-Makes instant id info maker_fee taker_fee initial_margin maintenance_margin =
      search (makes, starts) depth 40 fits 3000

  pub contract-IsContract :
      (R : Type 0) (instant : StateInstant) (id : PerpetualId) (info : PerpetualInfo)
      (maker_fee taker_fee initial_margin maintenance_margin : U256) (orders : List (Order UD64))
      (p : Perpetual n)
      → contract instant id info maker_fee taker_fee initial_margin maintenance_margin ≡ some p
      → IsContract n id (add_orders_from_snapshot n {R = R} orders p).0
  unfolding add_orders_from_snapshot
  contract-IsContract R instant id info maker_fee taker_fee initial_margin maintenance_margin orders
        p h =
      let made =
        subst (Ends id) h
          (contract-Makes instant id info maker_fee taker_fee initial_margin
            maintenance_margin).ends in
      let book = subst (Reached ⦃d = n.ud64⦄) (sym made.book_is) fresh in
      record {
        id_is = made.id_is;
        book_is = add_orders_from_snapshot-Reached n R orders p book;
        funding_is = record {
          rate_is = ap is_some made.rate_is ∙ sym (ap is_some made.block_is);
          payment_is = ap is_some made.payment_is ∙ sym (ap is_some made.block_is);
        };
      }

-- ===== src/Examples/Snapshots.antt =====
-- The book of two asks as a snapshot, and one with a link out of it.
use mathlib.Core.Option
use perpl_dex_sdk.Prelude.{
  pos, true, false, ℕ, ◌≤◌, ◌≡◌, refl, none, some, List, [], ◌∷◌, arith, ok, err, Bool-cases, inl,
  inr,
}
use perpl_dex_sdk.Types.{StateInstant, OrderId, OrderSide, ask, side}
use perpl_dex_sdk.Order.{Order, with_links}
use perpl_dex_sdk.BookError
use perpl_dex_sdk.BookError.{dangling_order_reference}
use perpl_dex_sdk.BookOrder
use perpl_dex_sdk.BookOrder.{BookOrder, set_prev, set_next}
use perpl_dex_sdk.BookLevel
use perpl_dex_sdk.BookLevel.{set_head, set_tail, add_size}
use perpl_dex_sdk.Table
use perpl_dex_sdk.OrderBook
use perpl_dex_sdk.OrderBook.{
  OrderBook, get_order, get_level, get_or_create_level, link_at_tail, modify_linked, modify_order,
  modify_level, insert_order, append_to_level,
}
use perpl_dex_sdk.OrderBook.Ops.{add_order, append_order}
use perpl_dex_sdk.OrderBook.Queue.{total}
use perpl_dex_sdk.OrderBook.Rep.{Rep, nodes, same_level}
use perpl_dex_sdk.OrderBook.Snapshot.{snapshot_node, fault, dangling, add_orders_from_snapshot}
use perpl_dex_sdk.OrderBook.Loading.{over, snapshot_nodes, add_orders_from_snapshot-fault}
use perpl_dex_sdk.OrderBook.Saved.{resaved, add_orders_from_snapshot-saved}
use perpl_dex_sdk.Converters.{from_unsigned, from_unsigned128, from_signed64}
use perpl_dex_sdk.Perpetual.{Perpetual}
use perpl_dex_sdk.Perpetual.Orders.{add_orders_from_snapshot as add_to_contract}
use perpl_dex_sdk.Exchange.Valid.{IsContract}
use perpl_dex_sdk.Snapshot.Contracts.{PerpetualInfo, contract, contract-IsContract}
use perpl_dex_sdk.Examples.Scale.{amounts, scale}
use perpl_dex_sdk.Examples.Books.{ask_of, book2, book2-Rep, queues2, total2}

abbrev first : Order ℕ
first = with_links none (some 2) (ask_of 1 5)

abbrev second : Order ℕ
second = with_links (some 1) none (ask_of 2 7)

abbrev snapshot : List (Order ℕ)
snapshot = second ∷ first ∷ []

snapshot-is :
    (y : OrderId)
    → snapshot_nodes ⦃d = amounts⦄ snapshot y
      ≡ Option.map (resaved ⦃d = amounts⦄) (get_order ⦃d = amounts⦄ y book2)
unfolding OrderBook.new side add_order append_order get_order get_level get_or_create_level
    link_at_tail modify_linked modify_order modify_level insert_order append_to_level Table.get
    Table.insert Table.modify set_prev set_next set_head set_tail add_size BookOrder.new
    BookLevel.new BookLevel.is_empty snapshot_node with_links
snapshot-is y = ground arith

room :
    (s : OrderSide) (k : ℕ)
    → total ⦃d = amounts⦄ (nodes ⦃d = amounts⦄ book2) (queues2 s k) ≤ amounts.cap
room s k = elim (Bool-cases (same_level ask 100 s k)) [
  | inl e ↦ rw e (omega (arith, total2))
  | inr e ↦ rw e (omega arith)
]

add_orders_from_snapshot-saved_example :
    ((add_orders_from_snapshot ⦃d = amounts⦄ snapshot (OrderBook.new ⦃d = amounts⦄)).1 ≡ ok tt)
    × Rep ⦃d = amounts⦄
        (add_orders_from_snapshot ⦃d = amounts⦄ snapshot (OrderBook.new ⦃d = amounts⦄)).0
        queues2
    × ((y : OrderId)
        → get_order ⦃d = amounts⦄ y
            (add_orders_from_snapshot ⦃d = amounts⦄ snapshot (OrderBook.new ⦃d = amounts⦄)).0
          ≡ Option.map (resaved ⦃d = amounts⦄) (get_order ⦃d = amounts⦄ y book2))
unfolding fault dangling with_links
add_orders_from_snapshot-saved_example =
    add_orders_from_snapshot-saved ⦃d = amounts⦄ book2 queues2 snapshot book2-Rep snapshot-is
      (refl, (refl, tt)) (refl, (refl, tt)) room

-- The second order's link leads to an order 3, which the snapshot does not have.
abbrev lost : Order ℕ
lost = with_links (some 3) none (ask_of 2 7)

add_orders_from_snapshot-fault_example :
    ((add_orders_from_snapshot ⦃d = amounts⦄
        (ask_of 1 5 ∷ lost ∷ [])
        (OrderBook.new ⦃d = amounts⦄)).1
      ≡ err (dangling_order_reference 2 3 BookError.prev))
    × ((y : OrderId)
        → get_order ⦃d = amounts⦄ y
            (add_orders_from_snapshot ⦃d = amounts⦄
              (ask_of 1 5 ∷ lost ∷ [])
              (OrderBook.new ⦃d = amounts⦄)).0
          ≡ over ⦃d = amounts⦄
              (nodes ⦃d = amounts⦄ (OrderBook.new ⦃d = amounts⦄))
              (ask_of 1 5 ∷ [])
              y)
    × ((s : OrderSide) (p : ℕ)
        → get_level ⦃d = amounts⦄ s p
            (add_orders_from_snapshot ⦃d = amounts⦄
              (ask_of 1 5 ∷ lost ∷ [])
              (OrderBook.new ⦃d = amounts⦄)).0
          ≡ get_level ⦃d = amounts⦄ s p (OrderBook.new ⦃d = amounts⦄))
unfolding fault dangling with_links
add_orders_from_snapshot-fault_example =
    add_orders_from_snapshot-fault ⦃d = amounts⦄ (ask_of 1 5 ∷ []) lost []
      (dangling_order_reference 2 3 BookError.prev) (OrderBook.new ⦃d = amounts⦄) (refl, tt) refl

-- A contract without funding, as the chain has it, and as it is read.
abbrev info : PerpetualInfo scale
info = record {
  name = "Bitcoin";
  symbol = "BTC";
  price_decimals = 1;
  lot_decimals = 5;
  link_feed_id = 0;
  ref_price_max_age_sec = 60;
  mark_pns = 100;
  mark_timestamp = 10;
  last_pns = 100;
  last_timestamp = 10;
  oracle_pns = 100;
  oracle_timestamp_sec = 10;
  long_open_interest_lns = 4;
  funding_start_block = 7;
  funding_rate_pct100k = pos 3;
  paused = false;
  base_price_pns = 90;
  ign_oracle = false;
}

abbrev now : StateInstant
now = record { block_number = 50; block_timestamp = 500 }

abbrev read_contract : Perpetual scale
read_contract = record {
  instant = now;
  state_instant = now;
  id = 1;
  name = "Bitcoin";
  symbol = "BTC";
  is_paused = false;
  price_converter = record { decimals = 1 };
  size_converter = record { decimals = 5 };
  leverage_converter = record { decimals = 2 };
  fee_converter = record { decimals = 5 };
  funding_rate_converter = record { decimals = 5 };
  base_price = 90;
  maker_fee = 10;
  taker_fee = 20;
  initial_margin = 1000;
  maintenance_margin = 2000;
  last_price = 100;
  last_price_block = none;
  last_price_timestamp = 10;
  mark_price = 100;
  mark_price_block = none;
  mark_price_timestamp = 10;
  oracle_price = 100;
  oracle_price_block = none;
  oracle_price_timestamp = 10;
  prev_funding_rate = pos 3;
  next_funding_rate = none;
  next_funding_payment = none;
  next_funding_event_block = none;
  funding_start_block = 7;
  oracle_feed_id = 0;
  is_oracle_used = true;
  price_max_age_sec = 60;
  l3_book = OrderBook.new ⦃d = amounts⦄;
  open_interest = 4;
}

contract-IsContract_example :
    IsContract scale 1 (add_to_contract scale {R = ℕ} snapshot read_contract).0
unfolding contract from_unsigned from_unsigned128 from_signed64
contract-IsContract_example =
    contract-IsContract scale ℕ now 1 info 10 20 1000 2000 snapshot read_contract refl

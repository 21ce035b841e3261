-- ===== src/BookError.antt =====
-- src/state/l3_book/error.rs
use perpl_dex_sdk.Types.{OrderId, OrderSide}

-- Which link of a snapshot order dangles: the source's `pointer` text.
pub data Pointer : Type 0 where
  prev next : Pointer

pub data OrderBookError (U : Type 0) : Type 0 where
  order_already_exists : (order_id : OrderId) (existing_price : U) → OrderBookError U
  order_not_found : (order_id : OrderId) → OrderBookError U
  order_not_at_expected_level :
      (order_id : OrderId) (expected_price : U) (side : OrderSide) → OrderBookError U
  order_id_mismatch : (expected actual : OrderId) → OrderBookError U
  invalid_order_size : (order_id : OrderId) (size : U) → OrderBookError U
  invalid_order_price : (order_id : OrderId) (price : U) → OrderBookError U
  level_not_found : (price : U) (side : OrderSide) → OrderBookError U
  dangling_order_reference :
      (order_id referenced_id : OrderId) (pointer : Pointer) → OrderBookError U

-- ===== src/DexError.antt =====
-- src/error.rs: the errors of the SDK. `R` is the type of the errors that the contract's interface
-- declares.
use Prim.Native.String.{String}
use perpl_dex_sdk.Prelude.{ℕ}
use perpl_dex_sdk.Types.{PerpetualId, AccountId, OrderId}
use perpl_dex_sdk.BookError.{OrderBookError}

pub data RevertReason (R : Type 0) : Type 0 where
  known : R → RevertReason R
  generic : String → RevertReason R
  unknown : RevertReason R

-- src/state/order.rs
pub data OrderParseError : Type 0 where
  zero_order_id : OrderParseError

pub data DexError (U R : Type 0) : Type 0 where
  fatal : String → DexError U R
  invalid_request : String → DexError U R
  null_resp : DexError U R
  out_of_gas : DexError U R
  reverted : RevertReason R → DexError U R
  transport : String → DexError U R
  timeout : DexError U R
  block_out_of_order : (expected got : ℕ) → DexError U R
  order_context_expected : (tx_index log_index : ℕ) → DexError U R
  order_not_found : PerpetualId → OrderId → DexError U R
  position_not_found : AccountId → PerpetualId → DexError U R
  order_book : OrderBookError U → DexError U R
  order_parse : OrderParseError → DexError U R

-- ===== src/Order.antt =====
-- src/state/order.rs: an order of the book, over any decimal type `U`.
use perpl_dex_sdk.Prelude.{ℕ, Bool, Option, none, unwrap_or}
use perpl_dex_sdk.Types.{StateInstant, RequestId, OrderId, AccountId, OrderType}

pub record Order (U : Type 0) : Type 0 where
  pub instant : StateInstant
  pub request_id : Option RequestId
  pub order_id : OrderId
  pub type : OrderType
  pub account_id : AccountId
  pub price : U
  pub size : U
  pub expiry_block : ℕ
  pub leverage : U
  pub post_only : Option Bool
  pub fill_or_kill : Option Bool
  pub immediate_or_cancel : Option Bool
  pub prev_order_id : Option OrderId
  pub next_order_id : Option OrderId

module _ {U : Type 0} where
  -- `updated`; of the context it reads the request's identifier only.
  unfoldable pub updated :
      StateInstant → Option RequestId → Option U → Option U → Option ℕ → Order U → Order U
  updated instant request_id price size expiry_block o = record o {
    instant = instant;
    request_id = request_id;
    price = unwrap_or price o.price;
    size = unwrap_or size o.size;
    expiry_block = unwrap_or expiry_block o.expiry_block;
  }

  -- An order on an empty slate: `for_l3_testing_with_links`, with `zero` for its leverage.
  unfoldable pub for_l3_testing_with_links :
      U → OrderType → U → U → ℕ → OrderId → AccountId → Option OrderId → Option OrderId → Order U
  for_l3_testing_with_links zero type price size block_number order_id account_id prev next =
      record {
        instant = record { block_number = block_number; block_timestamp = 0 };
        request_id = none;
        order_id = order_id;
        type = type;
        account_id = account_id;
        price = price;
        size = size;
        expiry_block = 0;
        leverage = zero;
        post_only = none;
        fill_or_kill = none;
        immediate_or_cancel = none;
        prev_order_id = prev;
        next_order_id = next;
      }

  unfoldable pub for_l3_testing : U → OrderType → U → U → ℕ → OrderId → AccountId → Order U
  unfolding for_l3_testing_with_links
  for_l3_testing zero type price size block_number order_id account_id =
      for_l3_testing_with_links zero type price size block_number order_id account_id none none

  unfoldable pub with_size : U → Order U → Order U
  with_size size o = record o { size = size }

  unfoldable pub with_price : U → Order U → Order U
  with_price price o = record o { price = price }

  unfoldable pub with_expiry_block : ℕ → Order U → Order U
  with_expiry_block expiry_block o = record o { expiry_block = expiry_block }

  unfoldable pub with_links : Option OrderId → Option OrderId → Order U → Order U
  with_links prev_order_id next_order_id o = record o {
    prev_order_id = prev_order_id;
    next_order_id = next_order_id;
  }

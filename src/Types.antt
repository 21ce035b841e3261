-- ===== src/Types.antt =====
-- src/types: identifiers, instants of the chain, kinds of orders and of requests.
pub mod Requests
use perpl_dex_sdk.Prelude.{
  ℕ, zero, suc, Bool, true, false, ◌&&◌, ◌||◌, Option, none, some, ltb, ◌==◌, if◌then◌else◌,
}

-- `u32`, `u32`, `NonZeroU16` and `u64`, as plain numbers.
abbrev pub PerpetualId : Type 0
PerpetualId = ℕ

abbrev pub AccountId : Type 0
AccountId = ℕ

abbrev pub OrderId : Type 0
OrderId = ℕ

-- `NonZeroU16::new`
abbrev pub nonzero : ℕ → Option ℕ
nonzero zero = none
nonzero (suc m) = some (suc m)

abbrev pub RequestId : Type 0
RequestId = ℕ

pub record StateInstant : Type 0 where
  pub block_number : ℕ
  pub block_timestamp : ℕ

-- The derived order: lexicographic in the order of the fields.
unfoldable pub instant_lt : StateInstant → StateInstant → Bool
instant_lt a b =
    ltb a.block_number b.block_number
    || (a.block_number == b.block_number && ltb a.block_timestamp b.block_timestamp)

-- `a >= b`
unfoldable pub instant_ge : StateInstant → StateInstant → Bool
unfolding instant_lt
instant_ge a b = if instant_lt a b then false else true

pub data OrderSide : Type 0 where
  ask bid : OrderSide

pub data OrderType : Type 0 where
  open_long open_short close_long close_short : OrderType

unfoldable pub side : OrderType → OrderSide
side open_long = bid
side close_short = bid
side open_short = ask
side close_long = ask

-- `OrderType::from(u8)`; `none` is the `unreachable!()` panic.
unfoldable pub order_type_from : ℕ → Option OrderType
order_type_from zero = some open_long
order_type_from (suc zero) = some open_short
order_type_from (suc (suc zero)) = some close_long
order_type_from (suc (suc (suc zero))) = some close_short
order_type_from (suc (suc (suc (suc n)))) = none

pub data RequestType : Type 0 where
  open_long open_short close_long close_short : RequestType
  cancel increase_position_collateral change : RequestType

-- `RequestType::from(u8)`; `none` is the `unreachable!()` panic.
unfoldable pub request_type_from : ℕ → Option RequestType
request_type_from n =
    if n == 0
    then some RequestType.open_long
    else if n == 1
    then some RequestType.open_short
    else if n == 2
    then some RequestType.close_long
    else if n == 3
    then some RequestType.close_short
    else if n == 4
    then some cancel
    else if n == 5
    then some increase_position_collateral
    else if n == 6
    then some change
    else none

-- `self.type as u8`
unfoldable pub request_type_code : RequestType → ℕ
request_type_code RequestType.open_long = 0
request_type_code RequestType.open_short = 1
request_type_code RequestType.close_long = 2
request_type_code RequestType.close_short = 3
request_type_code cancel = 4
request_type_code increase_position_collateral = 5
request_type_code change = 6

unfoldable pub try_side : RequestType → Option OrderSide
try_side RequestType.open_long = some bid
try_side RequestType.close_short = some bid
try_side RequestType.open_short = some ask
try_side RequestType.close_long = some ask
try_side _ = none

-- `OrderType::from(RequestType)`; `none` is the `unreachable!()` panic.
unfoldable pub order_type_of_request : RequestType → Option OrderType
order_type_of_request RequestType.open_long = some OrderType.open_long
order_type_of_request RequestType.open_short = some OrderType.open_short
order_type_of_request RequestType.close_long = some OrderType.close_long
order_type_of_request RequestType.close_short = some OrderType.close_short
order_type_of_request _ = none

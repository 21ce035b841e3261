-- ===== src/Types/Requests.antt =====
-- src/types/request.rs: the codes of request types, and the sides of requests and orders.
use mathlib.Core.Option
use perpl_dex_sdk.Prelude.{◌≡◌, refl, some}
use perpl_dex_sdk.Types.{
  RequestType, request_type_from, request_type_code, try_side, order_type_of_request, side, cancel,
  increase_position_collateral, change,
}

-- Every request type is read back from the code that the contract gets.
pub request_type_from-code : (t : RequestType) → request_type_from (request_type_code t) ≡ some t
unfolding request_type_from request_type_code
request_type_from-code RequestType.open_long = refl
request_type_from-code RequestType.open_short = refl
request_type_from-code RequestType.close_long = refl
request_type_from-code RequestType.close_short = refl
request_type_from-code cancel = refl
request_type_from-code increase_position_collateral = refl
request_type_from-code change = refl

-- A request has a side exactly if it has a type of order, and then the order is on that side.
pub try_side-order : (t : RequestType) → try_side t ≡ Option.map side (order_type_of_request t)
unfolding try_side order_type_of_request side
try_side-order RequestType.open_long = refl
try_side-order RequestType.open_short = refl
try_side-order RequestType.close_long = refl
try_side-order RequestType.close_short = refl
try_side-order cancel = refl
try_side-order increase_position_collateral = refl
try_side-order change = refl

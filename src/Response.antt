-- ===== src/Response.antt =====
-- src/async_hyperliquid/_internal/exchange.py: validation of the exchange's acknowledgements.
pub mod Grammar
mod Statuses
mod Payload
pub mod Validation
pub mod Typed
use async_hyperliquid.Prelude.{
  String, Bool, true, false, not, ◌&&◌, ◌||◌, Option, none, some, List, [], ◌∷◌, if◌then◌else◌,
  string_eq, ◌==◌, nat_eq, is_empty, all, int_eq,
}
use async_hyperliquid.Result.{protocol_error, Result, err, ok}
use async_hyperliquid.Json.{
  JsonValue, null, str, arr, obj, JsonObject, items, member, has_member, is_str, is_int,
  equals_text,
}

pub data ResponseType : Type 0 where
  order cancel twap_order twap_cancel default : ResponseType

abbrev pub type_name : ResponseType → String
type_name order = "order"
type_name cancel = "cancel"
type_name twap_order = "twapOrder"
type_name twap_cancel = "twapCancel"
type_name default = "default"

unfoldable pub is_error_status : JsonValue → Bool
is_error_status (obj o) = has_member "error" o && is_str (member "error" o)
is_error_status _ = false

-- `tuple(key for key in keys if key in value)`
abbrev pub present : List String → JsonObject → List String
present [] o = []
present (k ∷ ks) o = if has_member k o then k ∷ present ks o else present ks o

unfoldable pub is_resting : Option JsonValue → Bool
is_resting (some (obj o)) = has_member "oid" o && is_int (member "oid" o)
is_resting _ = false

unfoldable pub is_filled : Option JsonValue → Bool
is_filled (some (obj o)) =
    all (λ key. has_member key o) ("avgPx" ∷ "oid" ∷ "totalSz" ∷ [])
    && (is_str (member "avgPx" o) && (is_int (member "oid" o) && is_str (member "totalSz" o)))
is_filled _ = false

-- The branches on the only discriminator, `discriminators[0]`.
abbrev pub order_status_of : List String → JsonObject → Bool
order_status_of (key ∷ []) o =
    if key == "error"
    then is_error_status (obj o)
    else if key == "resting"
    then is_resting (member "resting" o)
    else if key == "filled"
    then is_filled (member "filled" o)
    else false
order_status_of _ o = false

unfoldable pub is_order_status : JsonValue → Bool
unfolding is_error_status is_resting
is_order_status (str s) = (s == "waitingForFill") || (s == "waitingForTrigger")
is_order_status (obj o) = order_status_of (present ("error" ∷ "resting" ∷ "filled" ∷ []) o) o
is_order_status _ = false

unfoldable pub is_running : Option JsonValue → Bool
is_running (some (obj o)) = has_member "twapId" o && is_int (member "twapId" o)
is_running _ = false

abbrev pub twap_status_of : List String → JsonObject → Bool
twap_status_of (key ∷ []) o =
    if key == "error" then is_error_status (obj o) else is_running (member "running" o)
twap_status_of _ o = false

unfoldable pub is_twap_order_status : JsonValue → Bool
unfolding is_error_status is_running
is_twap_order_status (obj o) = twap_status_of (present ("error" ∷ "running" ∷ []) o) o
is_twap_order_status _ = false

unfoldable pub is_success : JsonValue → Bool
unfolding is_error_status
is_success v = equals_text (some v) "success" || is_error_status v

-- `statuses = data.get("statuses")`, tested by `valid`
unfoldable pub check_statuses : (JsonValue → Bool) → Option JsonValue → Result Bool
check_statuses valid (some (arr vs)) =
    if is_empty (items vs)
    then err (protocol_error "exchange response has malformed statuses")
    else ok (all valid (items vs))
check_statuses valid _ = err (protocol_error "exchange response has malformed statuses")

-- `twap_status = data.get("status")`; a missing key is `None`, which no test accepts.
abbrev pub check_status : (JsonValue → Bool) → Option JsonValue → Result Bool
check_status valid (some v) = ok (valid v)
check_status valid none = ok (valid null)

unfoldable pub check_data : ResponseType → JsonObject → Result Bool
unfolding is_order_status is_success is_twap_order_status check_statuses
check_data order data_ = check_statuses is_order_status (member "statuses" data_)
check_data cancel data_ = check_statuses is_success (member "statuses" data_)
check_data twap_order data_ = check_status is_twap_order_status (member "status" data_)
check_data twap_cancel data_ = check_status is_success (member "status" data_)
check_data default data_ = ok true

-- What follows the checks of `status` and of the response's type.
unfoldable pub check_acknowledgement : ResponseType → JsonValue → JsonObject → Result JsonValue
unfolding check_data
check_acknowledgement default value response = ok value
check_acknowledgement expected value response = elim (member "data" response) [
  | some (obj data_) ↦ elim (check_data expected data_) [
    | ok true ↦ ok value
    | ok false ↦ err (protocol_error "exchange response has a malformed acknowledgement")
    | err e ↦ err e
  ]
  | _ ↦ err (protocol_error "exchange response has malformed data")
]

unfoldable pub check_ok :
    ResponseType → JsonValue → Option JsonValue → Option JsonValue → Result JsonValue
check_ok expected value status (some (obj response)) =
    if not (equals_text status "ok")
    then err (protocol_error "exchange response has an invalid status")
    else if not (equals_text (member "type" response) (type_name expected))
    then err (protocol_error "exchange response has an unexpected type")
    else check_acknowledgement expected value response
check_ok expected value status _ = err (protocol_error "exchange response has an invalid status")

unfoldable pub expect_action_response : JsonValue → ResponseType → Result JsonValue
unfolding check_ok
expect_action_response (obj o) expected =
    if equals_text (member "status" o) "err"
    then (if is_str (member "response" o)
        then ok (obj o)
        else err (protocol_error "exchange error response must be a string"))
    else check_ok expected (obj o) (member "status" o) (member "response" o)
expect_action_response _ expected = err (protocol_error "exchange response must be an object")

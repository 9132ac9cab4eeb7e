-- ===== src/Response/Grammar.antt =====
-- The acknowledgements of _internal/exchange.py as a grammar, and the validators' agreement with it.
use async_hyperliquid.Prelude.{
  String, ◌≡◌, false, none, some, string_eq, nat_eq, is_empty, All, ℤ, int_eq,
}
use async_hyperliquid.Json.{JsonValue, int, str, arr, obj, JsonList, JsonObject, items, member}
use async_hyperliquid.Response.{
  ResponseType, order, cancel, twap_order, twap_cancel, default, type_name,
}

-- The status of one order: exactly one of `error`, `resting` and `filled`, well formed.
pub data IsOrderStatus : JsonValue → Type 0 where
  waiting_for_fill : IsOrderStatus (str "waitingForFill")
  waiting_for_trigger : IsOrderStatus (str "waitingForTrigger")
  failed :
      (o : JsonObject) (message : String)
      → member "error" o ≡ some (str message)
      → member "resting" o ≡ none
      → member "filled" o ≡ none
      → IsOrderStatus (obj o)
  resting :
      (o r : JsonObject) (oid : ℤ)
      → member "error" o ≡ none
      → member "resting" o ≡ some (obj r)
      → member "filled" o ≡ none
      → member "oid" r ≡ some (int oid)
      → IsOrderStatus (obj o)
  filled :
      (o f : JsonObject) (price size : String) (oid : ℤ)
      → member "error" o ≡ none
      → member "resting" o ≡ none
      → member "filled" o ≡ some (obj f)
      → member "avgPx" f ≡ some (str price)
      → member "oid" f ≡ some (int oid)
      → member "totalSz" f ≡ some (str size)
      → IsOrderStatus (obj o)

pub data IsTwapStatus : JsonValue → Type 0 where
  failed :
      (o : JsonObject) (message : String)
      → member "error" o ≡ some (str message)
      → member "running" o ≡ none
      → IsTwapStatus (obj o)
  running :
      (o r : JsonObject) (twap_id : ℤ)
      → member "error" o ≡ none
      → member "running" o ≡ some (obj r)
      → member "twapId" r ≡ some (int twap_id)
      → IsTwapStatus (obj o)

pub data IsCancelStatus : JsonValue → Type 0 where
  success : IsCancelStatus (str "success")
  failed :
      (o : JsonObject) (message : String)
      → member "error" o ≡ some (str message)
      → IsCancelStatus (obj o)

-- The `data` that each type of response carries.
pub data Carries : ResponseType → JsonObject → Type 0 where
  orders :
      (d : JsonObject) (statuses : JsonList)
      → member "statuses" d ≡ some (arr statuses)
      → is_empty (items statuses) ≡ false
      → All IsOrderStatus (items statuses)
      → Carries order d
  cancels :
      (d : JsonObject) (statuses : JsonList)
      → member "statuses" d ≡ some (arr statuses)
      → is_empty (items statuses) ≡ false
      → All IsCancelStatus (items statuses)
      → Carries cancel d
  twap :
      (d : JsonObject) {status : JsonValue}
      → member "status" d ≡ some status
      → IsTwapStatus status
      → Carries twap_order d
  twap_cancelled :
      (d : JsonObject) {status : JsonValue}
      → member "status" d ≡ some status
      → IsCancelStatus status
      → Carries twap_cancel d

-- The replies that a caller may trust, for each type that it expects.
pub data Conforms (t : ResponseType) : JsonValue → Type 0 where
  refused :
      (o : JsonObject) (message : String)
      → member "status" o ≡ some (str "err")
      → member "response" o ≡ some (str message)
      → Conforms t (obj o)
  done :
      (o r : JsonObject)
      → t ≡ default
      → member "status" o ≡ some (str "ok")
      → member "response" o ≡ some (obj r)
      → member "type" r ≡ some (str "default")
      → Conforms t (obj o)
  acknowledged :
      (o r d : JsonObject)
      → member "status" o ≡ some (str "ok")
      → member "response" o ≡ some (obj r)
      → member "type" r ≡ some (str (type_name t))
      → member "data" r ≡ some (obj d)
      → Carries t d
      → Conforms t (obj o)

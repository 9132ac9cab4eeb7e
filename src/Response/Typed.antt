-- ===== src/Response/Typed.antt =====
-- The accepted replies have the types that types/exchange.py declares for them.
use async_hyperliquid.Prelude.{
  String, ◌≡◌, refl, Bool, true, false, some, List, [], ◌∷◌, string_eq, nat_eq, all, All, int_eq,
}
use async_hyperliquid.Json.{JsonValue, str, obj, JsonObject, items, member}
use async_hyperliquid.Response.{ResponseType, order, cancel, twap_order, twap_cancel, default}
use async_hyperliquid.Response.Grammar.{
  IsOrderStatus, waiting_for_fill, waiting_for_trigger, failed, resting, filled, IsTwapStatus,
  running, IsCancelStatus, success, orders, cancels, twap, twap_cancelled, Conforms, refused, done,
  acknowledged,
}
use async_hyperliquid.Types.{Schema, has_type, has_keys}
use async_hyperliquid.Types.Replies.{
  order_status_type, cancel_status_type, twap_order_status_type, place_order_response_type,
  cancel_order_response_type, place_twap_response_type, cancel_twap_response_type,
  default_action_response_type,
}

-- The type that a method returns which expects a response.
abbrev pub reply_type : ResponseType → Schema
reply_type order = place_order_response_type
reply_type cancel = cancel_order_response_type
reply_type twap_order = place_twap_response_type
reply_type twap_cancel = cancel_twap_response_type
reply_type default = default_action_response_type

order_status-typed : {v : JsonValue} → IsOrderStatus v → has_type false order_status_type v ≡ true
unfolding has_type has_keys
order_status-typed waiting_for_fill = refl
order_status-typed waiting_for_trigger = refl
order_status-typed (failed o message e r f) = rw (r, f, e) refl
order_status-typed (resting o r oid e m f i) = rw (m, i) refl
order_status-typed (filled o f price size oid e r m p i s) = rw (r, m, p, i, s) refl

cancel_status-typed :
    {v : JsonValue} → IsCancelStatus v → has_type false cancel_status_type v ≡ true
unfolding has_type has_keys
cancel_status-typed success = refl
cancel_status-typed (failed o message e) = rw e refl

twap_status-typed :
    {v : JsonValue} → IsTwapStatus v → has_type false twap_order_status_type v ≡ true
unfolding has_type has_keys
twap_status-typed (failed o message e r) = rw (r, e) refl
twap_status-typed (running o r id e m i) = rw (m, i) refl

-- A list of values of one type.
pub all_typed :
    (closed : Bool) (s : Schema) (P : JsonValue → Type 0) (vs : List JsonValue)
    → ((v : JsonValue) → P v → has_type closed s v ≡ true)
    → All P vs
    → all (has_type closed s) vs ≡ true
all_typed closed s P [] h a = refl
all_typed closed s P (v ∷ vs) h a = rw (h v a.0, all_typed closed s P vs h a.1) refl

refused-typed :
    (t : ResponseType) (o : JsonObject) (message : String)
    → member "status" o ≡ some (str "err")
    → member "response" o ≡ some (str message)
    → has_type false (reply_type t) (obj o) ≡ true
unfolding has_type has_keys
refused-typed order o message s m = rw (s, m) refl
refused-typed cancel o message s m = rw (s, m) refl
refused-typed twap_order o message s m = rw (s, m) refl
refused-typed twap_cancel o message s m = rw (s, m) refl
refused-typed default o message s m = rw (s, m) refl

-- Every reply that `expect_action_response` accepts has the type that the method declares which
-- expects it, further keys aside.
pub Conforms-typed :
    {t : ResponseType} {v : JsonValue} → Conforms t v → has_type false (reply_type t) v ≡ true
unfolding has_type has_keys
Conforms-typed {t} (refused o message s m) = refused-typed t o message s m
Conforms-typed (done o r plain s m y) = rw (plain, s, m, y) refl
Conforms-typed (acknowledged o r d s m y at (orders d2 statuses l n each)) =
    rw
      (
        s,
        m,
        y,
        at,
        l,
        all_typed false order_status_type IsOrderStatus (items statuses) (λ v. order_status-typed)
            each,
      )
      refl
Conforms-typed (acknowledged o r d s m y at (cancels d2 statuses l n each)) =
    rw
      (
        s,
        m,
        y,
        at,
        l,
        all_typed false cancel_status_type IsCancelStatus (items statuses)
            (λ v. cancel_status-typed) each,
      )
      refl
Conforms-typed (acknowledged o r d s m y at (twap d2 l each)) =
    rw (s, m, y, at, l, twap_status-typed each) refl
Conforms-typed (acknowledged o r d s m y at (twap_cancelled d2 l each)) =
    rw (s, m, y, at, l, cancel_status-typed each) refl

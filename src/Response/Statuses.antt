-- ===== src/Response/Statuses.antt =====
-- The validators of single statuses accept exactly the statuses of the grammar.
use async_hyperliquid.Prelude.{
  String, ◌≡◌, refl, ap, inl, inr, true, Option, none, some, arith, Bool-cases, string_eq, ◌==◌,
  nat_eq, ℤ, int_eq,
}
use async_hyperliquid.Json.{
  JsonValue, null, bool, int, float, str, arr, obj, JsonObject, member, is_str, is_int, equals_text,
}
use async_hyperliquid.Response.{is_filled, is_order_status, is_twap_order_status, is_success}
use async_hyperliquid.Response.Grammar.{
  IsOrderStatus, waiting_for_fill, waiting_for_trigger, failed, resting, filled, IsTwapStatus,
  running, IsCancelStatus, success,
}

pub equals_text_sound :
    (v : Option JsonValue) (t : String) → equals_text v t ≡ true → v ≡ some (str t)
equals_text_sound (some (str s)) t h = ap (λ u. some (str u)) ((string_eq.is_same_iff s t).0 h)
equals_text_sound none t h = cc
equals_text_sound (some null) t h = cc
equals_text_sound (some _) t h = cc

pub is_int_sound : (v : Option JsonValue) → is_int v ≡ true → (n : ℤ) × (v ≡ some (int n))
is_int_sound (some (int n)) h = (n, refl)
is_int_sound none h = cc
is_int_sound (some null) h = cc
is_int_sound (some _) h = cc

pub is_str_sound : (v : Option JsonValue) → is_str v ≡ true → (s : String) × (v ≡ some (str s))
is_str_sound (some (str s)) h = (s, refl)
is_str_sound none h = cc
is_str_sound (some null) h = cc
is_str_sound (some _) h = cc

filled_members :
    (m : JsonObject)
    → is_filled (some (obj m)) ≡ true
    → (is_str (member "avgPx" m) ≡ true)
      × (is_int (member "oid" m) ≡ true)
      × (is_str (member "totalSz" m) ≡ true)
unfolding is_filled
filled_members m h = ground arith

module _ (o : JsonObject) where
  order_with_error :
      (v : JsonValue)
      → member "error" o ≡ some v
      → member "resting" o ≡ none
      → member "filled" o ≡ none
      → is_order_status (obj o) ≡ true
      → IsOrderStatus (obj o)
  unfolding is_order_status
  order_with_error (str s) e r f h = failed o s e r f
  order_with_error null e r f h = ground arith
  order_with_error _ e r f h = ground arith

  order_with_resting :
      (v : JsonValue)
      → member "error" o ≡ none
      → member "resting" o ≡ some v
      → member "filled" o ≡ none
      → is_order_status (obj o) ≡ true
      → IsOrderStatus (obj o)
  unfolding is_order_status
  order_with_resting (obj m) e r f h =
      let (n, at) = is_int_sound (member "oid" m) (ground arith) in resting o m n e r f at
  order_with_resting null e r f h = ground arith
  order_with_resting _ e r f h = ground arith

  order-filled :
      (v : JsonValue)
      → member "error" o ≡ none
      → member "resting" o ≡ none
      → member "filled" o ≡ some v
      → is_order_status (obj o) ≡ true
      → is_filled (some v) ≡ true
  unfolding is_order_status
  order-filled v e r f h = ground arith

  order_with_filled :
      (v : JsonValue)
      → member "error" o ≡ none
      → member "resting" o ≡ none
      → member "filled" o ≡ some v
      → is_order_status (obj o) ≡ true
      → IsOrderStatus (obj o)
  unfolding is_order_status
  order_with_filled (obj m) e r f h =
      let parts = filled_members m (order-filled (obj m) e r f h) in
      let (price, at_price) = is_str_sound (member "avgPx" m) parts.0 in
      let (n, at_oid) = is_int_sound (member "oid" m) parts.1 in
      let (size, at_size) = is_str_sound (member "totalSz" m) parts.2 in
      filled o m price size n e r f at_price at_oid at_size
  order_with_filled null e r f h = unfold is_filled in cc (order-filled null e r f h)
  order_with_filled (bool b) e r f h = unfold is_filled in cc (order-filled (bool b) e r f h)
  order_with_filled (int n) e r f h = unfold is_filled in cc (order-filled (int n) e r f h)
  order_with_filled (float x) e r f h = unfold is_filled in cc (order-filled (float x) e r f h)
  order_with_filled (str t) e r f h = unfold is_filled in cc (order-filled (str t) e r f h)
  order_with_filled (arr l) e r f h = unfold is_filled in cc (order-filled (arr l) e r f h)

  order_of_members :
      (e r f : Option JsonValue)
      → member "error" o ≡ e
      → member "resting" o ≡ r
      → member "filled" o ≡ f
      → is_order_status (obj o) ≡ true
      → IsOrderStatus (obj o)
  unfolding is_order_status
  order_of_members (some v) none none e r f h = order_with_error v e r f h
  order_of_members none (some v) none e r f h = order_with_resting v e r f h
  order_of_members none none (some v) e r f h = order_with_filled v e r f h
  order_of_members none none none e r f h = ground arith
  order_of_members _ _ _ e r f h = ground arith

  twap_of_members :
      (e r : Option JsonValue)
      → member "error" o ≡ e
      → member "running" o ≡ r
      → is_twap_order_status (obj o) ≡ true
      → IsTwapStatus (obj o)
  unfolding is_twap_order_status
  twap_of_members (some (str s)) none e r h = failed o s e r
  twap_of_members none (some (obj m)) e r h =
      let (n, at) = is_int_sound (member "twapId" m) (ground arith) in running o m n e r at
  twap_of_members none none e r h = ground arith
  twap_of_members none (some null) e r h = ground arith
  twap_of_members none (some _) e r h = ground arith
  twap_of_members (some null) none e r h = ground arith
  twap_of_members (some _) none e r h = ground arith
  twap_of_members (some u) (some v) e r h = ground arith

pub IsOrderStatus-sound : (v : JsonValue) → is_order_status v ≡ true → IsOrderStatus v
unfolding is_order_status
IsOrderStatus-sound (str s) h = elim (Bool-cases (s == "waitingForFill")) [
  | inl same ↦ rw ((string_eq.is_same_iff s "waitingForFill").0 same) waiting_for_fill
  | inr differ ↦
      rw ((string_eq.is_same_iff s "waitingForTrigger").0 (ground arith)) waiting_for_trigger
]
IsOrderStatus-sound (obj o) h =
    order_of_members o (member "error" o) (member "resting" o) (member "filled" o) refl refl refl h
IsOrderStatus-sound null h = cc
IsOrderStatus-sound _ h = cc

pub order_status_complete : {v : JsonValue} → IsOrderStatus v → is_order_status v ≡ true
unfolding is_order_status is_filled
order_status_complete waiting_for_fill = refl
order_status_complete waiting_for_trigger = refl
order_status_complete (failed o s e r f) = ground arith
order_status_complete (resting o m n e r f at) = ground arith
order_status_complete (filled o m p s n e r f ap_ ao as_) = ground arith

pub IsTwapStatus-sound : (v : JsonValue) → is_twap_order_status v ≡ true → IsTwapStatus v
unfolding is_twap_order_status
IsTwapStatus-sound (obj o) h = twap_of_members o (member "error" o) (member "running" o) refl refl h
IsTwapStatus-sound null h = cc
IsTwapStatus-sound _ h = cc

pub twap_status_complete : {v : JsonValue} → IsTwapStatus v → is_twap_order_status v ≡ true
unfolding is_twap_order_status
twap_status_complete (failed o s e r) = ground arith
twap_status_complete (running o m n e r at) = ground arith

pub success_sound : (v : JsonValue) → is_success v ≡ true → IsCancelStatus v
unfolding is_success
success_sound (str s) h = rw ((string_eq.is_same_iff s "success").0 (ground arith)) success
success_sound (obj o) h =
    let (s, at) = is_str_sound (member "error" o) (ground arith) in failed o s at
success_sound null h = cc
success_sound _ h = cc

pub success_complete : {v : JsonValue} → IsCancelStatus v → is_success v ≡ true
unfolding is_success
success_complete success = refl
success_complete (failed o s e) = ground arith

-- ===== src/Response/Payload.antt =====
-- The checks of a response's `data` accept exactly what the grammar lets each type carry.
use async_hyperliquid.Prelude.{
  ◌≡◌, refl, ◌≢◌, inl, inr, Bool, true, false, Option, none, some, List, [], ◌∷◌, arith,
  Option-cases, string_eq, nat_eq, is_empty, all, All, int_eq,
}
use async_hyperliquid.Result.{ok}
use async_hyperliquid.Json.{JsonValue, null, arr, JsonList, JsonObject, items, member}
use async_hyperliquid.Response.{
  ResponseType, order, cancel, twap_order, twap_cancel, default, check_statuses, check_data,
}
use async_hyperliquid.Response.Grammar.{Carries, orders, cancels, twap, twap_cancelled}
use async_hyperliquid.Response.Statuses.{
  IsOrderStatus-sound, order_status_complete, IsTwapStatus-sound, twap_status_complete,
  success_sound, success_complete,
}

module _ {P : JsonValue → Type 0} {test : JsonValue → Bool} where
  all_sound :
      ((v : JsonValue) → test v ≡ true → P v)
      → (vs : List JsonValue) → all test vs ≡ true
      → All P vs
  all_sound sound [] h = tt
  all_sound sound (v ∷ vs) h = (sound v (ground arith), all_sound sound vs (ground arith))

  all_complete :
      ((v : JsonValue) → P v → test v ≡ true)
      → (vs : List JsonValue) → All P vs
      → all test vs ≡ true
  all_complete complete [] h = refl
  all_complete complete (v ∷ vs) h = ground (arith, complete v h.0, all_complete complete vs h.1)

  statuses_sound :
      ((v : JsonValue) → test v ≡ true → P v)
      → (found : Option JsonValue) → check_statuses test found ≡ ok true
      → (l : JsonList) × (found ≡ some (arr l)) × (is_empty (items l) ≡ false) × All P (items l)
  unfolding check_statuses
  statuses_sound sound (some (arr l)) h =
      (l, refl, ground arith, all_sound sound (items l) (ground arith))
  statuses_sound sound none h = cc
  statuses_sound sound (some null) h = cc
  statuses_sound sound (some _) h = cc

  statuses_complete :
      ((v : JsonValue) → P v → test v ≡ true)
      → (l : JsonList) → is_empty (items l) ≡ false
      → All P (items l)
      → check_statuses test (some (arr l)) ≡ ok true
  unfolding check_statuses
  statuses_complete complete l filled_ h = ground (arith, all_complete complete (items l) h)

pub data_sound :
    (t : ResponseType) (d : JsonObject) → t ≢ default → check_data t d ≡ ok true → Carries t d
unfolding check_data
data_sound order d h e =
    let (l, at, some_, each) = statuses_sound IsOrderStatus-sound (member "statuses" d) e in
    orders d l at some_ each
data_sound cancel d h e =
    let (l, at, some_, each) = statuses_sound success_sound (member "statuses" d) e in
    cancels d l at some_ each
data_sound twap_order d h e = elim (Option-cases (member "status" d)) [
  | inl missing ↦ ground arith
  | inr (v, at) ↦ twap d at (IsTwapStatus-sound v (ground arith))
]
data_sound twap_cancel d h e = elim (Option-cases (member "status" d)) [
  | inl missing ↦ ground arith
  | inr (v, at) ↦ twap_cancelled d at (success_sound v (ground arith))
]
data_sound default d h e = absurd (h refl)

pub data_complete : {t : ResponseType} {d : JsonObject} → Carries t d → check_data t d ≡ ok true
unfolding check_data
data_complete (orders d l at some_ each) =
    rw at (statuses_complete (λ v. order_status_complete) l some_ each)
data_complete (cancels d l at some_ each) =
    rw at (statuses_complete (λ v. success_complete) l some_ each)
data_complete (twap d at h) = ground (arith, twap_status_complete h)
data_complete (twap_cancelled d at h) = ground (arith, success_complete h)

-- ===== src/Response/Validation.antt =====
-- `expect_action_response` accepts exactly the replies of the grammar, and returns them unchanged.
use async_hyperliquid.Prelude.{
  String, ◌≡◌, refl, sym, ap, ◌∙◌, ◌≢◌, ◌↔◌, ◌⊎◌, inl, inr, Bool, true, false, Option, none, some,
  arith, Bool-cases, string_eq, beq_refl, nat_eq, int_eq,
}
use async_hyperliquid.Result.{Error, protocol_error, Result, err, ok}
use async_hyperliquid.Json.{JsonValue, null, str, arr, obj, JsonObject, member, equals_text}
use async_hyperliquid.Response.{
  ResponseType, order, cancel, twap_order, twap_cancel, default, type_name, is_order_status,
  is_success, check_statuses, check_data, check_acknowledgement, check_ok, expect_action_response,
}
use async_hyperliquid.Response.Grammar.{
  Carries, orders, cancels, twap, twap_cancelled, Conforms, refused, done, acknowledged,
}
use async_hyperliquid.Response.Statuses.{equals_text_sound, is_str_sound}
use async_hyperliquid.Response.Payload.{data_sound, data_complete}

-- The branch on `response.get("data")`, for the types that carry data.
abbrev check_carried : ResponseType → JsonValue → Option JsonValue → Result JsonValue
check_carried t value (some (obj d)) = elim (check_data t d) [
  | ok true ↦ ok value
  | ok false ↦ err (protocol_error "exchange response has a malformed acknowledgement")
  | err e ↦ err e
]
check_carried t value _ = err (protocol_error "exchange response has malformed data")

acknowledgement-carried :
    (t : ResponseType) (value : JsonValue) (r : JsonObject)
    → t ≢ default
    → check_acknowledgement t value r ≡ check_carried t value (member "data" r)
unfolding check_acknowledgement
acknowledgement-carried default value r h = absurd (h refl)
acknowledgement-carried _ value r h = ground arith

carried_sound :
    (t : ResponseType) (value : JsonValue) (found : Option JsonValue)
    → t ≢ default
    → check_carried t value found ≡ ok value
    → (d : JsonObject) × (found ≡ some (obj d)) × Carries t d
carried_sound t value (some (obj d)) h e = (d, refl, data_sound t d h (ground arith))
carried_sound t value none h e = cc
carried_sound t value (some null) h e = cc
carried_sound t value (some _) h e = cc

default_or_not : (t : ResponseType) → (t ≡ default) ⊎ (t ≢ default)
default_or_not default = inl refl
default_or_not order = inr (λ e. cc)
default_or_not _ = inr (λ e. cc)

ok_sound :
    (t : ResponseType) (value : JsonValue) (status response : Option JsonValue)
    → check_ok t value status response ≡ ok value
    → (r : JsonObject) × (response ≡ some (obj r))
      × (status ≡ some (str "ok"))
      × (member "type" r ≡ some (str (type_name t)))
      × (check_acknowledgement t value r ≡ ok value)
unfolding check_ok
ok_sound t value status (some (obj r)) e = (
  r,
  refl,
  equals_text_sound status "ok" (ground arith),
  equals_text_sound (member "type" r) (type_name t) (ground arith),
  ground arith,
)
ok_sound t value status none e = cc
ok_sound t value status (some null) e = cc
ok_sound t value status (some _) e = cc

module _ (t : ResponseType) (o : JsonObject) where
  acknowledged_sound :
      check_ok t (obj o) (member "status" o) (member "response" o) ≡ ok (obj o) → Conforms t (obj o)
  acknowledged_sound e =
      let (r, m, s, y, c) = ok_sound t (obj o) (member "status" o) (member "response" o) e in
      elim (default_or_not t) [
        | inl plain ↦ done o r plain s m (y ∙ ap (λ u. some (str (type_name u))) plain)
        | inr carrying ↦
            let (d, at, carried) =
              carried_sound t (obj o) (member "data" r) carrying
                (sym (acknowledgement-carried t (obj o) r carrying) ∙ c) in
            acknowledged o r d s m y at carried
      ]

  accepted_sound : expect_action_response (obj o) t ≡ ok (obj o) → Conforms t (obj o)
  unfolding expect_action_response
  accepted_sound e = elim (Bool-cases (equals_text (member "status" o) "err")) [
    | inl refusal ↦
        let (message, at) = is_str_sound (member "response" o) (ground arith) in
        refused o message (equals_text_sound (member "status" o) "err" refusal) at
    | inr other_status ↦ acknowledged_sound (ground arith)
  ]

Carries-not_default : {t : ResponseType} {d : JsonObject} → Carries t d → t ≢ default
Carries-not_default (orders d l at some_ each) e = cc
Carries-not_default (cancels d l at some_ each) e = cc
Carries-not_default (twap d at h) e = cc
Carries-not_default (twap_cancelled d at h) e = cc

carried_accepted :
    (t : ResponseType) (value : JsonValue) (r d : JsonObject)
    → member "data" r ≡ some (obj d)
    → Carries t d
    → check_acknowledgement t value r ≡ ok value
carried_accepted t value r d at carried =
    acknowledgement-carried t value r (Carries-not_default carried)
    ∙ rw at (ground (arith, data_complete carried))

plain_accepted :
    (t : ResponseType) (value : JsonValue) (r : JsonObject)
    → t ≡ default
    → check_acknowledgement t value r ≡ ok value
unfolding check_acknowledgement
plain_accepted t value r plain = rw plain refl

Conforms-accepted :
    {t : ResponseType} {v : JsonValue} → Conforms t v → expect_action_response v t ≡ ok v
unfolding expect_action_response check_ok
Conforms-accepted {t} (refused o message s m) = rw (s, m) refl
Conforms-accepted {t} (done o r plain s m y) =
    rw (s, m, y, plain) (plain_accepted default (obj o) r refl)
Conforms-accepted {t} (acknowledged o r d s m y at carried) =
    rw (s, m, y, beq_refl {B = String} (type_name t)) (carried_accepted t (obj o) r d at carried)

-- A reply is accepted, and then returned unchanged, exactly when it conforms to the grammar of the
-- expected type: an error with a text, a plain success, or a success of that type whose data carries
-- well-formed statuses.
pub accepted_iff_Conforms :
    (v : JsonValue) (t : ResponseType) → (expect_action_response v t ≡ ok v) ↔ Conforms t v
accepted_iff_Conforms v t = (sound v, Conforms-accepted)
  where
    sound : (w : JsonValue) → expect_action_response w t ≡ ok w → Conforms t w
    sound (obj o) e = accepted_sound t o e
    sound null e = unfold expect_action_response in cc e
    sound _ e = unfold expect_action_response in cc e

abbrev pub is_protocol_error : Error → Bool
is_protocol_error (protocol_error message) = true
is_protocol_error _ = false

statuses_error :
    (test : JsonValue → Bool) (found : Option JsonValue) {e : Error}
    → check_statuses test found ≡ err e
    → is_protocol_error e ≡ true
unfolding check_statuses
statuses_error test (some (arr l)) h = ground arith
statuses_error test none h = ground arith
statuses_error test (some null) h = ground arith
statuses_error test (some _) h = ground arith

check_data_error :
    (t : ResponseType) (d : JsonObject) (e : Error)
    → check_data t d ≡ err e
    → is_protocol_error e ≡ true
unfolding check_data
check_data_error order d e h = statuses_error is_order_status (member "statuses" d) h
check_data_error cancel d e h = statuses_error is_success (member "statuses" d) h
check_data_error twap_order d e h = ground arith
check_data_error twap_cancel d e h = ground arith
check_data_error default d e h = cc

carried_outcome :
    (t : ResponseType) (value : JsonValue) (found : Option JsonValue)
    → ((w : JsonValue) → check_carried t value found ≡ ok w → w ≡ value)
      × ((e : Error) → check_carried t value found ≡ err e → is_protocol_error e ≡ true)
carried_outcome t value (some (obj d)) =
    (λ w h. ground arith, λ e h. ground (arith, check_data_error t d e))
carried_outcome t value none = (λ w h. cc, λ e h. ground arith)
carried_outcome t value (some null) = (λ w h. cc, λ e h. ground arith)
carried_outcome t value (some _) = (λ w h. cc, λ e h. ground arith)

module _ (t : ResponseType) (value : JsonValue) (r : JsonObject) where
  acknowledgement_ok : (w : JsonValue) → check_acknowledgement t value r ≡ ok w → w ≡ value
  acknowledgement_ok w h = elim (default_or_not t) [
    | inl plain ↦ cc (plain_accepted t value r plain)
    | inr carrying ↦
        (carried_outcome t value (member "data" r)).0 w
          (sym (acknowledgement-carried t value r carrying) ∙ h)
  ]

  acknowledgement_err :
      (e : Error) → check_acknowledgement t value r ≡ err e → is_protocol_error e ≡ true
  acknowledgement_err e h = elim (default_or_not t) [
    | inl plain ↦ cc (plain_accepted t value r plain)
    | inr carrying ↦
        (carried_outcome t value (member "data" r)).1 e
          (sym (acknowledgement-carried t value r carrying) ∙ h)
  ]

module _ (t : ResponseType) (value : JsonValue) (status : Option JsonValue) where
  ok_outcome :
      (response : Option JsonValue)
      → ((w : JsonValue) → check_ok t value status response ≡ ok w → w ≡ value)
        × ((e : Error) → check_ok t value status response ≡ err e → is_protocol_error e ≡ true)
  unfolding check_ok
  ok_outcome (some (obj r)) = (
    λ w h. ground (arith, acknowledgement_ok t value r w),
    λ e h. ground (arith, acknowledgement_err t value r e),
  )
  ok_outcome none = (λ w h. cc, λ e h. ground arith)
  ok_outcome (some null) = (λ w h. cc, λ e h. ground arith)
  ok_outcome (some _) = (λ w h. cc, λ e h. ground arith)

-- `expect_action_response` returns its argument or raises `ProtocolError`, and nothing else.
pub returns_or_protocol_error :
    (v : JsonValue) (t : ResponseType)
    → ((w : JsonValue) → expect_action_response v t ≡ ok w → w ≡ v)
      × ((e : Error) → expect_action_response v t ≡ err e → is_protocol_error e ≡ true)
unfolding expect_action_response
returns_or_protocol_error (obj o) t =
    let outcome = ok_outcome t (obj o) (member "status" o) (member "response" o) in
    (λ w h. ground (arith, outcome.0 w), λ e h. ground (arith, outcome.1 e))
returns_or_protocol_error null t = (λ w h. cc, λ e h. ground arith)
returns_or_protocol_error _ t = (λ w h. cc, λ e h. ground arith)

-- ===== src/Exchange/Typed.antt =====
-- What the methods of the exchange client post and return, by the types of types/exchange.py: the
-- rules by which a method posts typed envelopes only and returns a reply of its own type.
pub mod Trade
pub mod Transfer
pub mod Account
pub mod Methods
use async_hyperliquid.Prelude.{
  ℕ, String, ◌≡◌, refl, sym, ap, ◌∙◌, ◌⊎◌, inl, inr, Bool, true, false, Option, none, some, List,
  [], ◌∷◌, ◌++◌, string_eq, nat_eq, All, ℤ, pos, int_eq,
}
use async_hyperliquid.Result.{
  Error, http_error, protocol_error, indeterminate_action_error, value_error, runtime_error,
  timeout_error, other, Result, err, ok, or_raise, >>=-eq-ok, ok_injective, Result-cases,
}
use async_hyperliquid.Json.{JsonValue, obj, fields, member}
use async_hyperliquid.World.{Request, Signature, UserSigningSpec, Externals, World}
use async_hyperliquid.World.Exec.{Exec, lift, continue, ◌>>=◌, fail_if}
use async_hyperliquid.Order.{Network, mainnet, testnet, exchange_url}
use async_hyperliquid.Response.{ResponseType, default, expect_action_response}
use async_hyperliquid.Response.Validation.{accepted_iff_Conforms, returns_or_protocol_error}
use async_hyperliquid.Response.Typed.{reply_type, Conforms-typed}
use async_hyperliquid.Transport.{post_json}
use async_hyperliquid.Transport.Lifecycle.{post_json-sends_iff_open}
use async_hyperliquid.Signing.{wire_action, sign_user_action}
use async_hyperliquid.Exchange.{
  Config, Action, envelope, indeterminate, next_nonce, exchange_reply, post_envelope, action_vault,
  submit_action, user_vault, submit_user_action,
}
use async_hyperliquid.Types.{Schema, has_type, has_keys}
use async_hyperliquid.Types.Envelope.{exchange_action_type, action_envelope_type}
use async_hyperliquid.Types.Replies.{default_action_response_type}
use mathlib.Core.List.{append_assoc}

-- The payload of a request is an `ActionEnvelope`, with no other keys.
abbrev pub IsEnvelope : Request → Type 0
IsEnvelope request = has_type true action_envelope_type request.payload ≡ true

abbrev pub IsTypedReply : Schema → Result JsonValue → Type 0
IsTypedReply s (ok v) = has_type false s v ≡ true
IsTypedReply s (err e) = Unit

-- From `w` the requests that went out were envelopes, and a value that is returned has the type `s`.
pub data TypedCall (s : Schema) (w : World) (r : Result JsonValue) (w' : World) : Type 0 where
  typed_call :
      (requests : List Request)
      → All IsEnvelope requests
      → w'.sent ≡ requests ++ w.sent
      → IsTypedReply s r
      → TypedCall s w r w'

pub record IsTyped (s : Schema) (m : Exec JsonValue) : Type 0 where
  pub at : (w : World) → TypedCall s w (m w).0 (m w).1

envelope-typed :
    (action : Action) (signature : Signature) (n : ℤ) (v : Option String) (e : Option ℤ)
    → has_type true exchange_action_type (obj (fields action)) ≡ true
    → has_type true action_envelope_type (envelope action signature n v e) ≡ true
unfolding has_type has_keys envelope member
envelope-typed action signature n none none h = rw h refl
envelope-typed action signature n none (some e) h = rw h refl
envelope-typed action signature n (some v) none h = rw h refl
envelope-typed action signature n (some v) (some e) h = rw h refl

-- What is read of a reply has the expected type.
expected-typed :
    (value : JsonValue) (t : ResponseType)
    → IsTypedReply (reply_type t) (expect_action_response value t)
expected-typed value t = elim (Result-cases (expect_action_response value t)) [
  | inl (v, e) ↦
      let same = (returns_or_protocol_error value t).0 v e in
      rw (e, same)
        (Conforms-typed ((accepted_iff_Conforms value t).0 (e ∙ ap (λ (u : JsonValue). ok u) same)))
  | inr (failure, e) ↦ rw e tt
]

indeterminate-typed :
    (s : Schema) (a : String) (n : ℤ) (r : Result JsonValue)
    → IsTypedReply s r
    → IsTypedReply s (indeterminate a n r)
unfolding indeterminate
indeterminate-typed s a n (ok v) h = h
indeterminate-typed s a n (err timeout_error) h = tt
indeterminate-typed s a n (err (http_error status)) h = tt
indeterminate-typed s a n (err (protocol_error message)) h = tt
indeterminate-typed s a n (err other) h = tt
indeterminate-typed s a n (err (value_error message)) h = tt
indeterminate-typed s a n (err (runtime_error message)) h = tt
indeterminate-typed s a n (err (indeterminate_action_error u m)) h = tt

continue-typed :
    (t : ResponseType) (r : Result JsonValue) (w : World)
    → IsTypedReply (reply_type t) (continue r (λ v. lift (expect_action_response v t)) w).0
      × ((continue r (λ v. lift (expect_action_response v t)) w).1 ≡ w)
unfolding lift
continue-typed t (ok v) w = (expected-typed v t, refl)
continue-typed t (err e) w = (tt, refl)

posted-typed :
    {s : Schema} {w w' : World} {r : Result JsonValue} {url : String} (payload : JsonValue)
    → has_type true action_envelope_type payload ≡ true
    → IsTypedReply s r
    → (w' ≡ record w { sent = record { url = url; payload = payload } ∷ w.sent }) ⊎ (w' ≡ w)
    → TypedCall s w r w'
posted-typed {url = url} payload h typed (inl sent) =
    typed_call (record { url = url; payload = payload } ∷ []) (h, tt)
      (ap (λ (v : World). v.sent) sent) typed
posted-typed payload h typed (inr still) = typed_call [] tt (ap (λ (v : World). v.sent) still) typed

-- Both networks name a chain.
pub by_network : (P : Network → Type 0) → P mainnet → P testnet → (n : Network) → P n
by_network P m t mainnet = m
by_network P m t testnet = t

module _ (x : Externals) (c : Config) where
  exchange_reply-world :
      (payload : JsonValue) (t : ResponseType) (w : World)
      → ((exchange_reply x c payload t w).1
          ≡ record w { sent = record { url = c.exchange_url; payload = payload } ∷ w.sent })
        ⊎ ((exchange_reply x c payload t w).1 ≡ w)
  unfolding exchange_reply ◌>>=◌
  exchange_reply-world payload t w =
      let sent = post_json x c.exchange_url payload w in
      let same = (continue-typed t sent.0 sent.1).1 in
      elim (post_json-sends_iff_open x c.exchange_url payload w) [
        | inl (opened, moved) ↦ inl (same ∙ moved)
        | inr (shut, still, message) ↦ inr (same ∙ still)
      ]

  exchange_reply-typed :
      (payload : JsonValue) (t : ResponseType) (w : World)
      → IsTypedReply (reply_type t) (exchange_reply x c payload t w).0
  unfolding exchange_reply ◌>>=◌
  exchange_reply-typed payload t w =
      let sent = post_json x c.exchange_url payload w in (continue-typed t sent.0 sent.1).0

  pub post_envelope-IsTyped :
      (action : Action) (signature : Signature) (n : ℤ) (t : ResponseType) (v : Option String)
      (e : Option ℤ)
      → has_type true exchange_action_type (obj (fields action)) ≡ true
      → IsTyped (reply_type t) (post_envelope x c action signature n t v e)
  unfolding post_envelope
  post_envelope-IsTyped action signature n t v e h = record {
    at = λ w.
        let payload = envelope action signature n v e in
        posted-typed payload (envelope-typed action signature n v e h)
          (indeterminate-typed _ _ _ _ (exchange_reply-typed payload t w))
          (exchange_reply-world payload t w);
  }

  after_calls :
      {s : Schema} {u v w : World} {r : Result JsonValue}
      → v.sent ≡ u.sent
      → TypedCall s v r w
      → TypedCall s u r w
  after_calls same (typed_call rs h sent typed) =
      typed_call rs h (sent ∙ ap (λ (l : List Request). rs ++ l) same) typed

  pub IsTyped-lift_bind {ℓ} :
      {A : Type ℓ} {s : Schema} (r : Result A) (f : A → Exec JsonValue)
      → ((a : A) → IsTyped s (f a))
      → IsTyped s (lift r >>= f)
  unfolding ◌>>=◌
  IsTyped-lift_bind (ok a) f k = k a
  IsTyped-lift_bind (err e) f k = record { at = λ w. typed_call [] tt refl tt }

  pub IsTyped-lift_eq {ℓ} :
      {A : Type ℓ} {s : Schema} (r : Result A) (f : A → Exec JsonValue)
      → ((a : A) → r ≡ ok a → IsTyped s (f a))
      → IsTyped s (lift r >>= f)
  unfolding ◌>>=◌
  IsTyped-lift_eq (ok a) f k = k a refl
  IsTyped-lift_eq (err e) f k = record { at = λ w. typed_call [] tt refl tt }

  pub IsTyped-fail_if :
      {s : Schema} (b : Bool) (e : Error) (m : Exec JsonValue)
      → IsTyped s m
      → IsTyped s (fail_if b e >>= λ _. m)
  unfolding ◌>>=◌ fail_if
  IsTyped-fail_if false e m k = k
  IsTyped-fail_if true e m k = record { at = λ w. typed_call [] tt refl tt }

  pub IsTyped-next_nonce :
      {s : Schema} (f : ℕ → Exec JsonValue)
      → ((n : ℕ) → IsTyped s (f n))
      → IsTyped s (next_nonce x >>= f)
  unfolding ◌>>=◌ next_nonce
  IsTyped-next_nonce f k = record { at = λ w. after_calls refl ((k _).at _) }

  pub submit_action-IsTyped :
      (action : Action) (t : ResponseType) (e : Option ℤ) (n : Option ℕ)
      → has_type true exchange_action_type (obj (fields action)) ≡ true
      → IsTyped (reply_type t) (submit_action x c action t e n)
  unfolding submit_action ◌>>=◌
  submit_action-IsTyped action t e none h = IsTyped-next_nonce _ (λ k.
      IsTyped-lift_bind _ _ (λ signature.
        post_envelope-IsTyped action signature (pos k) t (action_vault x c action) e h))
  submit_action-IsTyped action t e (some k) h =
      IsTyped-lift_bind _ _ (λ signature.
        post_envelope-IsTyped action signature (pos k) t (action_vault x c action) e h)

  signed_wire :
      (action wire : Action) (spec : UserSigningSpec) (n : Network) (signature : Signature)
      → sign_user_action x action spec n ≡ ok (wire, signature)
      → wire ≡ wire_action n action
  unfolding sign_user_action wire_action
  signed_wire action wire spec n signature h =
      let (signed_, drawn, same) =
        >>=-eq-ok (or_raise (x.sign_typed_data spec (fields (wire_action n action))) other) _ h in
      ap (λ (p : Action × Signature). p.0) (ok_injective (sym same))

  -- The wire action of a user-signed action names the chain.
  pub IsTyped-sign_user_action :
      {s : Schema} (action : Action) (spec : UserSigningSpec)
      (f : Action × Signature → Exec JsonValue)
      → ((signature : Signature) → IsTyped s (f (wire_action c.network action, signature)))
      → IsTyped s (lift (sign_user_action x action spec c.network) >>= f)
  IsTyped-sign_user_action {s} action spec f k =
      IsTyped-lift_eq (sign_user_action x action spec c.network) f
        (λ signed_ h. rw (signed_wire action signed_.0 spec c.network signed_.1 h) (k signed_.1))

  pub submit_user_action-IsTyped :
      (action : Action) (spec : UserSigningSpec) (n : ℕ)
      → has_type true exchange_action_type (obj (fields (wire_action c.network action))) ≡ true
      → IsTyped default_action_response_type (submit_user_action x c action spec n)
  unfolding submit_user_action
  submit_user_action-IsTyped action spec n h = IsTyped-sign_user_action action spec _ (λ signature.
      post_envelope-IsTyped _ signature (pos n) default (user_vault x c action) none h)

module _ (x : Externals) (c : Config) where
  pub sends :
      (a : Action) (s : UserSigningSpec) (n : ℕ)
      → has_type true exchange_action_type (obj (fields (wire_action mainnet a))) ≡ true
      → has_type true exchange_action_type (obj (fields (wire_action testnet a))) ≡ true
      → IsTyped default_action_response_type (submit_user_action x c a s n)
  sends a s n h k = submit_user_action-IsTyped x c a s n (
      by_network
        (λ (m : Network).
          has_type true exchange_action_type (obj (fields (wire_action m a))) ≡ true)
        h k c.network)

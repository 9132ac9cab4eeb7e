-- ===== src/Exchange/Posting.antt =====
-- The effect of posting an envelope, and of the two ways to submit a signed action.
use async_hyperliquid.Prelude.{
  ℕ, ◌≤◌, ◌<◌, String, ◌≡◌, refl, inl, inr, Bool, true, false, Option, none, some, ◌∷◌, arith,
  Bool-cases, string_eq, beq_refl, nat_eq, length, ℤ, pos, int_eq,
}
use async_hyperliquid.Result.{
  Error, http_error, protocol_error, indeterminate_action_error, value_error, runtime_error,
  timeout_error, other, Result, err, ok, or_raise, Result-cases,
}
use async_hyperliquid.Json.{JsonValue, JsonObject, member}
use async_hyperliquid.World.{
  Request, Body, json, malformed_json, HttpOutcome, response, Signature, UserSigningSpec, Externals,
  World,
}
use async_hyperliquid.World.Exec.{lift, continue, ◌>>=◌, fail_if}
use async_hyperliquid.Order.{Network}
use async_hyperliquid.Response.{ResponseType, default, expect_action_response}
use async_hyperliquid.Response.Validation.{is_protocol_error, returns_or_protocol_error}
use async_hyperliquid.Transport.{read_outcome, is_open, has_live_session, post, post_json}
use async_hyperliquid.Signing.{sign_exchange_action, sign_user_action}
use async_hyperliquid.Exchange.{
  Config, Action, action_type, envelope, indeterminate, post_envelope, action_vault, submit_action,
  user_vault, submit_user_action,
}
use async_hyperliquid.Exchange.Effects.{
  nonce_of, ends_after_post, is_indeterminate, Effect, quiet, posted, Submits, Sends, IsPlain,
  Sends-lift_bind, Submits-next_nonce,
}

-- What reading the exchange's reply may raise.
abbrev is_reply_error : Error → Bool
is_reply_error timeout_error = true
is_reply_error (http_error status) = true
is_reply_error (protocol_error message) = true
is_reply_error other = true
is_reply_error _ = false

abbrev is_reply : Result JsonValue → Bool
is_reply (ok v) = true
is_reply (err e) = is_reply_error e

outcome-is_reply : (o : HttpOutcome) → is_reply (read_outcome o) ≡ true
unfolding read_outcome
outcome-is_reply (response status (json v)) = ground arith
outcome-is_reply (response status malformed_json) = ground arith
outcome-is_reply (response status Body.timed_out) = ground arith
outcome-is_reply (response status Body.client_error) = ground arith
outcome-is_reply (response status Body.raised) = ground arith
outcome-is_reply HttpOutcome.timed_out = refl
outcome-is_reply HttpOutcome.client_error = refl
outcome-is_reply HttpOutcome.raised = refl

protocol_reply : (e : Error) → is_protocol_error e ≡ true → is_reply_error e ≡ true
protocol_reply (protocol_error message) h = refl
protocol_reply timeout_error h = cc
protocol_reply _ h = cc

expected-is_reply :
    (v : JsonValue) (t : ResponseType) → is_reply (expect_action_response v t) ≡ true
expected-is_reply v t = elim (Result-cases (expect_action_response v t)) [
  | inl (w, e) ↦ rw e refl
  | inr (e, raised_) ↦ rw raised_ (protocol_reply e ((returns_or_protocol_error v t).1 e raised_))
]

indeterminate-ends :
    (t : String) (n : ℤ) (r : Result JsonValue)
    → is_reply r ≡ true
    → ends_after_post n (indeterminate t n r) ≡ true
unfolding indeterminate
indeterminate-ends t n (ok v) h = refl
indeterminate-ends t n (err timeout_error) h = beq_refl {B = ℤ} n
indeterminate-ends t n (err (http_error status)) h = beq_refl {B = ℤ} n
indeterminate-ends t n (err (protocol_error message)) h = beq_refl {B = ℤ} n
indeterminate-ends t n (err other) h = refl
indeterminate-ends t n (err (value_error message)) h = cc
indeterminate-ends t n (err (runtime_error message)) h = cc
indeterminate-ends t n (err (indeterminate_action_error u m)) h = cc

nonce_of-envelope :
    (action : Action) (signature : Signature) (n : ℤ) (v : Option String) (e : Option ℤ)
    → nonce_of (envelope action signature n v e) ≡ some n
unfolding nonce_of envelope member
nonce_of-envelope action signature n v e = refl

module _ (x : Externals) (c : Config) where
  continue_expected-is_reply :
      (t : ResponseType) (r : Result JsonValue) (w : World)
      → is_reply r ≡ true
      → is_reply (continue r (λ v. lift (expect_action_response v t)) w).0 ≡ true
  unfolding lift
  continue_expected-is_reply t (ok v) w h = expected-is_reply v t
  continue_expected-is_reply t (err e) w h = h

  continue_expected-world :
      (t : ResponseType) (r : Result JsonValue) (w : World)
      → (continue r (λ v. lift (expect_action_response v t)) w).1 ≡ w
  unfolding lift
  continue_expected-world t (ok v) w = refl
  continue_expected-world t (err e) w = refl

  post_envelope-Effect :
      (action : Action) (signature : Signature) (n : ℕ) (t : ResponseType) (v : Option String)
      (e : Option ℤ) (floor : ℕ) (w : World)
      → floor < n
      → n ≤ w.last_nonce
      → let (r, w') = post_envelope x c action signature (pos n) t v e w in Effect c floor w r w'
  unfolding post_envelope post_json post fail_if ◌>>=◌
  post_envelope-Effect action signature n t v e floor w above below =
      elim (Bool-cases (is_open w.transport.state)) [
        | inr shut ↦ rw shut (quiet refl refl refl (omega arith))
        | inl opened ↦ elim (Bool-cases (has_live_session w.transport.session)) [
          | inr dead ↦ rw (opened, dead) (quiet refl refl refl (omega arith))
          | inl live ↦
              let request : Request = record {
                url = c.exchange_url;
                payload = envelope action signature (pos n) v e;
              } in
              let w' : World = record w { sent = request ∷ w.sent } in
              let reply = read_outcome (x.outcome (length w.sent) request) in
              rw (opened, live, continue_expected-world t reply w')
                (posted n request
                  (indeterminate-ends (action_type action) (pos n) _ (
                    continue_expected-is_reply t reply w'
                      (outcome-is_reply (x.outcome (length w.sent) request))))
                  refl refl (nonce_of-envelope action signature (pos n) v e) refl above below
                  (omega arith))
        ]
      ]

  pub post_envelope-Sends :
      (action : Action) (signature : Signature) (n : ℕ) (t : ResponseType) (v : Option String)
      (e : Option ℤ)
      → Sends c n (post_envelope x c action signature (pos n) t v e)
  post_envelope-Sends action signature n t v e = record {
    at = λ floor w above drawn.
        post_envelope-Effect action signature n t v e floor w above (omega arith);
  }

  or_raise-IsPlain :
      {A : Type 0} (o : Option A) (e : Error) → is_indeterminate e ≡ false → IsPlain (or_raise o e)
  or_raise-IsPlain (some a) e h = record { at = λ e' r. cc }
  or_raise-IsPlain none e h = record { at = λ e' r. ground arith }

  sign_exchange_action-IsPlain :
      (action : JsonObject) (v : Option String) (n : ℤ) (s : String) (e : Option ℤ)
      → IsPlain (sign_exchange_action x action v n s e)
  unfolding sign_exchange_action
  sign_exchange_action-IsPlain action v n s e = record { at = λ e' r. ground arith }

  pub sign_user_action-IsPlain :
      (action : Action) (spec : UserSigningSpec) (n : Network)
      → IsPlain (sign_user_action x action spec n)
  unfolding sign_user_action
  sign_user_action-IsPlain action spec n = record { at = λ e' r. ground arith }

  pub submit_action-Sends :
      (action : Action) (t : ResponseType) (e : Option ℤ) (n : ℕ)
      → Sends c n (submit_action x c action t e (some n))
  unfolding submit_action ◌>>=◌
  submit_action-Sends action t e n =
      Sends-lift_bind n _ _ (sign_exchange_action-IsPlain _ _ _ _ _)
        (λ signature. post_envelope-Sends action signature n t (action_vault x c action) e)

  pub submit_action-Submits :
      (action : Action) (t : ResponseType) (e : Option ℤ)
      → Submits c (submit_action x c action t e none)
  unfolding submit_action
  submit_action-Submits action t e = Submits-next_nonce x _ (λ n.
      Sends-lift_bind n _ _ (sign_exchange_action-IsPlain _ _ _ _ _)
        (λ signature. post_envelope-Sends action signature n t (action_vault x c action) e))

  pub submit_user_action-Sends :
      (action : Action) (spec : UserSigningSpec) (n : ℕ)
      → Sends c n (submit_user_action x c action spec n)
  unfolding submit_user_action
  submit_user_action-Sends action spec n =
      Sends-lift_bind n _ _ (sign_user_action-IsPlain action spec c.network)
        (λ signed_. post_envelope-Sends signed_.0 signed_.1 n default (user_vault x c action) none)

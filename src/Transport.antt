-- ===== src/Transport.antt =====
-- src/async_hyperliquid/_internal/http.py: the transport's life cycle and its one request method.
-- Logging is left out. The endpoint check takes `urlsplit` as it is given.
pub mod Lifecycle
use async_hyperliquid.Prelude.{
  String, Bool, true, false, not, ◌&&◌, ◌||◌, Option, none, some, [], ◌∷◌, ltb, leb, if◌then◌else◌,
  string_eq, ◌==◌, nat_eq, length, any, pos, int_eq,
}
use async_hyperliquid.Result.{
  Error, http_error, protocol_error, value_error, runtime_error, timeout_error, other, Result, err,
  ok, raise_if,
}
use async_hyperliquid.Float.{Float, is_finite, is_at_most_zero, of_int}
use async_hyperliquid.Json.{JsonValue}
use async_hyperliquid.World.{
  ClientSession, TransportState, new, open_, closed, ClientTimeout, HttpTransport, Request, Body,
  json, malformed_json, timed_out, client_error, raised, HttpOutcome, response, Externals,
}
use async_hyperliquid.World.Exec.{Exec, pure, raise, gets, modify, ◌>>=◌, ◌>>◌, fail_if}

unfoldable pub validate_endpoint_url : Externals → String → Result String
validate_endpoint_url x url = elim (x.urlsplit url) [
  | some (scheme, some host) ↦
      if (scheme == "http") || (scheme == "https") then ok url else err invalid
  | some (scheme, none) ↦ err invalid
  | none ↦ err invalid
]
  where
    invalid : Error
    invalid = value_error "endpoint URL must be an absolute HTTP(S) URL"

-- `value is not None and (not math.isfinite(value) or value <= 0)`
abbrev pub is_bad_budget : Option Float → Bool
is_bad_budget none = false
is_bad_budget (some value) = not (is_finite value) || is_at_most_zero value

unfoldable pub validate_timeout : ClientTimeout → Result (Unit {0})
validate_timeout timeout =
    let total_is_missing : Bool = elim timeout.total [ none ↦ true | some t ↦ false ] in
    raise_if
      (total_is_missing
        || (is_bad_budget timeout.total
            || any is_bad_budget (timeout.connect ∷ timeout.sock_connect ∷ timeout.sock_read ∷ [])))
      (value_error "timeout budgets must be finite and greater than zero")

-- `ClientTimeout(total=15, connect=3, sock_read=10)`
abbrev pub default_timeout : ClientTimeout
default_timeout = record {
  total = some (of_int (pos 15));
  connect = some (of_int (pos 3));
  sock_connect = none;
  sock_read = some (of_int (pos 10));
}

-- `_HttpTransport.__init__`
unfoldable pub new_transport : Option ClientSession → Option ClientTimeout → Result HttpTransport
unfolding validate_timeout
new_transport session timeout =
    let resolved : ClientTimeout = elim timeout [ none ↦ default_timeout | some t ↦ t ] in
    let made : HttpTransport = record {
      session = session;
      timeout = resolved;
      owns_session = elim session [ none ↦ true | some s ↦ false ];
      state = new;
    } in
    elim (validate_timeout resolved) [ ok _ ↦ ok made | err e ↦ err e ]

abbrev pub set_transport : HttpTransport → Exec (Unit {0})
set_transport t = modify (λ w. record w { transport = t })

abbrev pub fresh_session : ClientSession
fresh_session = record { closed = false }

abbrev open_new : HttpTransport → Option ClientSession → Exec (Unit {0})
open_new t none = set_transport (record t { session = some fresh_session; state = open_ })
open_new t (some session) =
    if session.closed
    then raise (runtime_error "borrowed session is closed")
    else set_transport (record t { state = open_ })

abbrev open_in : HttpTransport → TransportState → Exec (Unit {0})
open_in t closed = raise (runtime_error "transport is closed")
open_in t open_ = pure tt
open_in t new = open_new t t.session

unfoldable pub open_transport : Exec (Unit {0})
open_transport w = open_in w.transport w.transport.state w

-- How `await session.close()` ends: it returns, or it is interrupted by an exception such as a
-- cancellation, with the session already closed or not.
pub data CloseEnd : Type 0 where
  completes : CloseEnd
  interrupted : Bool → CloseEnd

-- `await session.close()` of a session that the transport made, and what follows it
abbrev pub close_own : HttpTransport → ClientSession → CloseEnd → Exec (Unit {0})
close_own t session completes =
    set_transport (record t { session = some (record { closed = true }); state = closed })
close_own t session (interrupted is_closed) = do
  set_transport (record t { session = some (record { closed = session.closed || is_closed }) })
  raise other

abbrev pub close_session : HttpTransport → Bool → Option ClientSession → CloseEnd → Exec (Unit {0})
close_session t true (some session) how = close_own t session how
close_session t true none how = set_transport (record t { state = closed })
close_session t false session how = set_transport (record t { state = closed })

abbrev pub close_in : HttpTransport → TransportState → CloseEnd → Exec (Unit {0})
close_in t closed how = pure tt
close_in t new how = close_session t t.owns_session t.session how
close_in t open_ how = close_session t t.owns_session t.session how

unfoldable pub close_transport : CloseEnd → Exec (Unit {0})
close_transport how w = close_in w.transport w.transport.state how w

-- The `async with session.post(...)` block and its handlers.
unfoldable pub read_outcome : HttpOutcome → Result JsonValue
read_outcome (response status (json v)) =
    if leb 200 status && ltb status 300 then ok v else err (http_error (some status))
read_outcome (response status malformed_json) =
    if leb 200 status && ltb status 300
    then err (protocol_error "response is not valid JSON")
    else err (http_error (some status))
read_outcome (response status Body.timed_out) =
    if leb 200 status && ltb status 300 then err timeout_error else err (http_error (some status))
read_outcome (response status Body.client_error) =
    if leb 200 status && ltb status 300
    then err (http_error none)
    else err (http_error (some status))
read_outcome (response status Body.raised) =
    if leb 200 status && ltb status 300 then err other else err (http_error (some status))
read_outcome HttpOutcome.timed_out = err timeout_error
read_outcome HttpOutcome.client_error = err (http_error none)
read_outcome HttpOutcome.raised = err other

abbrev pub is_open : TransportState → Bool
is_open open_ = true
is_open new = false
is_open closed = false

abbrev pub has_live_session : Option ClientSession → Bool
has_live_session (some session) = not session.closed
has_live_session none = false

module _ (x : Externals) where
  -- One request goes out, and its outcome is read.
  unfoldable pub post : Request → Exec JsonValue
  unfolding read_outcome
  post request w =
      (read_outcome (x.outcome (length w.sent) request), record w { sent = request ∷ w.sent })

  unfoldable pub post_json : String → JsonValue → Exec JsonValue
  unfolding post
  post_json url payload = do
    fail_if (not (is_open (← gets (λ w. w.transport.state))))
        (runtime_error "transport is not open")
    fail_if (not (has_live_session (← gets (λ w. w.transport.session))))
        (runtime_error "transport session is closed")
    post (record { url = url; payload = payload })

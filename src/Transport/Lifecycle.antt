-- ===== src/Transport/Lifecycle.antt =====
-- src/async_hyperliquid/_internal/http.py: the life of the transport over any sequence of `open`,
-- `close` and `post_json`.
use async_hyperliquid.Prelude.{
  String, ◌≡◌, refl, ◌⊎◌, inl, inr, Bool, true, false, not, ◌&&◌, Option, none, some, List, [], ◌∷◌,
  arith, Bool-cases,
}
use async_hyperliquid.Result.{runtime_error, other, err, ok}
use async_hyperliquid.Json.{JsonValue}
use async_hyperliquid.World.{
  ClientSession, TransportState, new, open_, closed, HttpTransport, Externals, World,
}
use async_hyperliquid.World.Exec.{◌>>=◌, fail_if}
use async_hyperliquid.Transport.{
  open_transport, CloseEnd, completes, interrupted, close_transport, is_open, has_live_session,
  post, post_json,
}

pub data TransportStep : Type 0 where
  opening : TransportStep
  closing : CloseEnd → TransportStep
  posting : String → JsonValue → TransportStep

unfoldable pub step : Externals → TransportStep → World → World
step x opening w = (open_transport w).1
step x (closing how) w = (close_transport how w).1
step x (posting url payload) w = (post_json x url payload w).1

unfoldable pub steps : Externals → List TransportStep → World → World
steps x [] w = w
steps x (s ∷ ss) w = steps x ss (step x s w)

abbrev is_none : Option ClientSession → Bool
is_none none = true
is_none (some session) = false

-- What the methods of the transport keep: an open transport has a session; a session that the
-- transport made is live only while the transport is open. (An interrupted `close` may have closed it.)
unfoldable pub is_sound : TransportState → Bool → Option ClientSession → Bool
is_sound new true session = is_none session
is_sound new false session = not (is_none session)
is_sound open_ true session = not (is_none session)
is_sound open_ false session = not (is_none session)
is_sound closed true session = not (has_live_session session)
is_sound closed false session = not (is_none session)

abbrev pub IsSound : HttpTransport → Type 0
IsSound t = is_sound t.state t.owns_session t.session ≡ true

module _ (x : Externals) where
  post_json-transport :
      (url : String) (payload : JsonValue) (w : World)
      → (post_json x url payload w).1.transport ≡ w.transport
  unfolding post_json post fail_if ◌>>=◌
  post_json-transport url payload w = ground arith

  post_json-shut :
      (url : String) (payload : JsonValue) (w : World)
      → w.transport.state ≡ closed
      → (post_json x url payload w).1 ≡ w
  unfolding post_json post fail_if ◌>>=◌
  post_json-shut url payload w h = rw h refl

  step-shut : (s : TransportStep) (w : World) → w.transport.state ≡ closed → step x s w ≡ w
  unfolding step open_transport close_transport ◌>>=◌
  step-shut opening w h = ground arith
  step-shut (closing how) w h = ground arith
  step-shut (posting url payload) w h = post_json-shut url payload w h

  -- A closed transport stays closed and sends nothing: no sequence of `open`, `close` and
  -- `post_json` changes anything from then on.
  pub steps-closed :
      (ss : List TransportStep) (w : World) → w.transport.state ≡ closed → steps x ss w ≡ w
  unfolding steps
  steps-closed [] w h = refl
  steps-closed (s ∷ ss) w h = rw (step-shut s w h) (steps-closed ss w h)

  -- What `post_json` needs to send: when the transport is open on a session that is not closed, one
  -- request goes out with the payload; otherwise nothing changes and a `RuntimeError` is raised.
  pub post_json-sends_iff_open :
      (url : String) (payload : JsonValue) (w : World)
      → ((is_open w.transport.state && has_live_session w.transport.session ≡ true)
          × ((post_json x url payload w).1
              ≡ record w { sent = record { url = url; payload = payload } ∷ w.sent }))
        ⊎ ((is_open w.transport.state && has_live_session w.transport.session ≡ false)
            × ((post_json x url payload w).1 ≡ w)
            × ((message : String) × ((post_json x url payload w).0 ≡ err (runtime_error message))))
  unfolding post_json post fail_if ◌>>=◌
  post_json-sends_iff_open url payload w = elim (Bool-cases (is_open w.transport.state)) [
    | inr shut ↦ inr (rw shut refl, rw shut refl, ("transport is not open", rw shut refl))
    | inl opened ↦ elim (Bool-cases (has_live_session w.transport.session)) [
      | inr dead ↦ inr (
        rw (opened, dead) refl,
        rw (opened, dead) refl,
        ("transport session is closed", rw (opened, dead) refl),
      )
      | inl live ↦ inl (rw (opened, live) refl, rw (opened, live) refl)
    ]
  ]

  opening-keeps : (w : World) → IsSound w.transport → IsSound (open_transport w).1.transport
  unfolding is_sound open_transport ◌>>=◌
  opening-keeps w h = ground arith

  closing-keeps :
      (how : CloseEnd) (w : World)
      → IsSound w.transport
      → IsSound (close_transport how w).1.transport
  unfolding is_sound close_transport ◌>>=◌
  closing-keeps completes w h = ground arith
  closing-keeps (interrupted b) w h = ground arith

  steps-keep :
      (ss : List TransportStep) (w : World) → IsSound w.transport → IsSound (steps x ss w).transport
  unfolding steps step
  steps-keep [] w h = h
  steps-keep (opening ∷ ss) w h = steps-keep ss (open_transport w).1 (opening-keeps w h)
  steps-keep (closing how ∷ ss) w h =
      steps-keep ss (close_transport how w).1 (closing-keeps how w h)
  steps-keep (posting url payload ∷ ss) w h =
      steps-keep ss (post_json x url payload w).1 (rw (post_json-transport url payload w) h)

-- A `close` that returns has closed the transport, and no session that it made is live. One that raises
-- leaves the state, so that it can be tried again.
abbrev pub ClosesOrStays : CloseEnd → World → Type 0
ClosesOrStays how w =
    (((close_transport how w).0 ≡ ok tt)
      × ((close_transport how w).1.transport.state ≡ closed)
      × ((w.transport.owns_session && has_live_session (close_transport how w).1.transport.session)
          ≡ false))
    ⊎ (((close_transport how w).0 ≡ err other)
        × ((close_transport how w).1.transport.state ≡ w.transport.state))

close-ClosesOrStays : (how : CloseEnd) (w : World) → IsSound w.transport → ClosesOrStays how w
unfolding close_transport is_sound ◌>>=◌
close-ClosesOrStays completes w h = inl (ground arith, ground arith, ground arith)
close-ClosesOrStays (interrupted b) w h = ground arith

module _ (x : Externals) where
  -- After every sequence of `open`, `close` and `post_json` from a transport as `__init__` makes it, where
  -- a `close` may be interrupted: an open transport has a session, a session that the transport made is
  -- live only while it is open, and a borrowed session is never dropped. A further `close` that returns
  -- has closed the transport and left no session of its own live; one that is interrupted leaves the
  -- state as it was.
  pub steps-IsSound :
      (ss : List TransportStep) (how : CloseEnd) (w : World)
      → IsSound w.transport
      → IsSound (steps x ss w).transport × ClosesOrStays how (steps x ss w)
  steps-IsSound ss how w h =
      let sound = steps-keep x ss w h in (sound, close-ClosesOrStays how (steps x ss w) sound)

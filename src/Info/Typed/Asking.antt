-- ===== src/Info/Typed/Asking.antt =====
-- An endpoint of info.py when the reply arrives: it returns what was received.
use async_hyperliquid.Prelude.{String, ◌≡◌, refl, true, List, length}
use async_hyperliquid.Result.{Result, ok}
use async_hyperliquid.Json.{JsonValue}
use async_hyperliquid.World.{Request, json, response, Externals, World}
use async_hyperliquid.World.Exec.{Exec, pure, ◌>>=◌, fail_if}
use async_hyperliquid.Transport.{read_outcome, is_open, has_live_session, post, post_json}
use async_hyperliquid.Info.Client.{InfoClient, query, ask, ask_for}
use async_hyperliquid.Info.Typed.{Reads, reads}

-- What a method returns, as the JSON value that it stands for.
abbrev pub returned {ℓ} : {A : Type ℓ} → (A → JsonValue) → Exec A → Exec JsonValue
returned to_json m = do a ← m; pure (to_json a)

-- The transport is open on a live session, and the next request is answered by `v` with a status of
-- 200.
pub record Answers (x : Externals) (w : World) (v : JsonValue) : Type 0 where
  pub open_state : is_open w.transport.state ≡ true
  pub live_session : has_live_session w.transport.session ≡ true
  pub reply : (request : Request) → x.outcome (length w.sent) request ≡ response 200 (json v)

module _ (x : Externals) (i : InfoClient) (w : World) (v : JsonValue) (a : Answers x w v) where
  ask-answered : (payload : JsonValue) → (ask x i payload w).0 ≡ ok v
  unfolding ask post_json post fail_if ◌>>=◌ read_outcome
  ask-answered payload =
      rw (a.open_state, a.live_session, a.reply (record { url = i.info_url; payload = payload }))
        refl

  module _ {ℓ} {A : Type ℓ} (read : JsonValue → String → Result A) where
    pub ask_for-answered :
        (t : String) (rest : List (String × JsonValue)) (r : A)
        → read v t ≡ ok r
        → (ask_for x i read t rest w).0 ≡ ok r
    unfolding ask_for ◌>>=◌
    ask_for-answered t rest r e = rw (ask-answered (query t rest), e) refl

    -- A reply that the reader accepts is returned.
    pub fetched :
        (to_json : A → JsonValue) (t : String) (rest : List (String × JsonValue))
        → Reads read to_json v
        → (returned to_json (ask_for x i read t rest) w).0 ≡ ok v
    unfolding ◌>>=◌
    fetched to_json t rest (reads r e same) = rw (ask_for-answered t rest r (e t), same) refl

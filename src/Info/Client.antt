-- ===== src/Info/Client.antt =====
-- src/async_hyperliquid/info.py: the info client, its life and its one way to ask. The metadata that it
-- caches is a field of the world.
use async_hyperliquid.Order.{info_url as network_info_url}
use async_hyperliquid.Prelude.{
  String, Bool, true, false, Option, none, some, List, [], ◌∷◌, if◌then◌else◌, ℤ,
}
use async_hyperliquid.Result.{Result, err, ok}
use async_hyperliquid.Json.{JsonValue, int, str, obj, fields}
use async_hyperliquid.Order.{Network}
use async_hyperliquid.World.{ClientSession, ClientTimeout, HttpTransport, Externals}
use async_hyperliquid.World.Exec.{Exec, pure, lift, ◌>>=◌}
use async_hyperliquid.Transport.{
  validate_endpoint_url, new_transport, open_transport, CloseEnd, close_transport, post_json,
}

-- The attributes of `InfoClient` that never change.
pub record InfoClient : Type 0 where
  pub info_url : String
  pub owns_transport : Bool

-- `_configure`, which also starts with no metadata
unfoldable pub configure : Externals → String → Bool → Result InfoClient
unfolding validate_endpoint_url
configure x url owns = elim (validate_endpoint_url x url) [
  | ok u ↦ ok (record { info_url = u; owns_transport = owns })
  | err e ↦ err e
]

abbrev pub url_or_default : Option String → Network → String
url_or_default none network = network_info_url network
url_or_default (some url) network = url

-- `InfoClient.__init__`, with the transport that it makes
unfoldable pub new_info_client :
    Externals
    → Network
    → Option String
    → Option ClientSession
    → Option ClientTimeout
    → Result (InfoClient × HttpTransport)
unfolding new_transport configure network_info_url
new_info_client x network url session timeout = elim (new_transport session timeout) [
  | ok transport ↦ elim (configure x (url_or_default url network) true) [
    | ok client ↦ ok (client, transport)
    | err e ↦ err e
  ]
  | err e ↦ err e
]

-- `_from_transport`
unfoldable pub from_transport : Externals → String → Result InfoClient
unfolding configure
from_transport x url = configure x url false

-- `open` and `close`
unfoldable pub open_info : InfoClient → Exec (Unit {0})
open_info i = if i.owns_transport then open_transport else pure tt

unfoldable pub close_info : InfoClient → CloseEnd → Exec (Unit {0})
close_info i how = if i.owns_transport then close_transport how else pure tt

-- A payload, its `type` first.
abbrev pub query : String → List (String × JsonValue) → JsonValue
query t rest = obj (fields (("type", str t) ∷ rest))

-- `if value is not None: payload[key] = value`
abbrev pub optional_int : String → Option ℤ → List (String × JsonValue)
optional_int key none = []
optional_int key (some n) = (key, int n) ∷ []

module _ (x : Externals) (i : InfoClient) where
  -- `_post`
  unfoldable pub ask : JsonValue → Exec JsonValue
  ask payload = post_json x i.info_url payload

  -- `_post`, and the shape that the reply must have
  unfoldable pub ask_for {ℓ} :
      {A : Type ℓ} → (JsonValue → String → Result A) → String → List (String × JsonValue) → Exec A
  ask_for read t rest = do value ← ask (query t rest); lift (read value t)

-- ===== src/World.antt =====
-- What the clients keep and what surrounds them: the transport's session, the clock, the requests
-- that were posted, and the third-party code that signs and hashes.
pub mod Exec
use async_hyperliquid.Prelude.{ℕ, String, Bool, Option, List}
use async_hyperliquid.Float.{Float, FloatOps}
use async_hyperliquid.Json.{JsonValue, JsonObject}
use async_hyperliquid.Metadata.{MetadataSnapshot}

-- The socket's part of a `ClientSession`.
pub record ClientSession : Type 0 where
  pub closed : Bool

-- `_State` of _internal/http.py.
pub data TransportState : Type 0 where
  new open_ closed : TransportState

-- `aiohttp.ClientTimeout`.
pub record ClientTimeout : Type 0 where
  pub total : Option Float
  pub connect : Option Float
  pub sock_connect : Option Float
  pub sock_read : Option Float

pub record HttpTransport : Type 0 where
  pub session : Option ClientSession
  pub timeout : ClientTimeout
  pub owns_session : Bool
  pub state : TransportState

pub record Request : Type 0 where
  pub url : String
  pub payload : JsonValue

-- How `session.post` and `response.json` end. `raised` is any exception that is neither a
-- `TimeoutError` nor a `ClientError`, such as a cancellation.
pub data Body : Type 0 where
  json : JsonValue → Body
  malformed_json : Body
  timed_out : Body
  client_error : Body
  raised : Body

pub data HttpOutcome : Type 0 where
  response : ℕ → Body → HttpOutcome
  timed_out : HttpOutcome
  client_error : HttpOutcome
  raised : HttpOutcome

pub record Signature : Type 0 where
  pub r : String
  pub s : String
  pub v : ℕ

-- The signed fields of an EIP-712 message: the primary type, and the names and types of its fields.
pub record UserSigningSpec : Type 0 where
  pub primary_type : String
  pub message_types : List (String × String)

-- The code outside the repository. `none` is an exception.
pub record Externals : Type 0 where
  pub floats : FloatOps
  -- the k-th reading of `time.time_ns`
  pub time_ns : ℕ → ℕ
  -- how the k-th request of the run ends
  pub outcome : ℕ → Request → HttpOutcome
  -- which of the tasks of a group that fail is the first to, after so many requests
  pub first_failure : ℕ → ℕ
  -- `urlsplit(url)`: the scheme and the host
  pub urlsplit : String → Option (String × Option String)
  -- `msgpack.packb`, `eth_utils.keccak`, `bytes.fromhex`, `json.dumps`
  pub packb : JsonObject → Option (List ℕ)
  pub keccak : List ℕ → List ℕ
  pub from_hex : String → Option (List ℕ)
  pub dumps : JsonValue → String
  -- `account.unsafe_sign_hash`, and `account.sign_message` of `encode_typed_data`
  pub sign_hash : List ℕ → Option Signature
  pub sign_typed_data : UserSigningSpec → JsonObject → Option Signature
  -- `eth_utils.is_address`, `eth_utils.to_normalized_address`, `str.lower`
  pub is_address : String → Bool
  pub to_normalized_address : String → String
  pub lower : String → String

-- The mutable attributes of the transport, the info client and the exchange client, which share the
-- transport, with the number of clock readings and the posted requests, the newest first.
pub record World : Type 0 where
  pub transport : HttpTransport
  pub metadata : Option MetadataSnapshot
  pub last_nonce : ℕ
  pub readings : ℕ
  pub sent : List Request

-- ===== src/Examples.antt =====
-- A concrete configuration, world and interpreter; the children run the model on them.
pub mod Runs
pub mod Numbers
pub mod Replies
pub mod Facade
pub mod Interleaving
pub mod Typed
pub mod Release
use async_hyperliquid.Order.{exchange_url as network_exchange_url}
use async_hyperliquid.Prelude.{
  ℕ, true, false, none, some, List, [], ◌∷◌, if◌then◌else◌, string_eq, ◌==◌, nat_eq, negsuc, int_eq,
}
use async_hyperliquid.Float.{Float, finite, float_zero, FloatOps}
use async_hyperliquid.Json.{JsonValue, str, obj, JsonObject, end, field}
use async_hyperliquid.Text.{char_eq}
use async_hyperliquid.World.{
  TransportState, closed, HttpTransport, json, response, Signature, Externals, World,
}
use async_hyperliquid.Transport.{default_timeout}
use async_hyperliquid.Order.{mainnet, exchange_url}
use async_hyperliquid.Exchange.{Config}

-- 1.5 and its texts
abbrev pub one_and_half : Float
one_and_half = finite false 3 (negsuc 0)

abbrev pub example_floats : FloatOps
example_floats = record {
  round_to = λ v places. v;
  round_significant = λ v. v;
  parse = λ s. if s == "1.50000000" then some one_and_half else none;
  shortest = λ v. record { coefficient = 15; exponent = negsuc 0 };
  add = λ v w. v;
  sub = λ v w. float_zero;
  mul = λ v w. v;
  percent = λ v. "1.500%";
}

abbrev pub example_signature : Signature
example_signature = record { r = "0x1"; s = "0x2"; v = 27 }

abbrev pub ok_reply : JsonValue
ok_reply = obj (
    field "status" (str "ok")
      (field "response" (obj (field "type" (str "default") JsonObject.end)) JsonObject.end))

abbrev pub twenty_bytes : List ℕ
twenty_bytes =
    1
    ∷ (1
        ∷ (1
            ∷ (1
                ∷ (1
                    ∷ (1
                        ∷ (1
                            ∷ (1
                                ∷ (1
                                    ∷ (1
                                        ∷ (1
                                            ∷ (1
                                                ∷ (1
                                                    ∷ (1
                                                        ∷ (1
                                                            ∷ (1
                                                            ∷ (1
                                                            ∷ (1 ∷ (1 ∷ (1 ∷ [])))))))))))))))))))

abbrev pub example_externals : Externals
example_externals = record {
  floats = example_floats;
  time_ns = λ k. 1_700_000_000_000_000_000;
  outcome = λ k request. response 200 (json ok_reply);
  first_failure = λ k. 0;
  urlsplit = λ url. some ("https", some "api.hyperliquid.xyz");
  packb = λ action. some [];
  keccak = λ bytes. bytes;
  from_hex = λ text. some twenty_bytes;
  dumps = λ v. "{}";
  sign_hash = λ hash. some example_signature;
  sign_typed_data = λ spec message. some example_signature;
  is_address = λ text. true;
  to_normalized_address = λ text. text;
  lower = λ text. text;
}

abbrev pub example_config : Config
example_config = record {
  account_address = "0xaa";
  vault_address = none;
  network = mainnet;
  exchange_url = network_exchange_url mainnet;
}

abbrev pub example_transport : TransportState → HttpTransport
example_transport state = record {
  session = some (record { closed = false });
  timeout = default_timeout;
  owns_session = true;
  state = state;
}

abbrev pub example_world : TransportState → World
example_world state = record {
  transport = example_transport state;
  metadata = none;
  last_nonce = 0;
  readings = 0;
  sent = [];
}

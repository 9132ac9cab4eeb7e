-- ===== src/Signing.antt =====
-- src/async_hyperliquid/_internal/signing.py: the bytes that are hashed and signed. `keccak`,
-- `msgpack` and the account's key are given; a signature that cannot be made is an exception.
pub mod Specs
pub mod Preimage
use Prim.Native.Char
use async_hyperliquid.Prelude.{
  ℕ, zero, suc, ◌/◌, ◌%◌, ◌^◌, String, ◌&&◌, Option, none, some, List, [], ◌∷◌, ◌++◌, map, ltb,
  if◌then◌else◌, string_eq, ◌==◌, nat_eq, ℤ, pos, negsuc, int_eq,
}
use async_hyperliquid.Result.{value_error, other, Result, err, ok, ◌>>=◌, ◌>>◌, or_raise}
use async_hyperliquid.Json.{JsonValue, str, JsonObject, fields}
use async_hyperliquid.Text.{Chars, chars, of_chars, char_eq}
use async_hyperliquid.World.{Signature, UserSigningSpec, Externals}
use async_hyperliquid.Order.{Network, mainnet, testnet}

-- `n.to_bytes(size, "big")` of a number that fits
unfoldable pub big_endian : ℕ → ℕ → List ℕ
big_endian zero n = []
big_endian (suc size) n = (n / 256 ^ size % 256) ∷ big_endian size n

-- `n.to_bytes(8, "big")`, which raises `OverflowError` for what does not fit
unfoldable pub to_bytes8 : ℤ → Result (List ℕ)
unfolding big_endian
to_bytes8 (pos n) = if ltb n (2 ^ 64) then ok (big_endian 8 n) else err other
to_bytes8 (negsuc n) = err other

-- `vault_address.removeprefix("0x")`
abbrev pub without_0x : Chars → Chars
without_0x (z ∷ (x ∷ rest)) = if (z == "0") && (x == "x") then rest else z ∷ (x ∷ rest)
without_0x cs = cs

abbrev pub ascii : String → List ℕ
ascii s = map (λ c. Char.code c) (chars s)

abbrev zero_bytes : ℕ → List ℕ
zero_bytes zero = []
zero_bytes (suc n) = 0 ∷ zero_bytes n

module _ (x : Externals) where
  unfoldable pub vault_bytes : Option String → Result (List ℕ)
  vault_bytes none = ok (0 ∷ [])
  vault_bytes (some address) = do
    bytes ←
        or_raise (x.from_hex (of_chars (without_0x (chars address))))
          (value_error "non-hexadecimal number found in fromhex() arg")
    ok (1 ∷ bytes)

  unfoldable pub expiry_bytes : Option ℤ → Result (List ℕ)
  unfolding to_bytes8
  expiry_bytes none = ok []
  expiry_bytes (some at) = do bytes ← to_bytes8 at; ok (0 ∷ bytes)

  -- What `hash_action` hashes.
  unfoldable pub action_data : JsonObject → Option String → ℤ → Option ℤ → Result (List ℕ)
  unfolding vault_bytes expiry_bytes
  action_data action vault_address nonce expires_after = do
    packed ← or_raise (x.packb action) other
    nonce_bytes ← to_bytes8 nonce
    vault ← vault_bytes vault_address
    expiry ← expiry_bytes expires_after
    ok (packed ++ (nonce_bytes ++ (vault ++ expiry)))

  unfoldable pub hash_action : JsonObject → Option String → ℤ → Option ℤ → Result (List ℕ)
  unfolding action_data
  hash_action action vault_address nonce expires_after = do
    bytes ← action_data action vault_address nonce expires_after
    ok (x.keccak bytes)

  -- `_EXCHANGE_DOMAIN_HASH`, `_EXCHANGE_AGENT_TYPE_HASH`, `_EXCHANGE_SOURCE_HASH`
  unfoldable pub exchange_domain_hash : List ℕ
  unfolding big_endian
  exchange_domain_hash = x.keccak (
      x.keccak
        (ascii "EIP712Domain(string name,string version,uint256 chainId,address verifyingContract)")
      ++ (x.keccak (ascii "Exchange")
          ++ (x.keccak (ascii "1") ++ (big_endian 32 1337 ++ zero_bytes 32))))

  abbrev agent_type_hash : List ℕ
  agent_type_hash = x.keccak (ascii "Agent(string source,bytes32 connectionId)")

  unfoldable pub sign_exchange_action :
      JsonObject → Option String → ℤ → String → Option ℤ → Result Signature
  unfolding hash_action exchange_domain_hash
  sign_exchange_action action vault_address nonce source expires_after = do
    connection_id ← hash_action action vault_address nonce expires_after
    let agent_hash = x.keccak (agent_type_hash ++ (x.keccak (ascii source) ++ connection_id))
    let message_hash = x.keccak ((25 ∷ (1 ∷ [])) ++ (exchange_domain_hash ++ agent_hash))
    or_raise (x.sign_hash message_hash) other

-- `{**action, "signatureChainId": ..., "hyperliquidChain": ...}`, in the order of the keys
abbrev pub chain_name : Network → String
chain_name mainnet = "Mainnet"
chain_name testnet = "Testnet"

unfoldable pub wire_action : Network → List (String × JsonValue) → List (String × JsonValue)
wire_action network action =
    action
    ++ (("signatureChainId", str "0x66eee") ∷ (("hyperliquidChain", str (chain_name network)) ∷ []))

module _ (x : Externals) where
  unfoldable pub sign_user_action :
      List (String × JsonValue)
      → UserSigningSpec
      → Network
      → Result (List (String × JsonValue) × Signature)
  unfolding wire_action
  sign_user_action action spec network = do
    let wire = wire_action network action
    signature ← or_raise (x.sign_typed_data spec (fields wire)) other
    ok (wire, signature)

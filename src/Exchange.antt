-- ===== src/Exchange.antt =====
-- src/async_hyperliquid/exchange.py: the signed action client. Submission is here; the actions of the
-- exchange's endpoints are in `Trading`, `Transfers` and `Outcomes`.
pub mod Encode
pub mod Trading
pub mod Transfers
pub mod Outcomes
pub mod Effects
pub mod Posting
pub mod Commands
pub mod Nonces
pub mod Typed
use async_hyperliquid.Order.{exchange_url as network_exchange_url}
pub mod Signed
use async_hyperliquid.Prelude.{
  ℕ, ◌+◌, ◌/◌, max, String, Bool, false, not, Option, none, some, List, [], ◌∷◌, if◌then◌else◌,
  string_eq, ◌==◌, nat_eq, contains, ℤ, pos, int_eq,
}
use async_hyperliquid.Result.{
  http_error, protocol_error, indeterminate_action_error, value_error, timeout_error, Result, err,
  ok,
}
use async_hyperliquid.Json.{JsonValue, null, int, str, obj, fields}
use async_hyperliquid.Text.{char_eq}
use async_hyperliquid.World.{Signature, UserSigningSpec, Externals}
use async_hyperliquid.World.Exec.{Exec, pure, lift, ◌>>=◌, ◌>>◌}
use async_hyperliquid.Order.{Network, signature_source}
use async_hyperliquid.Response.{ResponseType, default, expect_action_response}
use async_hyperliquid.Transport.{validate_endpoint_url, post_json}
use async_hyperliquid.Signing.{sign_exchange_action, sign_user_action}

-- The attributes of `ExchangeClient` that never change.
pub record Config : Type 0 where
  pub account_address : String
  pub vault_address : Option String
  pub network : Network
  pub exchange_url : String

-- `ExchangeClient.__init__`
unfoldable pub new_exchange :
    Externals → String → Option String → Network → Option String → Result Config
unfolding validate_endpoint_url network_exchange_url
new_exchange x account_address vault_address network url =
    let vault_is_bad : Bool = elim vault_address [ none ↦ false | some v ↦ not (x.is_address v) ] in
    let checked : Result String =
      validate_endpoint_url x (elim url [ none ↦ network_exchange_url network | some u ↦ u ]) in
    if not (x.is_address account_address)
    then err (value_error "account_address must be a 20-byte hex address")
    else if vault_is_bad
    then err (value_error "vault_address must be a 20-byte hex address")
    else elim checked [
      | ok u ↦ ok (record {
        account_address = x.to_normalized_address account_address;
        vault_address = elim vault_address [
          | none ↦ none
          | some v ↦ some (x.to_normalized_address v)
        ];
        network = network;
        exchange_url = u;
      })
      | err e ↦ err e
    ]

-- `self._vault_address or self._account_address`
unfoldable pub execution_address : Config → String
execution_address c = elim c.vault_address [
  | none ↦ c.account_address
  | some v ↦ if v == "" then c.account_address else v
]

-- `_ROOT_SCOPED_ACTIONS` and `_ACTION_SCOPED_TRANSFERS`
abbrev pub root_scoped_actions : List String
root_scoped_actions =
    "createSubAccount" ∷ "evmUserModify" ∷ "reserveRequestWeight" ∷ "setReferrer" ∷ "vaultTransfer"
    ∷ []

abbrev pub action_scoped_transfers : List String
action_scoped_transfers = "sendAsset" ∷ "usdClassTransfer" ∷ []

abbrev pub Action : Type 0
Action = List (String × JsonValue)

-- `action["type"]`: every action is built with its type first.
abbrev pub action_type : Action → String
action_type ((_, str t) ∷ rest) = t
action_type _ = ""

abbrev pub text_or_null : Option String → JsonValue
text_or_null none = null
text_or_null (some s) = str s

abbrev pub int_or_null : Option ℤ → JsonValue
int_or_null none = null
int_or_null (some n) = int n

-- The `ActionEnvelope` that is posted.
unfoldable pub envelope : Action → Signature → ℤ → Option String → Option ℤ → JsonValue
envelope action signature nonce vault_address expires_after = obj (
    fields (
      ("action", obj (fields action))
      ∷ (("nonce", int nonce)
          ∷ ((
            "signature",
            obj (
                fields (
                  ("r", str signature.r)
                  ∷ (("s", str signature.s) ∷ (("v", int (pos signature.v)) ∷ [])))),
          )
              ∷ (("vaultAddress", text_or_null vault_address)
                  ∷ (("expiresAfter", int_or_null expires_after) ∷ []))))))

-- `except (TimeoutError, HttpError, ProtocolError)`
unfoldable pub indeterminate : String → ℤ → Result JsonValue → Result JsonValue
indeterminate t nonce (ok v) = ok v
indeterminate t nonce (err timeout_error) = err (indeterminate_action_error t nonce)
indeterminate t nonce (err (http_error status)) = err (indeterminate_action_error t nonce)
indeterminate t nonce (err (protocol_error message)) = err (indeterminate_action_error t nonce)
indeterminate t nonce (err e) = err e

-- `_next_nonce`, at one reading of the clock
unfoldable pub next_nonce : Externals → Exec ℕ
next_nonce x w =
    let nonce = max (x.time_ns w.readings / 1_000_000) (w.last_nonce + 1) in
    (ok nonce, record w { last_nonce = nonce; readings = w.readings + 1 })

module _ (x : Externals) (c : Config) where
  -- The reply of the exchange, checked.
  unfoldable pub exchange_reply : JsonValue → ResponseType → Exec JsonValue
  exchange_reply payload expected = do
    value ← post_json x c.exchange_url payload
    lift (expect_action_response value expected)

  unfoldable pub post_envelope :
      Action → Signature → ℤ → ResponseType → Option String → Option ℤ → Exec JsonValue
  unfolding exchange_reply envelope indeterminate
  post_envelope action signature nonce expected vault_address expires_after w =
      let reply =
        exchange_reply (envelope action signature nonce vault_address expires_after) expected w in
      (indeterminate (action_type action) nonce reply.0, reply.1)

  -- The address that an exchange action is signed and sent for.
  abbrev pub action_vault : Action → Option String
  action_vault action =
      if contains (action_type action) root_scoped_actions then none else c.vault_address

  abbrev pub the_nonce : Option ℕ → Exec ℕ
  the_nonce none = next_nonce x
  the_nonce (some n) = pure n

  unfoldable pub submit_action : Action → ResponseType → Option ℤ → Option ℕ → Exec JsonValue
  submit_action action expected expires_after nonce = do
    n ← the_nonce nonce
    signature ← lift (
        sign_exchange_action x (fields action) (action_vault action) (pos n)
          (signature_source c.network) expires_after)
    post_envelope action signature (pos n) expected (action_vault action) expires_after

  abbrev pub user_vault : Action → Option String
  user_vault action =
      if contains (action_type action) action_scoped_transfers then none else c.vault_address

  unfoldable pub submit_user_action : Action → UserSigningSpec → ℕ → Exec JsonValue
  submit_user_action action spec nonce = do
    (wire, signature) ← lift (sign_user_action x action spec c.network)
    post_envelope wire signature (pos nonce) default (user_vault action) none

-- ===== src/Exchange/Outcomes.antt =====
-- The remaining actions of exchange.py: approvals, abstraction settings, outcomes and votes.
use async_hyperliquid.Prelude.{
  String, Bool, not, ◌&&◌, ◌||◌, Option, none, some, List, [], ◌∷◌, map, if◌then◌else◌, string_eq,
  ◌==◌, nat_eq, length, ℤ, pos, ltb_ℤ, leb_ℤ, is_negative, int_eq,
}
use async_hyperliquid.Result.{value_error, Result, err, ok, raise_if}
use async_hyperliquid.Text.{char_eq}
use async_hyperliquid.Json.{JsonValue, null, bool, int, str, obj, array, fields}
use async_hyperliquid.World.{Externals}
use async_hyperliquid.World.Exec.{Exec, lift, ◌>>=◌, ◌>>◌, fail_if}
use async_hyperliquid.Float.{Float, is_finite, is_below_zero, is_at_most_zero, FloatOps}
use async_hyperliquid.Response.{default}
use async_hyperliquid.Signing.{sign_user_action}
use async_hyperliquid.Signing.Specs.{
  approve_agent_spec, approve_builder_fee_spec, convert_to_multi_sig_user_spec,
  user_dex_abstraction_spec, user_set_abstraction_spec,
}
use async_hyperliquid.Encoding.{wire_float}
use async_hyperliquid.Exchange.{
  Config, execution_address, Action, next_nonce, post_envelope, submit_action, submit_user_action,
}
use async_hyperliquid.Exchange.Transfers.{sort_texts}

-- `wire_action.pop("agentName")`
abbrev without_key : String → Action → Action
without_key key [] = []
without_key key ((k, v) ∷ rest) =
    let others = without_key key rest in if k == key then others else (k, v) ∷ others

-- The wire action that is posted: without a name, the empty one that was signed is left out.
abbrev pub drop_name : Option String → Action → Action
drop_name none wire = without_key "agentName" wire
drop_name (some name) wire = wire

abbrev pub name_or_empty : Option String → String
name_or_empty none = ""
name_or_empty (some s) = s

-- `math.isfinite(x) and not x < 0`
abbrev is_rate : Float → Bool
is_rate rate = is_finite rate && not (is_below_zero rate)

unfoldable pub positive_wire_amount : FloatOps → Float → Result String
positive_wire_amount ops amount =
    let checked =
      raise_if (not (is_finite amount) || is_at_most_zero amount)
        (value_error "amount must be finite and greater than zero") in
    let wire = wire_float ops amount in elim checked [ ok _ ↦ wire | err e ↦ err e ]

abbrev pub optional_amount : FloatOps → Option Float → Result JsonValue
optional_amount ops none = ok null
optional_amount ops (some amount) = elim (positive_wire_amount ops amount) [
  | ok t ↦ ok (str t)
  | err e ↦ err e
]

module _ (x : Externals) (c : Config) where
  unfoldable pub approve_agent : String → Option String → Exec JsonValue
  approve_agent agent_address name = do
    nonce ← next_nonce x
    (wire, signature) ← lift (
        sign_user_action x
          (("type", str "approveAgent")
            ∷ (("agentAddress", str agent_address)
                ∷ (("agentName", str (name_or_empty name)) ∷ (("nonce", int (pos nonce)) ∷ []))))
          approve_agent_spec c.network)
    post_envelope x c (drop_name name wire) signature (pos nonce) default c.vault_address none

  unfoldable pub approve_builder_fee : String → Float → Exec JsonValue
  approve_builder_fee builder_address max_fee_rate = do
    fail_if (not (is_rate max_fee_rate))
        (value_error "max_fee_rate must be finite and non-negative")
    nonce ← next_nonce x
    submit_user_action x c
        (("type", str "approveBuilderFee")
          ∷ (("maxFeeRate", str (x.floats.percent max_fee_rate))
              ∷ (("builder", str builder_address) ∷ (("nonce", int (pos nonce)) ∷ []))))
        approve_builder_fee_spec nonce

  unfoldable pub convert_to_multi_sig_user : List String → ℤ → Exec JsonValue
  convert_to_multi_sig_user authorized_users threshold = do
    let users = sort_texts authorized_users
    fail_if (leb_ℤ threshold (pos 0) || ltb_ℤ (pos (length users)) threshold)
        (value_error "threshold must select at least one authorized user")
    nonce ← next_nonce x
    let signers = x.dumps (
        obj (
          fields (
            ("authorizedUsers", array (map (λ (u : String). str u) users))
            ∷ (("threshold", int threshold) ∷ []))))
    submit_user_action x c
        (("type", str "convertToMultiSigUser")
          ∷ (("signers", str signers) ∷ (("nonce", int (pos nonce)) ∷ [])))
        convert_to_multi_sig_user_spec nonce

  unfoldable pub user_dex_abstraction : Bool → Exec JsonValue
  user_dex_abstraction enabled = do
    nonce ← next_nonce x
    submit_user_action x c
        (("type", str "userDexAbstraction")
          ∷ (("user", str (execution_address c))
              ∷ (("enabled", bool enabled) ∷ (("nonce", int (pos nonce)) ∷ []))))
        user_dex_abstraction_spec nonce

  -- The value of a `UserAbstraction`.
  unfoldable pub user_set_abstraction : String → Exec JsonValue
  user_set_abstraction abstraction = do
    nonce ← next_nonce x
    submit_user_action x c
        (("type", str "userSetAbstraction")
          ∷ (("user", str (execution_address c))
              ∷ (("abstraction", str abstraction) ∷ (("nonce", int (pos nonce)) ∷ []))))
        user_set_abstraction_spec nonce

  -- `userOutcome` with one inner object
  abbrev pub submit_outcome : String → Action → Option ℤ → Exec JsonValue
  submit_outcome key body expires_after =
      submit_action x c (("type", str "userOutcome") ∷ ((key, obj (fields body)) ∷ [])) default
        expires_after none

  unfoldable pub split_outcome : ℤ → Float → Option ℤ → Exec JsonValue
  split_outcome outcome amount expires_after = do
    fail_if (is_negative outcome) (value_error "outcome must not be negative")
    text ← lift (positive_wire_amount x.floats amount)
    submit_outcome "splitOutcome" (("outcome", int outcome) ∷ (("amount", str text) ∷ []))
        expires_after

  unfoldable pub merge_outcome : ℤ → Option Float → Option ℤ → Exec JsonValue
  merge_outcome outcome amount expires_after = do
    fail_if (is_negative outcome) (value_error "outcome must not be negative")
    value ← lift (optional_amount x.floats amount)
    submit_outcome "mergeOutcome" (("outcome", int outcome) ∷ (("amount", value) ∷ []))
        expires_after

  unfoldable pub merge_question : ℤ → Option Float → Option ℤ → Exec JsonValue
  merge_question question amount expires_after = do
    fail_if (is_negative question) (value_error "question must not be negative")
    value ← lift (optional_amount x.floats amount)
    submit_outcome "mergeQuestion" (("question", int question) ∷ (("amount", value) ∷ []))
        expires_after

  unfoldable pub negate_outcome : ℤ → ℤ → Float → Option ℤ → Exec JsonValue
  negate_outcome question outcome amount expires_after = do
    fail_if (is_negative question || is_negative outcome)
        (value_error "question and outcome must not be negative")
    text ← lift (positive_wire_amount x.floats amount)
    submit_outcome "negateOutcome"
        (("question", int question) ∷ (("outcome", int outcome) ∷ (("amount", str text) ∷ [])))
        expires_after

  unfoldable pub vote_risk_free_rate : Float → Option ℤ → Exec JsonValue
  vote_risk_free_rate rate expires_after = do
    fail_if (not (is_rate rate)) (value_error "rate must be finite and non-negative")
    text ← lift (wire_float x.floats rate)
    submit_action x c (("type", str "validatorL1Stream") ∷ (("riskFreeRate", str text) ∷ []))
        default expires_after none

  -- `role` is "technical" or "treasury".
  unfoldable pub authorize_aqav2_role : ℤ → String → Option ℤ → Exec JsonValue
  authorize_aqav2_role token role expires_after = do
    fail_if (is_negative token) (value_error "token must not be negative")
    submit_action x c
        (("type", str "authorizeAqav2Role") ∷ (("token", int token) ∷ (("role", str role) ∷ [])))
        default expires_after none

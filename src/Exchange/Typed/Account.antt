-- ===== src/Exchange/Typed/Account.antt =====
-- The approvals, settings, outcomes and votes are typed actions.
use async_hyperliquid.Prelude.{
  ℕ, String, ◌≡◌, refl, sym, ◌⊎◌, inl, inr, true, Option, none, some, [], ◌∷◌, string_eq, nat_eq, ℤ,
  pos, int_eq,
}
use async_hyperliquid.Result.{ok, ok_injective, Result-cases}
use async_hyperliquid.Json.{JsonValue, null, int, str, obj, fields, member}
use async_hyperliquid.World.{Externals}
use async_hyperliquid.World.Exec.{lift, ◌>>=◌}
use async_hyperliquid.Float.{Float, FloatOps}
use async_hyperliquid.Order.{Network, mainnet, testnet}
use async_hyperliquid.Signing.{wire_action}
use async_hyperliquid.Response.{default}
use async_hyperliquid.Exchange.{Config, Action, submit_action}
use async_hyperliquid.Exchange.Outcomes.{
  drop_name, name_or_empty, positive_wire_amount, optional_amount, approve_agent,
  approve_builder_fee, convert_to_multi_sig_user, user_dex_abstraction, user_set_abstraction,
  submit_outcome, split_outcome, merge_outcome, merge_question, negate_outcome, vote_risk_free_rate,
  authorize_aqav2_role,
}
use async_hyperliquid.Exchange.Commands.Account.{
  AccountCommand, agent, builder_fee, multi_sig, dex_abstraction, abstraction, split, merge,
  merge_all, negate, vote, aqav2_role, run_account,
}
use async_hyperliquid.Exchange.Typed.{
  IsTyped, post_envelope-IsTyped, IsTyped-lift_bind, IsTyped-lift_eq, IsTyped-fail_if,
  IsTyped-next_nonce, submit_action-IsTyped, IsTyped-sign_user_action, sends,
}
use async_hyperliquid.Types.{has_type, has_keys}
use async_hyperliquid.Types.Envelope.{exchange_action_type}
use async_hyperliquid.Types.Replies.{default_action_response_type}

-- `role` and `abstraction` are one of their values.
abbrev pub HasTypedAccount : AccountCommand → Type 0
HasTypedAccount (abstraction a) =
    (a ≡ "disabled") ⊎ ((a ≡ "unifiedAccount") ⊎ (a ≡ "portfolioMargin"))
HasTypedAccount (aqav2_role t role e) = (role ≡ "technical") ⊎ (role ≡ "treasury")
HasTypedAccount _ = Unit

null_or_text :
    (ops : FloatOps) (a : Option Float) (v : JsonValue)
    → optional_amount ops a ≡ ok v
    → (v ≡ null) ⊎ ((t : String) × (v ≡ str t))
null_or_text ops none v h = inl (ok_injective (sym h))
null_or_text ops (some a) v h = elim (Result-cases (positive_wire_amount ops a)) [
  | inl (t, p) ↦ inr (t, ok_injective (sym (rw (p, optional_amount) at h)))
  | inr (e, p) ↦ let k = rw (p, optional_amount) at h in cc
]

module _ (x : Externals) (c : Config) where
  agent-typed :
      (n : Network) (address : String) (name : Option String) (nonce : ℕ)
      → has_type true exchange_action_type (
          obj (
            fields (
              drop_name name (
                wire_action n (
                  ("type", str "approveAgent")
                  ∷ (("agentAddress", str address)
                      ∷ (("agentName", str (name_or_empty name))
                          ∷ (("nonce", int (pos nonce)) ∷ []))))))))
        ≡ true
  unfolding has_type has_keys member wire_action
  agent-typed mainnet address none nonce = refl
  agent-typed mainnet address (some s) nonce = refl
  agent-typed testnet address none nonce = refl
  agent-typed testnet address (some s) nonce = refl

  submits :
      (a : Action) (e : Option ℤ)
      → has_type true exchange_action_type (obj (fields a)) ≡ true
      → IsTyped default_action_response_type (submit_action x c a default e none)
  submits a e h = submit_action-IsTyped x c a default e none h

  -- An amount that may be missing.
  merged-IsTyped :
      (key first : String) (o : ℤ) (a : Option Float) (e : Option ℤ)
      → ((t : String)
          → has_type true exchange_action_type (
              obj (
                fields (
                  ("type", str "userOutcome")
                  ∷ ((key, obj (fields ((first, int o) ∷ (("amount", str t) ∷ [])))) ∷ []))))
            ≡ true)
      → has_type true exchange_action_type (
          obj (
            fields (
              ("type", str "userOutcome")
              ∷ ((key, obj (fields ((first, int o) ∷ (("amount", null) ∷ [])))) ∷ []))))
        ≡ true
      → IsTyped default_action_response_type (
          lift (optional_amount x.floats a) >>= λ v.
          submit_outcome x c key ((first, int o) ∷ (("amount", v) ∷ [])) e)
  merged-IsTyped key first o a e h k = IsTyped-lift_eq x c (optional_amount x.floats a) _ (λ v same.
      elim (null_or_text x.floats a v same) [
        | inl empty ↦ rw empty (submits _ e k)
        | inr (t, written) ↦ rw written (submits _ e (h t))
      ])

  pub run_account-IsTyped :
      (k : AccountCommand)
      → HasTypedAccount k
      → IsTyped default_action_response_type (run_account x c k)
  unfolding approve_agent approve_builder_fee convert_to_multi_sig_user user_dex_abstraction
      user_set_abstraction split_outcome merge_outcome merge_question negate_outcome
      vote_risk_free_rate authorize_aqav2_role has_type has_keys member wire_action
  run_account-IsTyped (agent a name) h = IsTyped-next_nonce x c _ (λ n.
      IsTyped-sign_user_action x c _ _ _ (λ signature.
        post_envelope-IsTyped x c _ signature (pos n) default c.vault_address none
          (agent-typed c.network a name n)))
  run_account-IsTyped (builder_fee b rate) h =
      IsTyped-fail_if x c _ _ _ (IsTyped-next_nonce x c _ (λ n. sends x c _ _ n refl refl))
  run_account-IsTyped (multi_sig users k) h =
      IsTyped-fail_if x c _ _ _ (IsTyped-next_nonce x c _ (λ n. sends x c _ _ n refl refl))
  run_account-IsTyped (dex_abstraction b) h =
      IsTyped-next_nonce x c _ (λ n. sends x c _ _ n refl refl)
  run_account-IsTyped (abstraction a) (inl e) =
      IsTyped-next_nonce x c _ (λ n. sends x c _ _ n (rw e refl) (rw e refl))
  run_account-IsTyped (abstraction a) (inr (inl e)) =
      IsTyped-next_nonce x c _ (λ n. sends x c _ _ n (rw e refl) (rw e refl))
  run_account-IsTyped (abstraction a) (inr (inr e)) =
      IsTyped-next_nonce x c _ (λ n. sends x c _ _ n (rw e refl) (rw e refl))
  run_account-IsTyped (split o a e) h =
      IsTyped-fail_if x c _ _ _ (IsTyped-lift_bind x c _ _ (λ t. submits _ e refl))
  run_account-IsTyped (merge o a e) h =
      IsTyped-fail_if x c _ _ _ (merged-IsTyped "mergeOutcome" "outcome" o a e (λ t. refl) refl)
  run_account-IsTyped (merge_all q a e) h =
      IsTyped-fail_if x c _ _ _ (merged-IsTyped "mergeQuestion" "question" q a e (λ t. refl) refl)
  run_account-IsTyped (negate q o a e) h =
      IsTyped-fail_if x c _ _ _ (IsTyped-lift_bind x c _ _ (λ t. submits _ e refl))
  run_account-IsTyped (vote rate e) h =
      IsTyped-fail_if x c _ _ _ (IsTyped-lift_bind x c _ _ (λ t. submits _ e refl))
  run_account-IsTyped (aqav2_role t role e) (inl r) =
      IsTyped-fail_if x c _ _ _ (submits _ e (rw r refl))
  run_account-IsTyped (aqav2_role t role e) (inr r) =
      IsTyped-fail_if x c _ _ _ (submits _ e (rw r refl))

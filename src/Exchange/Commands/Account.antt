-- ===== src/Exchange/Commands/Account.antt =====
-- The approvals, settings, outcomes and votes as commands, and what running one may do.
use async_hyperliquid.Prelude.{ℕ, String, Bool, Option, none, List, ℤ}
use async_hyperliquid.Json.{JsonValue}
use async_hyperliquid.World.{UserSigningSpec, Externals}
use async_hyperliquid.World.Exec.{Exec}
use async_hyperliquid.Float.{Float}
use async_hyperliquid.Response.{ResponseType, default}
use async_hyperliquid.Exchange.{Config, Action, submit_action, submit_user_action}
use async_hyperliquid.Exchange.Outcomes.{
  approve_agent, approve_builder_fee, convert_to_multi_sig_user, user_dex_abstraction,
  user_set_abstraction, split_outcome, merge_outcome, merge_question, negate_outcome,
  vote_risk_free_rate, authorize_aqav2_role,
}
use async_hyperliquid.Exchange.Effects.{
  Submits, Sends, Submits-lift_bind, Submits-fail_if, Sends-lift_bind, Submits-next_nonce,
}
use async_hyperliquid.Exchange.Posting.{
  post_envelope-Sends, sign_user_action-IsPlain, submit_action-Submits, submit_user_action-Sends,
}
use async_hyperliquid.Exchange.Commands.Plain.{
  wire_float-IsPlain, positive_wire_amount-IsPlain, optional_amount-IsPlain,
}

pub data AccountCommand : Type 0 where
  agent : String → Option String → AccountCommand
  builder_fee : String → Float → AccountCommand
  multi_sig : List String → ℤ → AccountCommand
  dex_abstraction : Bool → AccountCommand
  abstraction : String → AccountCommand
  split : ℤ → Float → Option ℤ → AccountCommand
  merge : ℤ → Option Float → Option ℤ → AccountCommand
  merge_all : ℤ → Option Float → Option ℤ → AccountCommand
  negate : ℤ → ℤ → Float → Option ℤ → AccountCommand
  vote : Float → Option ℤ → AccountCommand
  aqav2_role : ℤ → String → Option ℤ → AccountCommand

module _ (x : Externals) (c : Config) where
  abbrev pub run_account : AccountCommand → Exec JsonValue
  run_account (agent a name) = approve_agent x c a name
  run_account (builder_fee b rate) = approve_builder_fee x c b rate
  run_account (multi_sig users n) = convert_to_multi_sig_user x c users n
  run_account (dex_abstraction b) = user_dex_abstraction x c b
  run_account (abstraction a) = user_set_abstraction x c a
  run_account (split o a e) = split_outcome x c o a e
  run_account (merge o a e) = merge_outcome x c o a e
  run_account (merge_all q a e) = merge_question x c q a e
  run_account (negate q o a e) = negate_outcome x c q o a e
  run_account (vote rate e) = vote_risk_free_rate x c rate e
  run_account (aqav2_role t r e) = authorize_aqav2_role x c t r e

  submits :
      (a : Action) (t : ResponseType) (e : Option ℤ) → Submits c (submit_action x c a t e none)
  submits = submit_action-Submits x c

  sends : (a : Action) (s : UserSigningSpec) (n : ℕ) → Sends c n (submit_user_action x c a s n)
  sends = submit_user_action-Sends x c

  pub run_account-Submits : (k : AccountCommand) → Submits c (run_account k)
  unfolding approve_agent approve_builder_fee convert_to_multi_sig_user user_dex_abstraction
      user_set_abstraction split_outcome merge_outcome merge_question negate_outcome
      vote_risk_free_rate authorize_aqav2_role
  run_account-Submits (agent a name) = Submits-next_nonce x _ (λ n.
      Sends-lift_bind n _ _ (sign_user_action-IsPlain x c _ _ c.network)
        (λ signed_. post_envelope-Sends x c _ _ n default c.vault_address none))
  run_account-Submits (builder_fee b rate) =
      Submits-fail_if _ _ _ (Submits-next_nonce x _ (λ n. sends _ _ n))
  run_account-Submits (multi_sig users k) =
      Submits-fail_if _ _ _ (Submits-next_nonce x _ (λ n. sends _ _ n))
  run_account-Submits (dex_abstraction b) = Submits-next_nonce x _ (λ n. sends _ _ n)
  run_account-Submits (abstraction a) = Submits-next_nonce x _ (λ n. sends _ _ n)
  run_account-Submits (split o a e) =
      Submits-fail_if _ _ _
        (Submits-lift_bind _ _ (positive_wire_amount-IsPlain x.floats a) (λ t. submits _ _ e))
  run_account-Submits (merge o a e) =
      Submits-fail_if _ _ _
        (Submits-lift_bind _ _ (optional_amount-IsPlain x.floats a) (λ t. submits _ _ e))
  run_account-Submits (merge_all q a e) =
      Submits-fail_if _ _ _
        (Submits-lift_bind _ _ (optional_amount-IsPlain x.floats a) (λ t. submits _ _ e))
  run_account-Submits (negate q o a e) =
      Submits-fail_if _ _ _
        (Submits-lift_bind _ _ (positive_wire_amount-IsPlain x.floats a) (λ t. submits _ _ e))
  run_account-Submits (vote rate e) =
      Submits-fail_if _ _ _
        (Submits-lift_bind _ _ (wire_float-IsPlain x.floats rate) (λ t. submits _ _ e))
  run_account-Submits (aqav2_role t r e) = Submits-fail_if _ _ _ (submits _ _ e)

-- ===== src/Exchange/Signed.antt =====
-- What the user-signed methods sign: the EIP-712 fields of _internal/signing.py are keys of the actions of
-- exchange.py.
use async_hyperliquid.Prelude.{
  String, ◌≡◌, refl, Bool, true, false, ◌&&◌, ◌||◌, Option, none, some, List, [], ◌∷◌,
  if◌then◌else◌, string_eq, ◌==◌, nat_eq, int_eq,
}
use async_hyperliquid.Json.{JsonValue, bool, int, str, JsonObject, member}
use async_hyperliquid.World.{Externals, World}
use async_hyperliquid.World.Exec.{◌>>=◌}
use async_hyperliquid.Signing.{
  vault_bytes, expiry_bytes, action_data, hash_action, exchange_domain_hash, sign_exchange_action,
  wire_action, sign_user_action,
}
use async_hyperliquid.Transport.{post, post_json}
use async_hyperliquid.Exchange.{
  Config, next_nonce, exchange_reply, post_envelope, submit_action, submit_user_action,
}
use async_hyperliquid.Exchange.Trading.{
  submit_orders, submit_cancels, submit_cloid_cancels, submit_modify, submit_modifies,
  schedule_cancel, update_leverage, update_isolated_margin, submit_twap, submit_twap_cancel,
  set_referrer_code, create_sub_account, reserve_request_weight, noop, use_big_blocks,
  agent_enable_dex_abstraction, agent_set_abstraction, claim_rewards,
}
use async_hyperliquid.Exchange.Transfers.{
  vault_transfer, hip3_liquidator_transfer, usd_transfer, spot_transfer, withdraw,
  usd_class_transfer, send_asset, agent_send_asset, send_to_evm_with_data, staking_deposit,
  staking_withdraw, token_delegate,
}
use async_hyperliquid.Exchange.Outcomes.{
  approve_agent, approve_builder_fee, convert_to_multi_sig_user, user_dex_abstraction,
  user_set_abstraction, split_outcome, merge_outcome, merge_question, negate_outcome,
  vote_risk_free_rate, authorize_aqav2_role,
}
use async_hyperliquid.Exchange.Commands.{Command, trade, transfer, account, run}
use async_hyperliquid.Exchange.Commands.Trade.{TradeCommand, rewards, run_trade}
use async_hyperliquid.Exchange.Commands.Transfer.{TransferCommand, stake, run_transfer}
use async_hyperliquid.Exchange.Commands.Account.{AccountCommand, dex_abstraction, run_account}

-- Whether a value is of the kind that an EIP-712 type takes: a text for a string, an address or bytes,
-- an integer for a number, and a Boolean. Neither the form of a text nor the range of a number is read.
abbrev pub is_of : String → Option JsonValue → Bool
is_of t (some (str s)) = (t == "string") || ((t == "address") || (t == "bytes"))
is_of t (some (int n)) = (t == "uint64") || (t == "uint32")
is_of t (some (bool b)) = t == "bool"
is_of t _ = false

-- Whether a message has every signed field.
unfoldable pub fits : List (String × String) → JsonObject → Bool
fits [] message = true
fits ((name, t) ∷ fields_) message = is_of t (member name message) && fits fields_ message

-- The key signs only messages that fit.
abbrev pub guarded : Externals → Externals
guarded x = record x {
  sign_typed_data = λ spec message.
      if fits spec.message_types message then x.sign_typed_data spec message else none;
}

module _ (x : Externals) (c : Config) (w : World) where
  run_trade-guarded : (k : TradeCommand) → run_trade (guarded x) c k w ≡ run_trade x c k w
  unfolding submit_action ◌>>=◌ next_nonce sign_exchange_action hash_action action_data vault_bytes
      expiry_bytes exchange_domain_hash post_envelope exchange_reply post_json post submit_orders
      submit_cancels submit_cloid_cancels submit_modify submit_modifies schedule_cancel
      update_leverage update_isolated_margin submit_twap submit_twap_cancel set_referrer_code
      create_sub_account reserve_request_weight noop use_big_blocks agent_enable_dex_abstraction
      agent_set_abstraction claim_rewards
  run_trade-guarded (rewards e) = refl
  run_trade-guarded _ = refl

  run_transfer-guarded :
      (k : TransferCommand) → run_transfer (guarded x) c k w ≡ run_transfer x c k w
  unfolding submit_action ◌>>=◌ next_nonce sign_exchange_action hash_action action_data vault_bytes
      expiry_bytes exchange_domain_hash post_envelope exchange_reply post_json post
      submit_user_action sign_user_action wire_action fits member vault_transfer
      hip3_liquidator_transfer usd_transfer spot_transfer withdraw usd_class_transfer send_asset
      agent_send_asset send_to_evm_with_data staking_deposit staking_withdraw token_delegate
  run_transfer-guarded (stake a) = refl
  run_transfer-guarded _ = refl

  run_account-guarded : (k : AccountCommand) → run_account (guarded x) c k w ≡ run_account x c k w
  unfolding submit_action ◌>>=◌ next_nonce sign_exchange_action hash_action action_data vault_bytes
      expiry_bytes exchange_domain_hash post_envelope exchange_reply post_json post
      submit_user_action sign_user_action wire_action fits member approve_agent approve_builder_fee
      convert_to_multi_sig_user user_dex_abstraction user_set_abstraction split_outcome
      merge_outcome merge_question negate_outcome vote_risk_free_rate authorize_aqav2_role
  run_account-guarded (dex_abstraction b) = refl
  run_account-guarded _ = refl

  -- Every method of the exchange client, from every state, is the same with a key that signs only the
  -- messages in which each field of the signing spec is a key of the signed action, with a text for a
  -- string, an address or bytes, an integer for a number, and a Boolean for a bool. (`noop` is run without
  -- a nonce of the caller's.)
  pub run-guarded : (k : Command) → run (guarded x) c k w ≡ run x c k w
  run-guarded (trade k) = run_trade-guarded k
  run-guarded (transfer k) = run_transfer-guarded k
  run-guarded (account k) = run_account-guarded k

-- ===== src/Exchange/Typed/Transfer.antt =====
-- The transfers post typed actions.
use async_hyperliquid.Prelude.{◌≡◌, refl, ◌⊎◌, inl, inr, none, some, string_eq, nat_eq, int_eq}
use async_hyperliquid.Json.{member}
use async_hyperliquid.World.{Externals}
use async_hyperliquid.Signing.{wire_action}
use async_hyperliquid.Response.{default}
use async_hyperliquid.Exchange.{Config}
use async_hyperliquid.Exchange.Transfers.{
  vault_transfer, hip3_liquidator_transfer, usd_transfer, spot_transfer, withdraw,
  usd_class_transfer, send_asset, agent_send_asset, send_to_evm_with_data, staking_deposit,
  staking_withdraw, token_delegate,
}
use async_hyperliquid.Exchange.Commands.Transfer.{
  TransferCommand, vault, liquidator, usd, spot, withdrawal, usd_class, asset, agent_asset, evm,
  stake, unstake, delegate, run_transfer,
}
use async_hyperliquid.Exchange.Typed.{
  IsTyped, IsTyped-lift_bind, IsTyped-fail_if, IsTyped-next_nonce, submit_action-IsTyped, sends,
}
use async_hyperliquid.Types.{has_type, has_keys}
use async_hyperliquid.Types.Replies.{default_action_response_type}

-- `address_encoding` is one of its two values.
abbrev pub HasTypedTransfer : TransferCommand → Type 0
HasTypedTransfer (evm t n a r s encoding i g d) = (encoding ≡ "hex") ⊎ (encoding ≡ "base58")
HasTypedTransfer _ = Unit

module _ (x : Externals) (c : Config) where
  pub run_transfer-IsTyped :
      (k : TransferCommand)
      → HasTypedTransfer k
      → IsTyped default_action_response_type (run_transfer x c k)
  unfolding vault_transfer hip3_liquidator_transfer usd_transfer spot_transfer withdraw
      usd_class_transfer send_asset agent_send_asset send_to_evm_with_data staking_deposit
      staking_withdraw token_delegate has_type has_keys member wire_action
  run_transfer-IsTyped (vault v a d e) h =
      IsTyped-lift_bind x c _ _ (λ u. submit_action-IsTyped x c _ default e none refl)
  run_transfer-IsTyped (liquidator dex a d e) h =
      IsTyped-lift_bind x c _ _
        (λ u. IsTyped-fail_if x c _ _ _ (submit_action-IsTyped x c _ default e none refl))
  run_transfer-IsTyped (usd a d) h =
      IsTyped-next_nonce x c _ (λ n. IsTyped-lift_bind x c _ _ (λ t. sends x c _ _ n refl refl))
  run_transfer-IsTyped (spot t k a d) h =
      IsTyped-next_nonce x c _ (λ n. IsTyped-lift_bind x c _ _ (λ t. sends x c _ _ n refl refl))
  run_transfer-IsTyped (withdrawal a d) h =
      IsTyped-next_nonce x c _ (λ n. IsTyped-lift_bind x c _ _ (λ t. sends x c _ _ n refl refl))
  run_transfer-IsTyped (usd_class a b) h =
      IsTyped-next_nonce x c _ (λ n. IsTyped-lift_bind x c _ _ (λ t. sends x c _ _ n refl refl))
  run_transfer-IsTyped (asset t k a d s f) h =
      IsTyped-next_nonce x c _ (λ n. IsTyped-lift_bind x c _ _ (λ t. sends x c _ _ n refl refl))
  run_transfer-IsTyped (agent_asset t k a d s f e) h =
      IsTyped-next_nonce x c _
        (λ n. IsTyped-lift_bind x c _ _ (λ u. submit_action-IsTyped x c _ default e (some n) refl))
  run_transfer-IsTyped (evm t k a r s o i g d) (inl e) =
      IsTyped-next_nonce x c _
        (λ n. IsTyped-lift_bind x c _ _ (λ u. sends x c _ _ n (rw e refl) (rw e refl)))
  run_transfer-IsTyped (evm t k a r s o i g d) (inr e) =
      IsTyped-next_nonce x c _
        (λ n. IsTyped-lift_bind x c _ _ (λ u. sends x c _ _ n (rw e refl) (rw e refl)))
  run_transfer-IsTyped (stake a) h =
      IsTyped-next_nonce x c _ (λ n. IsTyped-lift_bind x c _ _ (λ t. sends x c _ _ n refl refl))
  run_transfer-IsTyped (unstake a) h =
      IsTyped-next_nonce x c _ (λ n. IsTyped-lift_bind x c _ _ (λ t. sends x c _ _ n refl refl))
  run_transfer-IsTyped (delegate v a b) h =
      IsTyped-next_nonce x c _ (λ n. IsTyped-lift_bind x c _ _ (λ t. sends x c _ _ n refl refl))

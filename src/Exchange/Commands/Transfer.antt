-- ===== src/Exchange/Commands/Transfer.antt =====
-- The transfers as commands, and what running one may do.
use async_hyperliquid.Prelude.{ℕ, String, Bool, Option, ℤ}
use async_hyperliquid.Json.{JsonValue}
use async_hyperliquid.World.{Externals}
use async_hyperliquid.World.Exec.{Exec, lift, ◌>>=◌}
use async_hyperliquid.Float.{Float}
use async_hyperliquid.Response.{default}
use async_hyperliquid.Amount.{amount_in_units, format_token_amount}
use async_hyperliquid.Exchange.{Config}
use async_hyperliquid.Exchange.Transfers.{
  vault_transfer, hip3_liquidator_transfer, usd_transfer, spot_transfer, withdraw,
  usd_class_transfer, send_asset, agent_send_asset, send_to_evm_with_data, staking_deposit,
  staking_withdraw, token_delegate,
}
use async_hyperliquid.Exchange.Effects.{
  Submits, Sends, Submits-lift_bind, Submits-fail_if, Sends-lift_bind, Submits-next_nonce,
}
use async_hyperliquid.Exchange.Posting.{
  submit_action-Sends, submit_action-Submits, submit_user_action-Sends,
}
use async_hyperliquid.Exchange.Commands.Plain.{
  amount_in_units-IsPlain, format_token_amount-IsPlain, exact_signed_units-IsPlain,
}

pub data TransferCommand : Type 0 where
  vault : String → Float → Bool → Option ℤ → TransferCommand
  liquidator : String → Float → Bool → Option ℤ → TransferCommand
  usd : Float → String → TransferCommand
  spot : String → ℕ → Float → String → TransferCommand
  withdrawal : Float → Option String → TransferCommand
  usd_class : Float → Bool → TransferCommand
  asset : String → ℕ → Float → String → String → String → TransferCommand
  agent_asset : String → ℕ → Float → String → String → String → Option ℤ → TransferCommand
  evm : String → ℕ → Float → String → String → String → ℤ → ℤ → String → TransferCommand
  stake : Float → TransferCommand
  unstake : Float → TransferCommand
  delegate : String → Float → Bool → TransferCommand

module _ (x : Externals) (c : Config) where
  abbrev pub run_transfer : TransferCommand → Exec JsonValue
  run_transfer (vault v a d e) = vault_transfer x c v a d e
  run_transfer (liquidator dex a d e) = hip3_liquidator_transfer x c dex a d e
  run_transfer (usd a d) = usd_transfer x c a d
  run_transfer (spot t n a d) = spot_transfer x c t n a d
  run_transfer (withdrawal a d) = withdraw x c a d
  run_transfer (usd_class a b) = usd_class_transfer x c a b
  run_transfer (asset t n a d s f) = send_asset x c t n a d s f
  run_transfer (agent_asset t n a d s f e) = agent_send_asset x c t n a d s f e
  run_transfer (evm t n a r s o i g d) = send_to_evm_with_data x c t n a r s o i g d
  run_transfer (stake a) = staking_deposit x c a
  run_transfer (unstake a) = staking_withdraw x c a
  run_transfer (delegate v a b) = token_delegate x c v a b

  formatted :
      (n : ℕ) (a : Float) (d : ℕ) (f : String → Exec JsonValue)
      → ((t : String) → Sends c n (f t))
      → Sends c n (lift (format_token_amount x.floats a d) >>= f)
  formatted n a d f k = Sends-lift_bind n _ f (format_token_amount-IsPlain x.floats a d) k

  counted :
      (n : ℕ) (a : Float) (d : ℕ) (f : ℕ → Exec JsonValue)
      → ((u : ℕ) → Sends c n (f u))
      → Sends c n (lift (amount_in_units x.floats a d) >>= f)
  counted n a d f k = Sends-lift_bind n _ f (amount_in_units-IsPlain x.floats a d) k

  pub run_transfer-Submits : (k : TransferCommand) → Submits c (run_transfer k)
  unfolding vault_transfer hip3_liquidator_transfer usd_transfer spot_transfer withdraw
      usd_class_transfer send_asset agent_send_asset send_to_evm_with_data staking_deposit
      staking_withdraw token_delegate
  run_transfer-Submits (vault v a d e) =
      Submits-lift_bind _ _ (amount_in_units-IsPlain x.floats a 6)
        (λ u. submit_action-Submits x c _ default e)
  run_transfer-Submits (liquidator dex a d e) =
      Submits-lift_bind _ _ (exact_signed_units-IsPlain x.floats a 6)
        (λ u. Submits-fail_if _ _ _ (submit_action-Submits x c _ default e))
  run_transfer-Submits (usd a d) =
      Submits-next_nonce x _ (λ n. formatted n a 2 _ (λ t. submit_user_action-Sends x c _ _ n))
  run_transfer-Submits (spot t k a d) =
      Submits-next_nonce x _ (λ n. formatted n a k _ (λ t. submit_user_action-Sends x c _ _ n))
  run_transfer-Submits (withdrawal a d) =
      Submits-next_nonce x _ (λ n. formatted n a 2 _ (λ t. submit_user_action-Sends x c _ _ n))
  run_transfer-Submits (usd_class a b) =
      Submits-next_nonce x _ (λ n. formatted n a 2 _ (λ t. submit_user_action-Sends x c _ _ n))
  run_transfer-Submits (asset t k a d s f) =
      Submits-next_nonce x _ (λ n. formatted n a k _ (λ t. submit_user_action-Sends x c _ _ n))
  run_transfer-Submits (agent_asset t k a d s f e) =
      Submits-next_nonce x _ (λ n. formatted n a k _ (λ t. submit_action-Sends x c _ default e n))
  run_transfer-Submits (evm t k a r s o i g d) =
      Submits-next_nonce x _ (λ n. formatted n a k _ (λ t. submit_user_action-Sends x c _ _ n))
  run_transfer-Submits (stake a) =
      Submits-next_nonce x _ (λ n. counted n a 8 _ (λ u. submit_user_action-Sends x c _ _ n))
  run_transfer-Submits (unstake a) =
      Submits-next_nonce x _ (λ n. counted n a 8 _ (λ u. submit_user_action-Sends x c _ _ n))
  run_transfer-Submits (delegate v a b) =
      Submits-next_nonce x _ (λ n. counted n a 8 _ (λ u. submit_user_action-Sends x c _ _ n))

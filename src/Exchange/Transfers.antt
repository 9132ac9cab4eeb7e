-- ===== src/Exchange/Transfers.antt =====
-- The transfers of exchange.py: user-signed actions, with an EIP-712 message each, and the transfers
-- that are signed as exchange actions.
use Prim.Native.String.{compare}
use Prim.Native.Nat.{Ordering}
use async_hyperliquid.Prelude.{
  ℕ, ◌%◌, String, Bool, true, not, ◌||◌, Option, none, some, List, [], ◌∷◌, ◌++◌, if◌then◌else◌,
  string_eq, ◌==◌, nat_eq, ℤ, pos, negsuc, int_eq,
}
use async_hyperliquid.Result.{value_error}
use async_hyperliquid.Text.{chars, of_chars, char_eq}
use async_hyperliquid.Json.{JsonValue, bool, int, str}
use async_hyperliquid.World.{Externals}
use async_hyperliquid.World.Exec.{Exec, lift, ◌>>=◌, ◌>>◌, fail_if}
use async_hyperliquid.Float.{Float}
use async_hyperliquid.Response.{default}
use async_hyperliquid.Amount.{amount_in_units, format_token_amount, exact_signed_units}
use async_hyperliquid.Signing.Specs.{
  usd_send_spec, spot_send_spec, withdraw_spec, usd_class_transfer_spec, send_asset_spec,
  send_to_evm_with_data_spec, staking_transfer_spec, staking_withdraw_spec, token_delegate_spec,
}
use async_hyperliquid.Exchange.{Config, next_nonce, submit_action, submit_user_action}

-- `sorted(texts)`, stable
unfoldable pub insert_text : String → List String → List String
insert_text t [] = t ∷ []
insert_text t (u ∷ us) = elim (compare t u) [
  | Ordering.gt ↦ u ∷ insert_text t us
  | _ ↦ t ∷ (u ∷ us)
]

unfoldable pub sort_texts : List String → List String
unfolding insert_text
sort_texts [] = []
sort_texts (t ∷ ts) = insert_text t (sort_texts ts)

abbrev text_or_empty : Option String → String
text_or_empty none = ""
text_or_empty (some s) = s

-- `f" subaccount:{vault}"` behind the amount
abbrev with_subaccount : String → Option String → String
with_subaccount amount none = amount
with_subaccount amount (some vault) =
    of_chars (chars amount ++ (chars " subaccount:" ++ chars vault))

module _ (x : Externals) (c : Config) where
  unfoldable pub vault_transfer : String → Float → Bool → Option ℤ → Exec JsonValue
  vault_transfer vault_address amount is_deposit expires_after = do
    usd ← lift (amount_in_units x.floats amount 6)
    submit_action x c
        (("type", str "vaultTransfer")
          ∷ (("vaultAddress", str vault_address)
              ∷ (("isDeposit", bool is_deposit) ∷ (("usd", int (pos usd)) ∷ []))))
        default expires_after none

  -- `notional <= 0 or notional % 1_000_000_000`
  abbrev is_bad_notional : ℤ → Bool
  is_bad_notional (pos n) = (n == 0) || not (n % 1_000_000_000 == 0)
  is_bad_notional (negsuc n) = true

  unfoldable pub hip3_liquidator_transfer : String → Float → Bool → Option ℤ → Exec JsonValue
  hip3_liquidator_transfer dex amount is_deposit expires_after = do
    notional ← lift (exact_signed_units x.floats amount 6)
    fail_if (is_bad_notional notional)
        (value_error "amount must be a positive multiple of 1000 quote tokens")
    submit_action x c
        (("type", str "hip3LiquidatorTransfer")
          ∷ (("dex", str dex) ∷ (("ntl", int notional) ∷ (("isDeposit", bool is_deposit) ∷ []))))
        default expires_after none

  unfoldable pub usd_transfer : Float → String → Exec JsonValue
  usd_transfer amount destination = do
    nonce ← next_nonce x
    text ← lift (format_token_amount x.floats amount 2)
    submit_user_action x c
        (("type", str "usdSend")
          ∷ (("amount", str text)
              ∷ (("destination", str destination) ∷ (("time", int (pos nonce)) ∷ []))))
        usd_send_spec nonce

  unfoldable pub spot_transfer : String → ℕ → Float → String → Exec JsonValue
  spot_transfer token wei_decimals amount destination = do
    nonce ← next_nonce x
    text ← lift (format_token_amount x.floats amount wei_decimals)
    submit_user_action x c
        (("type", str "spotSend")
          ∷ (("destination", str destination)
              ∷ (("token", str token) ∷ (("amount", str text) ∷ (("time", int (pos nonce)) ∷ [])))))
        spot_send_spec nonce

  -- `destination or self._account_address`
  abbrev destination_or_account : Option String → String
  destination_or_account none = c.account_address
  destination_or_account (some d) = if d == "" then c.account_address else d

  unfoldable pub withdraw : Float → Option String → Exec JsonValue
  withdraw amount destination = do
    nonce ← next_nonce x
    text ← lift (format_token_amount x.floats amount 2)
    submit_user_action x c
        (("type", str "withdraw3")
          ∷ (("amount", str text)
              ∷ (("time", int (pos nonce))
                  ∷ (("destination", str (destination_or_account destination)) ∷ []))))
        withdraw_spec nonce

  unfoldable pub usd_class_transfer : Float → Bool → Exec JsonValue
  usd_class_transfer amount to_perp = do
    nonce ← next_nonce x
    text ← lift (format_token_amount x.floats amount 2)
    submit_user_action x c
        (("type", str "usdClassTransfer")
          ∷ (("amount", str (with_subaccount text c.vault_address))
              ∷ (("toPerp", bool to_perp) ∷ (("nonce", int (pos nonce)) ∷ []))))
        usd_class_transfer_spec nonce

  unfoldable pub send_asset : String → ℕ → Float → String → String → String → Exec JsonValue
  send_asset token wei_decimals amount destination source_dex destination_dex = do
    nonce ← next_nonce x
    text ← lift (format_token_amount x.floats amount wei_decimals)
    submit_user_action x c
        (("type", str "sendAsset")
          ∷ (("token", str token)
              ∷ (("amount", str text)
                  ∷ (("destination", str destination)
                      ∷ (("sourceDex", str source_dex)
                          ∷ (("destinationDex", str destination_dex)
                              ∷ (("fromSubAccount", str (text_or_empty c.vault_address))
                                  ∷ (("nonce", int (pos nonce)) ∷ []))))))))
        send_asset_spec nonce

  unfoldable pub agent_send_asset :
      String → ℕ → Float → String → String → String → Option ℤ → Exec JsonValue
  agent_send_asset token wei_decimals amount destination source_dex destination_dex expires_after =
      do
        nonce ← next_nonce x
        text ← lift (format_token_amount x.floats amount wei_decimals)
        submit_action x c
            (("type", str "agentSendAsset")
              ∷ (("destination", str destination)
                  ∷ (("sourceDex", str source_dex)
                      ∷ (("destinationDex", str destination_dex)
                          ∷ (("token", str token)
                              ∷ (("amount", str text)
                                  ∷ (("fromSubAccount", str (text_or_empty c.vault_address))
                                      ∷ (("nonce", int (pos nonce)) ∷ []))))))))
            default expires_after (some nonce)

  unfoldable pub send_to_evm_with_data :
      String → ℕ → Float → String → String → String → ℤ → ℤ → String → Exec JsonValue
  send_to_evm_with_data token wei_decimals amount recipient source_dex encoding chain_id gas_limit
        calldata =
      do
        nonce ← next_nonce x
        text ← lift (format_token_amount x.floats amount wei_decimals)
        submit_user_action x c
            (("type", str "sendToEvmWithData")
              ∷ (("token", str token)
                  ∷ (("amount", str text)
                      ∷ (("sourceDex", str source_dex)
                          ∷ (("destinationRecipient", str recipient)
                              ∷ (("addressEncoding", str encoding)
                                  ∷ (("destinationChainId", int chain_id)
                                      ∷ (("gasLimit", int gas_limit)
                                          ∷ (("data", str calldata)
                                              ∷ (("nonce", int (pos nonce)) ∷ []))))))))))
            send_to_evm_with_data_spec nonce

  unfoldable pub staking_deposit : Float → Exec JsonValue
  staking_deposit amount = do
    nonce ← next_nonce x
    wei ← lift (amount_in_units x.floats amount 8)
    submit_user_action x c
        (("type", str "cDeposit") ∷ (("wei", int (pos wei)) ∷ (("nonce", int (pos nonce)) ∷ [])))
        staking_transfer_spec nonce

  unfoldable pub staking_withdraw : Float → Exec JsonValue
  staking_withdraw amount = do
    nonce ← next_nonce x
    wei ← lift (amount_in_units x.floats amount 8)
    submit_user_action x c
        (("type", str "cWithdraw") ∷ (("wei", int (pos wei)) ∷ (("nonce", int (pos nonce)) ∷ [])))
        staking_withdraw_spec nonce

  unfoldable pub token_delegate : String → Float → Bool → Exec JsonValue
  token_delegate validator amount undelegate = do
    nonce ← next_nonce x
    wei ← lift (amount_in_units x.floats amount 8)
    submit_user_action x c
        (("type", str "tokenDelegate")
          ∷ (("validator", str validator)
              ∷ (("wei", int (pos wei))
                  ∷ (("isUndelegate", bool undelegate) ∷ (("nonce", int (pos nonce)) ∷ [])))))
        token_delegate_spec nonce

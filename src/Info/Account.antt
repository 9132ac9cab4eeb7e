-- ===== src/Info/Account.antt =====
-- src/async_hyperliquid/info.py: the endpoints about accounts, orders, vaults and staking.
use async_hyperliquid.Prelude.{
  String, Bool, true, false, Option, none, some, List, [], ◌∷◌, ◌++◌, if◌then◌else◌, ℤ,
}
use async_hyperliquid.Result.{value_error, Result}
use async_hyperliquid.Json.{JsonValue, bool, int, str, JsonObject}
use async_hyperliquid.Order.{OrderId, by_oid, by_cloid}
use async_hyperliquid.World.{Externals}
use async_hyperliquid.World.Exec.{Exec, ◌>>◌, fail_if}
use async_hyperliquid.Info.{
  expect_object, expect_optional_object, expect_list, expect_optional_list, expect_bool, expect_int,
  expect_string,
}
use async_hyperliquid.Info.Client.{InfoClient, optional_int, ask_for}

module _ (x : Externals) (i : InfoClient) where
  -- A payload with the user alone.
  abbrev ask_user {ℓ} : {A : Type ℓ} → (JsonValue → String → Result A) → String → String → Exec A
  ask_user read t user = ask_for x i read t (("user", str user) ∷ [])

  unfoldable pub open_orders : String → Bool → String → Exec (List JsonValue)
  open_orders account_address frontend dex =
      ask_for x i expect_list (if frontend then "frontendOpenOrders" else "openOrders")
        (("user", str account_address) ∷ (("dex", str dex) ∷ []))

  abbrev reversed_field : Bool → List (String × JsonValue)
  reversed_field true = ("reversed", bool true) ∷ []
  reversed_field false = []

  abbrev is_given : Option ℤ → Bool
  is_given none = false
  is_given (some n) = true

  unfoldable pub user_fills : String → Bool → Option ℤ → Option ℤ → Bool → Exec (List JsonValue)
  user_fills account_address aggregate_by_time none end_time reversed = do
    fail_if (is_given end_time) (value_error "end_time requires start_time")
    fail_if reversed (value_error "reversed requires start_time")
    ask_for x i expect_list "userFills"
        (("user", str account_address) ∷ (("aggregateByTime", bool aggregate_by_time) ∷ []))
  user_fills account_address aggregate_by_time (some start_time) end_time reversed =
      ask_for x i expect_list "userFillsByTime" (
        ("user", str account_address)
        ∷ (("aggregateByTime", bool aggregate_by_time)
            ∷ (("startTime", int start_time)
                ∷ (optional_int "endTime" end_time ++ reversed_field reversed))))

  unfoldable pub user_rate_limit : String → Exec JsonObject
  user_rate_limit account_address = ask_user expect_object "userRateLimit" account_address

  unfoldable pub extra_agents : String → Exec (List JsonValue)
  extra_agents account_address = ask_user expect_list "extraAgents" account_address

  -- `order_id` is an integer or a text.
  unfoldable pub order_status : String → OrderId → String → Exec JsonObject
  order_status account_address order_id dex =
      ask_for x i expect_object "orderStatus"
        (("user", str account_address) ∷ (("oid", id_json order_id) ∷ (("dex", str dex) ∷ [])))
    where
      id_json : OrderId → JsonValue
      id_json (by_oid n) = int n
      id_json (by_cloid t) = str t

  unfoldable pub max_builder_fee : String → String → Exec ℤ
  max_builder_fee user builder =
      ask_for x i expect_int "maxBuilderFee" (("user", str user) ∷ (("builder", str builder) ∷ []))

  unfoldable pub historical_orders : String → Exec (List JsonValue)
  historical_orders account_address = ask_user expect_list "historicalOrders" account_address

  unfoldable pub twap_slice_fills : String → Exec (List JsonValue)
  twap_slice_fills account_address = ask_user expect_list "userTwapSliceFills" account_address

  unfoldable pub sub_accounts : String → Exec (Option (List JsonValue))
  sub_accounts account_address = ask_user expect_optional_list "subAccounts" account_address

  abbrev user_field : Option String → List (String × JsonValue)
  user_field none = []
  user_field (some user) = ("user", str user) ∷ []

  unfoldable pub vault_details : String → Option String → Exec (Option JsonObject)
  vault_details vault_address user =
      ask_for x i expect_optional_object "vaultDetails"
        (("vaultAddress", str vault_address) ∷ user_field user)

  unfoldable pub vault_equities : String → Exec (List JsonValue)
  vault_equities account_address = ask_user expect_list "userVaultEquities" account_address

  unfoldable pub user_role : String → Exec JsonObject
  user_role account_address = ask_user expect_object "userRole" account_address

  unfoldable pub portfolio : String → Exec (List JsonValue)
  portfolio account_address = ask_user expect_list "portfolio" account_address

  unfoldable pub referral : String → Exec JsonObject
  referral account_address = ask_user expect_object "referral" account_address

  unfoldable pub user_fees : String → Exec JsonObject
  user_fees account_address = ask_user expect_object "userFees" account_address

  unfoldable pub delegations : String → Exec (List JsonValue)
  delegations account_address = ask_user expect_list "delegations" account_address

  unfoldable pub staking_summary : String → Exec JsonObject
  staking_summary account_address = ask_user expect_object "delegatorSummary" account_address

  unfoldable pub staking_history : String → Exec (List JsonValue)
  staking_history account_address = ask_user expect_list "delegatorHistory" account_address

  unfoldable pub staking_rewards : String → Exec (List JsonValue)
  staking_rewards account_address = ask_user expect_list "delegatorRewards" account_address

  unfoldable pub user_dex_abstraction : String → Exec Bool
  user_dex_abstraction account_address = ask_user expect_bool "userDexAbstraction" account_address

  unfoldable pub user_abstraction : String → Exec String
  user_abstraction account_address = ask_user expect_string "userAbstraction" account_address

  unfoldable pub perp_account_state : String → String → Exec JsonObject
  perp_account_state account_address dex =
      ask_for x i expect_object "clearinghouseState"
        (("user", str account_address) ∷ (("dex", str dex) ∷ []))

  unfoldable pub ledger_updates : String → String → ℤ → Option ℤ → Exec (List JsonValue)
  ledger_updates request_type account_address start_time end_time =
      ask_for x i expect_list request_type (
        ("user", str account_address)
        ∷ (("startTime", int start_time) ∷ optional_int "endTime" end_time))

  unfoldable pub funding_updates : String → ℤ → Option ℤ → Exec (List JsonValue)
  funding_updates account_address start_time end_time =
      ledger_updates "userFunding" account_address start_time end_time

  unfoldable pub non_funding_ledger_updates : String → ℤ → Option ℤ → Exec (List JsonValue)
  non_funding_ledger_updates account_address start_time end_time =
      ledger_updates "userNonFundingLedgerUpdates" account_address start_time end_time

  unfoldable pub active_asset_data : String → String → Exec JsonObject
  active_asset_data account_address coin =
      ask_for x i expect_object "activeAssetData"
        (("user", str account_address) ∷ (("coin", str coin) ∷ []))

  unfoldable pub spot_account_state : String → Exec JsonObject
  spot_account_state account_address =
      ask_user expect_object "spotClearinghouseState" account_address

  unfoldable pub spot_deploy_state : String → Exec JsonObject
  spot_deploy_state account_address = ask_user expect_object "spotDeployState" account_address

-- ===== src/Info/Typed/Account.antt =====
-- src/async_hyperliquid/info.py: the endpoints about accounts, by their types: a reply of the declared type is returned as
-- it is.
use async_hyperliquid.Prelude.{
  ℕ, String, ◌≡◌, refl, Bool, true, false, Option, none, some, [], ◌∷◌, ℤ,
}
use async_hyperliquid.Result.{ok}
use async_hyperliquid.Json.{JsonValue, bool, int, str, obj, array}
use async_hyperliquid.World.{Externals, World}
use async_hyperliquid.World.Exec.{Exec, ◌>>=◌, fail_if}
use async_hyperliquid.Order.{OrderId}
use async_hyperliquid.Info.{expect_list}
use async_hyperliquid.Info.Client.{InfoClient}
use async_hyperliquid.Info.Account.{
  open_orders, user_fills, user_rate_limit, extra_agents, order_status, max_builder_fee,
  historical_orders, twap_slice_fills, sub_accounts, vault_details, vault_equities, user_role,
  portfolio, referral, user_fees, delegations, staking_summary, staking_history, staking_rewards,
  user_dex_abstraction, user_abstraction, perp_account_state, ledger_updates, funding_updates,
  non_funding_ledger_updates, active_asset_data, spot_account_state, spot_deploy_state,
}
use async_hyperliquid.Types.{Schema, integer, boolean, nothing, either, has_type}
use async_hyperliquid.Types.Kinds.{typed-all_of}
use async_hyperliquid.Types.OrderReplies.{
  open_orders_type, frontend_open_orders_type, user_fills_type, extra_agents_type,
  user_rate_limit_type, order_status_type, historical_orders_type, twap_slice_fills_type,
}
use async_hyperliquid.Types.UserReplies.{
  vault_equities_type, user_role_type, portfolio_type, vault_details_type, referral_type,
}
use async_hyperliquid.Types.FeeReplies.{
  user_fees_type, delegations_type, staking_summary_type, staking_history_type,
  staking_rewards_type, user_abstraction_state_type,
}
use async_hyperliquid.Types.SpotReplies.{spot_clearinghouse_state_type, spot_deploy_state_type}
use async_hyperliquid.Types.PerpReplies.{clearinghouse_state_type, sub_accounts_type}
use async_hyperliquid.Types.LedgerReplies.{ledger_updates_type, active_asset_data_type}
use async_hyperliquid.Info.Typed.{
  is_object, is_list, is_boolean, is_integer, is_text, or_null, optional_json, object-Reads,
  list-Reads, boolean-Reads, integer-Reads, text-Reads, optional_object-Reads, optional_list-Reads,
}
use async_hyperliquid.Info.Typed.Asking.{returned, Answers, fetched}

pub data AccountQuery : Type 0 where
  open_orders_of : String → Bool → String → AccountQuery
  user_fills_of : String → Bool → Option ℤ → Option ℤ → Bool → AccountQuery
  rate_limit_of : String → AccountQuery
  agents_of : String → AccountQuery
  status_of : String → OrderId → String → AccountQuery
  builder_fee_of : String → String → AccountQuery
  history_of : String → AccountQuery
  twap_fills_of : String → AccountQuery
  sub_accounts_of : String → AccountQuery
  vault_of : String → Option String → AccountQuery
  equities_of : String → AccountQuery
  role_of : String → AccountQuery
  portfolio_of : String → AccountQuery
  referral_of : String → AccountQuery
  fees_of : String → AccountQuery
  delegations_of : String → AccountQuery
  staking_of : String → AccountQuery
  staking_history_of : String → AccountQuery
  staking_rewards_of : String → AccountQuery
  dex_abstraction_of : String → AccountQuery
  abstraction_of : String → AccountQuery
  perp_state_of : String → String → AccountQuery
  fundings_of : String → ℤ → Option ℤ → AccountQuery
  ledger_of : String → ℤ → Option ℤ → AccountQuery
  active_asset_of : String → String → AccountQuery
  spot_state_of : String → AccountQuery
  spot_deploy_of : String → AccountQuery

-- What each method is declared to return. A type that refers to itself is written out to `depth`.
abbrev pub account_query_type : ℕ → AccountQuery → Schema
account_query_type depth (open_orders_of a true dex) = frontend_open_orders_type depth
account_query_type depth (open_orders_of a false dex) = open_orders_type
account_query_type depth (user_fills_of a b c d e) = user_fills_type
account_query_type depth (rate_limit_of a) = user_rate_limit_type
account_query_type depth (agents_of a) = extra_agents_type
account_query_type depth (status_of a b c) = order_status_type depth
account_query_type depth (builder_fee_of a b) = integer
account_query_type depth (history_of a) = historical_orders_type depth
account_query_type depth (twap_fills_of a) = twap_slice_fills_type
account_query_type depth (sub_accounts_of a) = either sub_accounts_type nothing
account_query_type depth (vault_of a b) = either vault_details_type nothing
account_query_type depth (equities_of a) = vault_equities_type
account_query_type depth (role_of a) = user_role_type
account_query_type depth (portfolio_of a) = portfolio_type
account_query_type depth (referral_of a) = referral_type
account_query_type depth (fees_of a) = user_fees_type
account_query_type depth (delegations_of a) = delegations_type
account_query_type depth (staking_of a) = staking_summary_type
account_query_type depth (staking_history_of a) = staking_history_type
account_query_type depth (staking_rewards_of a) = staking_rewards_type
account_query_type depth (dex_abstraction_of a) = boolean
account_query_type depth (abstraction_of a) = user_abstraction_state_type
account_query_type depth (perp_state_of a b) = clearinghouse_state_type
account_query_type depth (fundings_of a b c) = ledger_updates_type
account_query_type depth (ledger_of a b c) = ledger_updates_type
account_query_type depth (active_asset_of a b) = active_asset_data_type
account_query_type depth (spot_state_of a) = spot_clearinghouse_state_type
account_query_type depth (spot_deploy_of a) = spot_deploy_state_type

-- The arguments with which a method does not raise by itself: user_fills takes an end or an order only
-- with a start.
abbrev pub IsAllowed : AccountQuery → Type 0
IsAllowed (user_fills_of a aggregate none end_time reversed) =
    (end_time ≡ none) × (reversed ≡ false)
IsAllowed _ = Unit {0}

module _ (x : Externals) (i : InfoClient) where
  abbrev pub run_account_query : AccountQuery → Exec JsonValue
  run_account_query (open_orders_of a frontend dex) =
      returned array (open_orders x i a frontend dex)
  run_account_query (user_fills_of a b c d e) = returned array (user_fills x i a b c d e)
  run_account_query (rate_limit_of a) = returned obj (user_rate_limit x i a)
  run_account_query (agents_of a) = returned array (extra_agents x i a)
  run_account_query (status_of a b c) = returned obj (order_status x i a b c)
  run_account_query (builder_fee_of a b) = returned int (max_builder_fee x i a b)
  run_account_query (history_of a) = returned array (historical_orders x i a)
  run_account_query (twap_fills_of a) = returned array (twap_slice_fills x i a)
  run_account_query (sub_accounts_of a) = returned (optional_json array) (sub_accounts x i a)
  run_account_query (vault_of a b) = returned (optional_json obj) (vault_details x i a b)
  run_account_query (equities_of a) = returned array (vault_equities x i a)
  run_account_query (role_of a) = returned obj (user_role x i a)
  run_account_query (portfolio_of a) = returned array (portfolio x i a)
  run_account_query (referral_of a) = returned obj (referral x i a)
  run_account_query (fees_of a) = returned obj (user_fees x i a)
  run_account_query (delegations_of a) = returned array (delegations x i a)
  run_account_query (staking_of a) = returned obj (staking_summary x i a)
  run_account_query (staking_history_of a) = returned array (staking_history x i a)
  run_account_query (staking_rewards_of a) = returned array (staking_rewards x i a)
  run_account_query (dex_abstraction_of a) = returned bool (user_dex_abstraction x i a)
  run_account_query (abstraction_of a) = returned str (user_abstraction x i a)
  run_account_query (perp_state_of a b) = returned obj (perp_account_state x i a b)
  run_account_query (fundings_of a b c) = returned array (funding_updates x i a b c)
  run_account_query (ledger_of a b c) = returned array (non_funding_ledger_updates x i a b c)
  run_account_query (active_asset_of a b) = returned obj (active_asset_data x i a b)
  run_account_query (spot_state_of a) = returned obj (spot_account_state x i a)
  run_account_query (spot_deploy_of a) = returned obj (spot_deploy_state x i a)

  module _ (w : World) (v : JsonValue) (a : Answers x w v) where
    -- Without a start, an end and a direction are refused before anything is asked.
    user_fills-returns :
        (user : String) (aggregate : Bool) (end_time : Option ℤ) (reversed : Bool)
        → end_time ≡ none
        → reversed ≡ false
        → has_type false user_fills_type v ≡ true
        → (returned array (user_fills x i user aggregate none end_time reversed) w).0 ≡ ok v
    unfolding user_fills fail_if ◌>>=◌
    user_fills-returns user aggregate end_time reversed no_end kept h =
        rw (no_end, kept)
          (fetched x i w v a expect_list array "userFills"
            (("user", str user) ∷ (("aggregateByTime", bool aggregate) ∷ []))
            (list-Reads v (typed-all_of false user_fills_type is_list v refl h)))

    pub run_account_query-returns :
        (depth : ℕ) (q : AccountQuery)
        → IsAllowed q
        → has_type false (account_query_type depth q) v ≡ true
        → (run_account_query q w).0 ≡ ok v
    unfolding open_orders ledger_updates user_fills user_rate_limit extra_agents order_status
        max_builder_fee historical_orders twap_slice_fills sub_accounts vault_details vault_equities
        user_role portfolio referral user_fees delegations staking_summary staking_history
        staking_rewards user_dex_abstraction user_abstraction perp_account_state funding_updates
        non_funding_ledger_updates active_asset_data spot_account_state spot_deploy_state
    run_account_query-returns depth (open_orders_of b false c) al h =
        fetched x i w v a _ _ _ _ (list-Reads v (typed-all_of false _ is_list v refl h))
    run_account_query-returns depth (open_orders_of b true c) al h =
        fetched x i w v a _ _ _ _ (list-Reads v (typed-all_of false _ is_list v refl h))
    run_account_query-returns depth (user_fills_of b c (some d) e f) al h =
        fetched x i w v a _ _ _ _ (list-Reads v (typed-all_of false _ is_list v refl h))
    run_account_query-returns depth (user_fills_of b c none e f) (no_end, kept) h =
        user_fills-returns b c e f no_end kept h
    run_account_query-returns depth (rate_limit_of b) al h =
        fetched x i w v a _ _ _ _ (object-Reads v (typed-all_of false _ is_object v refl h))
    run_account_query-returns depth (agents_of b) al h =
        fetched x i w v a _ _ _ _ (list-Reads v (typed-all_of false _ is_list v refl h))
    run_account_query-returns depth (status_of b c d) al h =
        fetched x i w v a _ _ _ _ (object-Reads v (typed-all_of false _ is_object v refl h))
    run_account_query-returns depth (builder_fee_of b c) al h =
        fetched x i w v a _ _ _ _ (integer-Reads v (typed-all_of false _ is_integer v refl h))
    run_account_query-returns depth (history_of b) al h =
        fetched x i w v a _ _ _ _ (list-Reads v (typed-all_of false _ is_list v refl h))
    run_account_query-returns depth (twap_fills_of b) al h =
        fetched x i w v a _ _ _ _ (list-Reads v (typed-all_of false _ is_list v refl h))
    run_account_query-returns depth (sub_accounts_of b) al h =
        fetched x i w v a _ _ _ _
          (optional_list-Reads v (typed-all_of false _ (or_null is_list) v refl h))
    run_account_query-returns depth (vault_of b c) al h =
        fetched x i w v a _ _ _ _
          (optional_object-Reads v (typed-all_of false _ (or_null is_object) v refl h))
    run_account_query-returns depth (equities_of b) al h =
        fetched x i w v a _ _ _ _ (list-Reads v (typed-all_of false _ is_list v refl h))
    run_account_query-returns depth (role_of b) al h =
        fetched x i w v a _ _ _ _ (object-Reads v (typed-all_of false _ is_object v refl h))
    run_account_query-returns depth (portfolio_of b) al h =
        fetched x i w v a _ _ _ _ (list-Reads v (typed-all_of false _ is_list v refl h))
    run_account_query-returns depth (referral_of b) al h =
        fetched x i w v a _ _ _ _ (object-Reads v (typed-all_of false _ is_object v refl h))
    run_account_query-returns depth (fees_of b) al h =
        fetched x i w v a _ _ _ _ (object-Reads v (typed-all_of false _ is_object v refl h))
    run_account_query-returns depth (delegations_of b) al h =
        fetched x i w v a _ _ _ _ (list-Reads v (typed-all_of false _ is_list v refl h))
    run_account_query-returns depth (staking_of b) al h =
        fetched x i w v a _ _ _ _ (object-Reads v (typed-all_of false _ is_object v refl h))
    run_account_query-returns depth (staking_history_of b) al h =
        fetched x i w v a _ _ _ _ (list-Reads v (typed-all_of false _ is_list v refl h))
    run_account_query-returns depth (staking_rewards_of b) al h =
        fetched x i w v a _ _ _ _ (list-Reads v (typed-all_of false _ is_list v refl h))
    run_account_query-returns depth (dex_abstraction_of b) al h =
        fetched x i w v a _ _ _ _ (boolean-Reads v (typed-all_of false _ is_boolean v refl h))
    run_account_query-returns depth (abstraction_of b) al h =
        fetched x i w v a _ _ _ _ (text-Reads v (typed-all_of false _ is_text v refl h))
    run_account_query-returns depth (perp_state_of b c) al h =
        fetched x i w v a _ _ _ _ (object-Reads v (typed-all_of false _ is_object v refl h))
    run_account_query-returns depth (fundings_of b c d) al h =
        fetched x i w v a _ _ _ _ (list-Reads v (typed-all_of false _ is_list v refl h))
    run_account_query-returns depth (ledger_of b c d) al h =
        fetched x i w v a _ _ _ _ (list-Reads v (typed-all_of false _ is_list v refl h))
    run_account_query-returns depth (active_asset_of b c) al h =
        fetched x i w v a _ _ _ _ (object-Reads v (typed-all_of false _ is_object v refl h))
    run_account_query-returns depth (spot_state_of b) al h =
        fetched x i w v a _ _ _ _ (object-Reads v (typed-all_of false _ is_object v refl h))
    run_account_query-returns depth (spot_deploy_of b) al h =
        fetched x i w v a _ _ _ _ (object-Reads v (typed-all_of false _ is_object v refl h))

-- ===== src/Info/Typed/Endpoints.antt =====
-- src/async_hyperliquid/info.py: every endpoint by its types.
use async_hyperliquid.Prelude.{ℕ, ◌≡◌, true, false}
use async_hyperliquid.Result.{ok}
use async_hyperliquid.Json.{JsonValue}
use async_hyperliquid.World.{Externals, World}
use async_hyperliquid.World.Exec.{Exec}
use async_hyperliquid.Info.Client.{InfoClient}
use async_hyperliquid.Types.{Schema, has_type}
use async_hyperliquid.Info.Typed.Asking.{Answers}
use async_hyperliquid.Info.Typed.Account.{
  AccountQuery, account_query_type, IsAllowed, run_account_query, run_account_query-returns,
}
use async_hyperliquid.Info.Typed.Market.{
  MarketQuery, market_query_type, run_market_query, run_market_query-returns,
}

pub data InfoQuery : Type 0 where
  account : AccountQuery → InfoQuery
  market : MarketQuery → InfoQuery

abbrev pub query_type : ℕ → InfoQuery → Schema
query_type depth (account q) = account_query_type depth q
query_type depth (market q) = market_query_type q

abbrev pub IsAllowedQuery : InfoQuery → Type 0
IsAllowedQuery (account q) = IsAllowed q
IsAllowedQuery (market q) = Unit {0}

module _ (x : Externals) (i : InfoClient) where
  abbrev pub run_query : InfoQuery → Exec JsonValue
  run_query (account q) = run_account_query x i q
  run_query (market q) = run_market_query x i q

  -- On an open transport with a live session, for each endpoint of the info client and all arguments with
  -- which it does not refuse to ask: a reply with status 200 that has the type the method declares,
  -- further keys aside, is returned just as it was received. (`perp_dex_names` is no endpoint of its own.)
  pub run_query-returns :
      (w : World) (v : JsonValue) (depth : ℕ) (q : InfoQuery)
      → Answers x w v
      → IsAllowedQuery q
      → has_type false (query_type depth q) v ≡ true
      → (run_query q w).0 ≡ ok v
  run_query-returns w v depth (account q) a al h = run_account_query-returns x i w v a depth q al h
  run_query-returns w v depth (market q) a al h = run_market_query-returns x i w v a q h

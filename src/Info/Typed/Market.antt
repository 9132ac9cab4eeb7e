-- ===== src/Info/Typed/Market.antt =====
-- src/async_hyperliquid/info.py: the endpoints about markets, by their types: a reply of the declared type is returned as
-- it is.
use async_hyperliquid.Prelude.{String, ◌≡◌, refl, true, false, Option, [], map, ℤ}
use async_hyperliquid.Result.{ok}
use async_hyperliquid.Json.{JsonValue, str, arr, obj, items, array}
use async_hyperliquid.World.{Externals, World}
use async_hyperliquid.World.Exec.{Exec, ◌>>=◌}
use async_hyperliquid.Info.{expect_list}
use async_hyperliquid.Info.Client.{InfoClient}
use async_hyperliquid.Info.Market.{
  all_mids, l2_book, candles, aligned_quote_token_info, perp_meta, perp_meta_and_contexts,
  all_perp_metas, perp_dexes, funding_history, predicted_fundings, perps_at_open_interest_cap,
  perp_deploy_auction_status, spot_meta, spot_meta_and_contexts, token_details,
}
use async_hyperliquid.Types.{Schema, text, nothing, either, list_of, has_type}
use async_hyperliquid.Types.Kinds.{typed-all_of}
use async_hyperliquid.Types.OrderReplies.{all_mids_type, l2_book_type, candles_type}
use async_hyperliquid.Types.SpotReplies.{
  spot_meta_type, spot_meta_and_contexts_type, token_details_type,
}
use async_hyperliquid.Types.PerpReplies.{
  aligned_quote_token_info_type, perp_meta_type, perp_meta_and_contexts_type, all_perp_metas_type,
  perp_dexes_type,
}
use async_hyperliquid.Types.LedgerReplies.{
  funding_rates_type, predicted_fundings_type, perp_deploy_auction_status_type,
}
use async_hyperliquid.Info.Typed.{
  is_object, is_list, or_null, optional_json, pair_json, array-items, object-Reads, list-Reads,
  optional_object-Reads, pair-Reads, objects-read, texts-read,
}
use async_hyperliquid.Info.Typed.Asking.{returned, Answers, ask_for-answered, fetched}

pub data MarketQuery : Type 0 where
  mids_of_dex : String → MarketQuery
  book_of : String → Option ℤ → Option ℤ → MarketQuery
  candles_of : String → String → ℤ → ℤ → MarketQuery
  quote_token_of : ℤ → MarketQuery
  meta_of : String → MarketQuery
  contexts_of : String → MarketQuery
  every_meta : MarketQuery
  every_dex : MarketQuery
  rates_of : String → ℤ → Option ℤ → MarketQuery
  predicted : MarketQuery
  capped_perps : MarketQuery
  auction_status : MarketQuery
  every_spot : MarketQuery
  spot_contexts : MarketQuery
  token_of : String → MarketQuery

-- What each method is declared to return.
abbrev pub market_query_type : MarketQuery → Schema
market_query_type (mids_of_dex a) = all_mids_type
market_query_type (book_of a b c) = l2_book_type
market_query_type (candles_of a b c d) = candles_type
market_query_type (quote_token_of a) = aligned_quote_token_info_type
market_query_type (meta_of a) = perp_meta_type
market_query_type (contexts_of a) = perp_meta_and_contexts_type
market_query_type every_meta = all_perp_metas_type
market_query_type every_dex = perp_dexes_type
market_query_type (rates_of a b c) = funding_rates_type
market_query_type predicted = predicted_fundings_type
market_query_type capped_perps = list_of text
market_query_type auction_status = perp_deploy_auction_status_type
market_query_type every_spot = spot_meta_type
market_query_type spot_contexts = spot_meta_and_contexts_type
market_query_type (token_of a) = either token_details_type nothing

module _ (x : Externals) (i : InfoClient) where
  abbrev pub run_market_query : MarketQuery → Exec JsonValue
  run_market_query (mids_of_dex a) = returned obj (all_mids x i a)
  run_market_query (book_of a b c) = returned obj (l2_book x i a b c)
  run_market_query (candles_of a b c d) = returned array (candles x i a b c d)
  run_market_query (quote_token_of a) = returned obj (aligned_quote_token_info x i a)
  run_market_query (meta_of a) = returned obj (perp_meta x i a)
  run_market_query (contexts_of a) = returned pair_json (perp_meta_and_contexts x i a)
  run_market_query every_meta = returned (λ os. array (map obj os)) (all_perp_metas x i)
  run_market_query every_dex = returned array (perp_dexes x i)
  run_market_query (rates_of a b c) = returned array (funding_history x i a b c)
  run_market_query predicted = returned array (predicted_fundings x i)
  run_market_query capped_perps =
      returned (λ ts. array (map str ts)) (perps_at_open_interest_cap x i)
  run_market_query auction_status = returned obj (perp_deploy_auction_status x i)
  run_market_query every_spot = returned obj (spot_meta x i)
  run_market_query spot_contexts = returned pair_json (spot_meta_and_contexts x i)
  run_market_query (token_of a) = returned (optional_json obj) (token_details x i a)

  all_perp_metas-returns :
      (w : World) (v : JsonValue)
      → Answers x w v
      → has_type false all_perp_metas_type v ≡ true
      → (returned (λ os. array (map obj os)) (all_perp_metas x i) w).0 ≡ ok v
  unfolding all_perp_metas ◌>>=◌ has_type
  all_perp_metas-returns w (arr vs) a h =
      let (os, e, m) = objects-read perp_meta_type (items vs) "allPerpMetas" refl h in
      rw
        (
          ask_for-answered x i w (arr vs) a expect_list "allPerpMetas" [] (items vs) refl,
          e,
          m,
          array-items vs,
        )
        refl
  all_perp_metas-returns w _ a h = cc

  perps_at_open_interest_cap-returns :
      (w : World) (v : JsonValue)
      → Answers x w v
      → has_type false (list_of text) v ≡ true
      → (returned (λ ts. array (map str ts)) (perps_at_open_interest_cap x i) w).0 ≡ ok v
  unfolding perps_at_open_interest_cap ◌>>=◌ has_type
  perps_at_open_interest_cap-returns w (arr vs) a h =
      let (ts, e, m) = texts-read (items vs) h in
      rw
        (
          ask_for-answered x i w (arr vs) a expect_list "perpsAtOpenInterestCap" [] (items vs) refl,
          e,
          m,
          array-items vs,
        )
        refl
  perps_at_open_interest_cap-returns w _ a h = cc

  module _ (w : World) (v : JsonValue) (a : Answers x w v) where
    pub run_market_query-returns :
        (q : MarketQuery)
        → has_type false (market_query_type q) v ≡ true
        → (run_market_query q w).0 ≡ ok v
    unfolding all_mids l2_book candles aligned_quote_token_info perp_meta perp_meta_and_contexts
        all_perp_metas perp_dexes funding_history predicted_fundings perps_at_open_interest_cap
        perp_deploy_auction_status spot_meta spot_meta_and_contexts token_details
    run_market_query-returns (mids_of_dex b) h =
        fetched x i w v a _ _ _ _ (object-Reads v (typed-all_of false _ is_object v refl h))
    run_market_query-returns (book_of b c d) h =
        fetched x i w v a _ _ _ _ (object-Reads v (typed-all_of false _ is_object v refl h))
    run_market_query-returns (candles_of b c d e) h =
        fetched x i w v a _ _ _ _ (list-Reads v (typed-all_of false _ is_list v refl h))
    run_market_query-returns (quote_token_of b) h =
        fetched x i w v a _ _ _ _ (object-Reads v (typed-all_of false _ is_object v refl h))
    run_market_query-returns (meta_of b) h =
        fetched x i w v a _ _ _ _ (object-Reads v (typed-all_of false _ is_object v refl h))
    run_market_query-returns (contexts_of b) h =
        fetched x i w v a _ _ _ _ (pair-Reads _ _ v refl refl h)
    run_market_query-returns every_meta h = all_perp_metas-returns w v a h
    run_market_query-returns every_dex h =
        fetched x i w v a _ _ _ _ (list-Reads v (typed-all_of false _ is_list v refl h))
    run_market_query-returns (rates_of b c d) h =
        fetched x i w v a _ _ _ _ (list-Reads v (typed-all_of false _ is_list v refl h))
    run_market_query-returns predicted h =
        fetched x i w v a _ _ _ _ (list-Reads v (typed-all_of false _ is_list v refl h))
    run_market_query-returns capped_perps h = perps_at_open_interest_cap-returns w v a h
    run_market_query-returns auction_status h =
        fetched x i w v a _ _ _ _ (object-Reads v (typed-all_of false _ is_object v refl h))
    run_market_query-returns every_spot h =
        fetched x i w v a _ _ _ _ (object-Reads v (typed-all_of false _ is_object v refl h))
    run_market_query-returns spot_contexts h =
        fetched x i w v a _ _ _ _ (pair-Reads _ _ v refl refl h)
    run_market_query-returns (token_of b) h =
        fetched x i w v a _ _ _ _
          (optional_object-Reads v (typed-all_of false _ (or_null is_object) v refl h))

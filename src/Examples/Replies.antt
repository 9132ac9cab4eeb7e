-- ===== src/Examples/Replies.antt =====
-- A reply of the exchange, the metadata of one market and its context.
use async_hyperliquid.Info.{price_from_context, context_price_by_coin}
use async_hyperliquid.Info.Contexts.{IsContextOf, context_price_by_coin-first}
use async_hyperliquid.Prelude.{◌≡◌, refl, ◌↔◌, some, [], ◌∷◌, string_eq, nat_eq, pos, ◌+ℤ◌, int_eq}
use async_hyperliquid.Result.{ok}
use async_hyperliquid.Json.{int, str, obj, JsonObject, field, items, array, member}
use async_hyperliquid.Dict.{get, put}
use async_hyperliquid.Metadata.{
  MarketInfo, MetadataSnapshot, empty_index, require_list, require_object, require_str, require_int,
}
use async_hyperliquid.Metadata.Perps.{
  has_duplicates, enumerate_offsets, dex_offsets, perp_dex, put_perp, index_perp_asset,
  index_perp_assets, universe_dex, index_universe, index_perp_meta, index_perp_metas,
  index_perp_metadata,
}
use async_hyperliquid.Metadata.Spot.{
  index_tokens, index_spot_tokens, index_pairs, index_spot_metadata, build_metadata,
}
use async_hyperliquid.Metadata.Lookup.{is_outcome_coin, market_info}
use async_hyperliquid.Metadata.Built.{market_info-build_metadata}
use async_hyperliquid.Text.{char_eq}
use async_hyperliquid.Response.{default, expect_action_response}
use async_hyperliquid.Response.Grammar.{Conforms}
use async_hyperliquid.Response.Validation.{accepted_iff_Conforms}
use async_hyperliquid.Examples.{one_and_half, example_floats, ok_reply}

accepted_iff_Conforms_example :
    (expect_action_response ok_reply default ≡ ok ok_reply) ↔ Conforms default ok_reply
accepted_iff_Conforms_example = accepted_iff_Conforms ok_reply default

abbrev btc_meta : JsonObject
btc_meta =
    field "universe"
      (array
        (obj (field "name" (str "BTC") (field "szDecimals" (int (pos 5)) JsonObject.end)) ∷ []))
      JsonObject.end

abbrev no_spot : JsonObject
no_spot = field "tokens" (array []) (field "universe" (array []) JsonObject.end)

abbrev pub btc_snapshot : MetadataSnapshot
btc_snapshot = record {
  index = put_perp "BTC" (pos 0) (pos 5) ("", 0) empty_index;
  perp_dex_names = "" ∷ [];
}

build_metadata_of_btc : build_metadata ("" ∷ []) (btc_meta ∷ []) no_spot ≡ ok btc_snapshot
unfolding build_metadata index_perp_metadata dex_offsets index_perp_metas index_perp_meta
    require_list member index_universe items universe_dex require_object require_str get perp_dex
    index_perp_assets index_perp_asset require_int index_spot_tokens put enumerate_offsets
    has_duplicates index_pairs index_spot_metadata index_tokens ◌+ℤ◌
build_metadata_of_btc = refl

market_info-build_metadata_example :
    (info : MarketInfo) × (market_info btc_snapshot "BTC" ≡ ok info)
    × (info.coin ≡ "BTC")
    × (info.asset ≡ pos 0)
    × (get (pos 0) btc_snapshot.size_decimals_by_asset ≡ some info.size_decimals)
unfolding get put is_outcome_coin
market_info-build_metadata_example =
    market_info-build_metadata ("" ∷ []) (btc_meta ∷ []) no_spot btc_snapshot "BTC" (pos 0)
      build_metadata_of_btc refl refl

abbrev btc_context : JsonObject
btc_context = field "coin" (str "BTC") (field "midPx" (str "1.50000000") JsonObject.end)

context_price_by_coin_of_btc :
    context_price_by_coin example_floats
      (obj (field "coin" (str "ETH") JsonObject.end) ∷ (obj btc_context ∷ []))
      "BTC"
      "midPx"
      "ctx"
    ≡ ok one_and_half
unfolding context_price_by_coin member
context_price_by_coin_of_btc = refl

context_price_by_coin-first_example :
    (context : JsonObject) × IsContextOf "BTC"
      (obj (field "coin" (str "ETH") JsonObject.end) ∷ (obj btc_context ∷ []))
      context
    × (price_from_context example_floats context "midPx" "ctx" ≡ ok one_and_half)
context_price_by_coin-first_example =
    context_price_by_coin-first example_floats
      (obj (field "coin" (str "ETH") JsonObject.end) ∷ (obj btc_context ∷ [])) "BTC" "midPx" "ctx"
      one_and_half context_price_by_coin_of_btc

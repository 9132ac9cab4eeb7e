-- ===== src/Types/PerpReplies.antt =====
-- src/async_hyperliquid/types/info.py: perpetual markets, positions and accounts.
use async_hyperliquid.Types.{
  Schema, text, integer, boolean, nothing, exactly, either, list_of, dict_of, pair_of, typed_dict,
  no_more, required, optional,
}
use async_hyperliquid.Types.SpotReplies.{spot_clearinghouse_state_type}

abbrev pub aligned_quote_token_info_type : Schema
aligned_quote_token_info_type = typed_dict (
    required "isAligned" boolean (
      required "firstAlignedTime" integer (
        required "evmMintedSupply" text (
          required "dailyAmountOwed" (list_of (list_of text))
            (required "predictedRate" text no_more)))))

abbrev pub margin_mode_type : Schema
margin_mode_type = either (exactly "strictIsolated") (exactly "noCross")

abbrev pub growth_mode_type : Schema
growth_mode_type = either (exactly "enabled") (exactly "disabled")

abbrev pub perp_asset_type : Schema
perp_asset_type = typed_dict (
    required "name" text (
      required "szDecimals" integer (
        required "maxLeverage" integer (
          optional "onlyIsolated" boolean (
            optional "isDelisted" boolean (
              optional "marginMode" margin_mode_type (
                optional "marginTableId" integer (
                  optional "growthMode" growth_mode_type
                    (optional "lastGrowthModeChangeTime" text no_more)))))))))

abbrev pub margin_tier_type : Schema
margin_tier_type = typed_dict (required "lowerBound" text (required "maxLeverage" integer no_more))

abbrev pub margin_table_type : Schema
margin_table_type =
    typed_dict
      (required "description" text (required "marginTiers" (list_of margin_tier_type) no_more))

abbrev pub margin_table_entry_type : Schema
margin_table_entry_type = list_of (either integer margin_table_type)

abbrev pub perp_meta_type : Schema
perp_meta_type = typed_dict (
    required "universe" (list_of perp_asset_type) (
      required "marginTables" (list_of margin_table_entry_type)
        (optional "collateralToken" integer no_more)))

abbrev pub perp_asset_context_type : Schema
perp_asset_context_type = typed_dict (
    required "dayNtlVlm" text (
      required "funding" text (
        required "impactPxs" (either (list_of text) nothing) (
          required "markPx" text (
            required "midPx" (either text nothing) (
              required "openInterest" text (
                required "oraclePx" text (
                  required "premium" (either text nothing)
                    (required "prevDayPx" text (optional "dayBaseVlm" text no_more))))))))))

abbrev pub perp_meta_and_contexts_type : Schema
perp_meta_and_contexts_type = pair_of perp_meta_type (list_of perp_asset_context_type)

abbrev pub all_perp_metas_type : Schema
all_perp_metas_type = list_of perp_meta_type

abbrev pub perp_dex_type : Schema
perp_dex_type = typed_dict (
    required "name" text (
      required "fullName" text (
        required "deployer" text (
          required "oracleUpdater" (either text nothing) (
            required "feeRecipient" (either text nothing) (
              required "assetToStreamingOiCap" (list_of (list_of text))
                (required "assetToFundingMultiplier" (list_of (list_of text)) no_more)))))))

abbrev pub perp_dexes_type : Schema
perp_dexes_type = list_of (either perp_dex_type nothing)

abbrev pub cumulative_funding_type : Schema
cumulative_funding_type =
    typed_dict
      (required "allTime" text (required "sinceChange" text (required "sinceOpen" text no_more)))

abbrev pub position_leverage_type : Schema
position_leverage_type = typed_dict (
    optional "rawUsd" text (
      required "type" (either (exactly "cross") (exactly "isolated"))
        (required "value" integer no_more)))

abbrev pub position_type : Schema
position_type = typed_dict (
    required "coin" text (
      required "cumFunding" cumulative_funding_type (
        required "entryPx" text (
          required "leverage" position_leverage_type (
            required "liquidationPx" (either text nothing) (
              required "marginUsed" text (
                required "maxLeverage" integer (
                  required "positionValue" text (
                    required "returnOnEquity" text
                      (required "szi" text (required "unrealizedPnl" text no_more)))))))))))

abbrev pub asset_position_type : Schema
asset_position_type =
    typed_dict (required "type" (exactly "oneWay") (required "position" position_type no_more))

abbrev pub margin_summary_type : Schema
margin_summary_type = typed_dict (
    required "accountValue" text (
      required "totalMarginUsed" text
        (required "totalNtlPos" text (required "totalRawUsd" text no_more))))

abbrev pub clearinghouse_state_type : Schema
clearinghouse_state_type = typed_dict (
    required "assetPositions" (list_of asset_position_type) (
      required "crossMaintenanceMarginUsed" text (
        required "crossMarginSummary" margin_summary_type (
          required "marginSummary" margin_summary_type
            (required "time" integer (required "withdrawable" text no_more))))))

abbrev pub account_state_type : Schema
account_state_type = typed_dict (
    required "perp" clearinghouse_state_type (
      required "spot" spot_clearinghouse_state_type
        (required "dexs" (dict_of clearinghouse_state_type) no_more)))

abbrev pub sub_account_type : Schema
sub_account_type = typed_dict (
    required "name" text (
      required "subAccountUser" text (
        required "master" text (
          required "clearinghouseState" clearinghouse_state_type
            (required "spotState" spot_clearinghouse_state_type no_more)))))

abbrev pub sub_accounts_type : Schema
sub_accounts_type = list_of sub_account_type

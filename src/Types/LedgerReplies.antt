-- ===== src/Types/LedgerReplies.antt =====
-- src/async_hyperliquid/types/info.py: ledger updates, funding and auctions.
use async_hyperliquid.Types.{
  Schema, text, integer, boolean, nothing, exactly, either, list_of, typed_dict, no_more, required,
  optional,
}

abbrev pub funding_delta_type : Schema
funding_delta_type = typed_dict (
    required "coin" text (
      required "fundingRate" text (
        required "szi" text (
          required "type" (exactly "funding")
            (required "usdc" text (optional "nSamples" (either integer nothing) no_more))))))

abbrev pub deposit_delta_type : Schema
deposit_delta_type = typed_dict (required "type" (exactly "deposit") (required "usdc" text no_more))

abbrev pub withdraw_delta_type : Schema
withdraw_delta_type = typed_dict (
    required "type" (exactly "withdraw")
      (required "usdc" text (required "nonce" integer (required "fee" text no_more))))

abbrev pub account_class_transfer_delta_type : Schema
account_class_transfer_delta_type = typed_dict (
    required "type" (exactly "accountClassTransfer")
      (required "usdc" text (required "toPerp" boolean no_more)))

abbrev pub vault_deposit_delta_type : Schema
vault_deposit_delta_type = typed_dict (
    required "type" (exactly "vaultDeposit") (required "vault" text (required "usdc" text no_more)))

abbrev pub vault_withdraw_delta_type : Schema
vault_withdraw_delta_type = typed_dict (
    required "type" (exactly "vaultWithdraw") (
      required "vault" text (
        required "user" text (
          required "requestedUsd" text (
            required "commission" text (
              required "closingCost" text
                (required "basis" text (required "netWithdrawnUsd" text no_more))))))))

abbrev pub ledger_delta_type : Schema
ledger_delta_type = either funding_delta_type (
    either deposit_delta_type (
      either withdraw_delta_type (
        either account_class_transfer_delta_type
          (either vault_deposit_delta_type vault_withdraw_delta_type))))

abbrev pub ledger_update_type : Schema
ledger_update_type =
    typed_dict
      (required "delta" ledger_delta_type (required "hash" text (required "time" integer no_more)))

abbrev pub ledger_updates_type : Schema
ledger_updates_type = list_of ledger_update_type

abbrev pub funding_rate_type : Schema
funding_rate_type = typed_dict (
    required "coin" text
      (required "fundingRate" text (required "premium" text (required "time" integer no_more))))

abbrev pub funding_rates_type : Schema
funding_rates_type = list_of funding_rate_type

abbrev pub predicted_funding_info_type : Schema
predicted_funding_info_type =
    typed_dict (required "fundingRate" text (required "nextFundingTime" integer no_more))

abbrev pub funding_venue_type : Schema
funding_venue_type = either (exactly "BinPerp") (either (exactly "HlPerp") (exactly "BybitPerp"))

abbrev pub funding_venue_entry_type : Schema
funding_venue_entry_type = list_of (either funding_venue_type predicted_funding_info_type)

abbrev pub predicted_funding_entry_type : Schema
predicted_funding_entry_type = list_of (either text (list_of funding_venue_entry_type))

abbrev pub predicted_fundings_type : Schema
predicted_fundings_type = list_of predicted_funding_entry_type

abbrev pub perp_deploy_auction_status_type : Schema
perp_deploy_auction_status_type = typed_dict (
    required "startTimeSeconds" integer (
      required "durationSeconds" integer (
        required "startGas" text
          (required "currentGas" text (required "endGas" (either text nothing) no_more)))))

abbrev pub active_asset_leverage_type : Schema
active_asset_leverage_type = typed_dict (
    optional "rawUsd" text (
      required "type" (either (exactly "cross") (exactly "isolated"))
        (required "value" integer no_more)))

abbrev pub active_asset_data_type : Schema
active_asset_data_type = typed_dict (
    required "user" text (
      required "coin" text (
        required "leverage" active_asset_leverage_type (
          required "maxTradeSzs" (list_of text)
            (required "availableToTrade" (list_of text) (required "markPx" text no_more))))))

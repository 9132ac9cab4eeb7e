-- ===== src/Types/SpotReplies.antt =====
-- src/async_hyperliquid/types/info.py: spot tokens, pairs, balances and deployments.
use async_hyperliquid.Types.{
  Schema, text, integer, boolean, nothing, either, list_of, pair_of, typed_dict, no_more, required,
  optional,
}

abbrev pub token_balance_type : Schema
token_balance_type = typed_dict (
    required "coin" text (
      required "token" integer
        (required "hold" text (required "total" text (required "entryNtl" text no_more)))))

abbrev pub spot_clearinghouse_state_type : Schema
spot_clearinghouse_state_type =
    typed_dict (required "balances" (list_of token_balance_type) no_more)

abbrev pub evm_contract_type : Schema
evm_contract_type =
    typed_dict (required "address" text (required "evm_extra_wei_decimals" integer no_more))

abbrev pub spot_token_type : Schema
spot_token_type = typed_dict (
    required "name" text (
      required "index" integer (
        required "isCanonical" boolean (
          required "szDecimals" integer (
            required "weiDecimals" integer (
              required "tokenId" text (
                required "evmContract" (either evm_contract_type nothing) (
                  required "fullName" (either text nothing)
                    (optional "deployerTradingFeeShare" text no_more)))))))))

abbrev pub spot_pair_type : Schema
spot_pair_type = typed_dict (
    required "name" text (
      required "index" integer
        (required "isCanonical" boolean (required "tokens" (list_of integer) no_more))))

abbrev pub spot_meta_type : Schema
spot_meta_type = typed_dict (
    required "tokens" (list_of spot_token_type)
      (required "universe" (list_of spot_pair_type) no_more))

abbrev pub spot_asset_context_type : Schema
spot_asset_context_type = typed_dict (
    required "coin" text (
      required "circulatingSupply" text (
        required "dayBaseVlm" text (
          required "dayNtlVlm" text (
            required "markPx" text (
              required "midPx" (either text nothing)
                (required "prevDayPx" text (required "totalSupply" text no_more))))))))

abbrev pub spot_meta_and_contexts_type : Schema
spot_meta_and_contexts_type = pair_of spot_meta_type (list_of spot_asset_context_type)

abbrev pub gas_auction_type : Schema
gas_auction_type = typed_dict (
    required "startTimeSeconds" integer (
      required "durationSeconds" integer (
        required "startGas" text (
          required "currentGas" (either text nothing)
            (required "endGas" (either text nothing) no_more)))))

abbrev pub token_deploy_spec_type : Schema
token_deploy_spec_type =
    typed_dict (
      required "name" text (required "szDecimals" integer (required "weiDecimals" integer no_more)))

abbrev pub token_deploy_state_type : Schema
token_deploy_state_type = typed_dict (
    required "token" integer (
      required "spec" token_deploy_spec_type (
        required "fullName" text (
          required "spots" (list_of integer) (
            required "maxSupply" integer (
              required "hyperliquidityGenesisBalance" text (
                required "totalGenesisBalanceWei" text (
                  required "userGenesisBalances" (list_of (list_of text)) (
                    required "existingTokenGenesisBalances"
                      (list_of (list_of (either integer text))) no_more)))))))))

abbrev pub spot_deploy_state_type : Schema
spot_deploy_state_type = typed_dict (
    required "states" (list_of token_deploy_state_type)
      (required "gasAuction" gas_auction_type no_more))

abbrev pub token_genesis_type : Schema
token_genesis_type = typed_dict (
    required "userBalances" (list_of (list_of text))
      (required "existingTokenBalances" (list_of (list_of (either integer text))) no_more))

abbrev pub token_details_type : Schema
token_details_type = typed_dict (
    required "name" text (
      required "maxSupply" text (
        required "totalSupply" text (
          required "circulatingSupply" text (
            required "szDecimals" integer (
              required "weiDecimals" integer (
                required "midPx" text (
                  required "markPx" text (
                    required "prevDayPx" text (
                      required "genesis" (list_of token_genesis_type) (
                        required "deployer" text (
                          required "deployGas" text (
                            required "deployTime" text (
                              required "seededUsdc" text (
                                required "nonCirculatingUserBalances" (list_of (list_of text))
                                  (required "futureEmissions" text no_more))))))))))))))))

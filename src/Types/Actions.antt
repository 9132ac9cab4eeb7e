-- ===== src/Types/Actions.antt =====
-- src/async_hyperliquid/types/exchange.py: the actions and their parts.
use async_hyperliquid.Types.{
  Schema, text, integer, boolean, nothing, exactly, always_true, either, list_of, typed_dict,
  no_more, required, optional,
}

abbrev pub signature_type : Schema
signature_type = typed_dict (required "r" text (required "s" text (required "v" integer no_more)))

abbrev pub encoded_limit_order_option_type : Schema
encoded_limit_order_option_type =
    typed_dict
      (required "tif" (either (exactly "Alo") (either (exactly "Ioc") (exactly "Gtc"))) no_more)

abbrev pub encoded_limit_order_type_type : Schema
encoded_limit_order_type_type =
    typed_dict (required "limit" encoded_limit_order_option_type no_more)

abbrev pub encoded_trigger_order_option_type : Schema
encoded_trigger_order_option_type = typed_dict (
    required "isMarket" boolean
      (required "triggerPx" text (required "tpsl" (either (exactly "tp") (exactly "sl")) no_more)))

abbrev pub encoded_trigger_order_type_type : Schema
encoded_trigger_order_type_type =
    typed_dict (required "trigger" encoded_trigger_order_option_type no_more)

abbrev pub encoded_order_type_type : Schema
encoded_order_type_type = either encoded_limit_order_type_type encoded_trigger_order_type_type

abbrev pub encoded_order_type : Schema
encoded_order_type = typed_dict (
    required "a" integer (
      required "b" boolean (
        required "p" text (
          required "s" text (
            required "r" boolean
              (required "t" encoded_order_type_type (optional "c" text no_more)))))))

abbrev pub encoded_builder_type : Schema
encoded_builder_type = typed_dict (required "b" text (required "f" integer no_more))

abbrev pub order_action_type : Schema
order_action_type = typed_dict (
    required "type" (exactly "order") (
      required "orders" (list_of encoded_order_type) (
        required "grouping"
          (either (exactly "na") (either (exactly "normalTpsl") (exactly "positionTpsl")))
          (optional "builder" encoded_builder_type no_more))))

abbrev pub encoded_cancel_type : Schema
encoded_cancel_type = typed_dict (required "a" integer (required "o" integer no_more))

abbrev pub cancel_action_type : Schema
cancel_action_type = typed_dict (
    required "type" (exactly "cancel")
      (required "cancels" (list_of encoded_cancel_type) (optional "f" always_true no_more)))

abbrev pub encoded_cancel_by_cloid_type : Schema
encoded_cancel_by_cloid_type = typed_dict (required "asset" integer (required "cloid" text no_more))

abbrev pub cancel_by_cloid_action_type : Schema
cancel_by_cloid_action_type = typed_dict (
    required "type" (exactly "cancelByCloid") (
      required "cancels" (list_of encoded_cancel_by_cloid_type) (optional "f" always_true no_more)))

abbrev pub encoded_modify_type : Schema
encoded_modify_type =
    typed_dict (required "oid" (either integer text) (required "order" encoded_order_type no_more))

abbrev pub modify_action_type : Schema
modify_action_type = typed_dict (
    required "type" (exactly "modify")
      (required "oid" (either integer text) (required "order" encoded_order_type no_more)))

abbrev pub batch_modify_action_type : Schema
batch_modify_action_type = typed_dict (
    required "type" (exactly "batchModify")
      (required "modifies" (list_of encoded_modify_type) no_more))

abbrev pub schedule_cancel_action_type : Schema
schedule_cancel_action_type =
    typed_dict (required "type" (exactly "scheduleCancel") (optional "time" integer no_more))

abbrev pub update_leverage_action_type : Schema
update_leverage_action_type = typed_dict (
    required "type" (exactly "updateLeverage")
      (required "asset" integer (required "isCross" boolean (required "leverage" integer no_more))))

abbrev pub update_isolated_margin_action_type : Schema
update_isolated_margin_action_type = typed_dict (
    required "type" (exactly "updateIsolatedMargin")
      (required "asset" integer (required "isBuy" boolean (required "ntli" integer no_more))))

abbrev pub encoded_twap_order_type : Schema
encoded_twap_order_type = typed_dict (
    required "a" integer (
      required "b" boolean (
        required "s" text
          (required "r" boolean (required "m" integer (required "t" boolean no_more))))))

abbrev pub encoded_twap_trigger_type : Schema
encoded_twap_trigger_type = typed_dict (required "p" text (required "a" boolean no_more))

abbrev pub encoded_twap_details_type : Schema
encoded_twap_details_type = typed_dict (
    required "t" (either encoded_twap_trigger_type nothing)
      (required "s" (either text nothing) no_more))

abbrev pub twap_order_action_type : Schema
twap_order_action_type = typed_dict (
    required "type" (exactly "twapOrder") (
      required "twap" encoded_twap_order_type
        (optional "details" encoded_twap_details_type no_more)))

abbrev pub twap_cancel_action_type : Schema
twap_cancel_action_type =
    typed_dict
      (required "type" (exactly "twapCancel") (required "a" integer (required "t" integer no_more)))

abbrev pub set_referrer_action_type : Schema
set_referrer_action_type =
    typed_dict (required "type" (exactly "setReferrer") (required "code" text no_more))

abbrev pub create_sub_account_action_type : Schema
create_sub_account_action_type =
    typed_dict (required "type" (exactly "createSubAccount") (required "name" text no_more))

abbrev pub vault_transfer_action_type : Schema
vault_transfer_action_type = typed_dict (
    required "type" (exactly "vaultTransfer") (
      required "vaultAddress" text (required "isDeposit" boolean (required "usd" integer no_more))))

abbrev pub reserve_request_weight_action_type : Schema
reserve_request_weight_action_type =
    typed_dict
      (required "type" (exactly "reserveRequestWeight") (required "weight" integer no_more))

abbrev pub evm_user_modify_action_type : Schema
evm_user_modify_action_type =
    typed_dict
      (required "type" (exactly "evmUserModify") (required "usingBigBlocks" boolean no_more))

abbrev pub agent_enable_dex_abstraction_action_type : Schema
agent_enable_dex_abstraction_action_type =
    typed_dict (required "type" (exactly "agentEnableDexAbstraction") no_more)

abbrev pub agent_set_abstraction_action_type : Schema
agent_set_abstraction_action_type = typed_dict (
    required "type" (exactly "agentSetAbstraction")
      (required "abstraction" (either (exactly "i") (either (exactly "u") (exactly "p"))) no_more))

abbrev pub agent_send_asset_action_type : Schema
agent_send_asset_action_type = typed_dict (
    required "type" (exactly "agentSendAsset") (
      required "destination" text (
        required "sourceDex" text (
          required "destinationDex" text (
            required "token" text (
              required "amount" text
                (required "fromSubAccount" text (required "nonce" integer no_more))))))))

abbrev pub hip3_liquidator_transfer_action_type : Schema
hip3_liquidator_transfer_action_type = typed_dict (
    required "type" (exactly "hip3LiquidatorTransfer")
      (required "dex" text (required "ntl" integer (required "isDeposit" boolean no_more))))

abbrev pub noop_action_type : Schema
noop_action_type = typed_dict (required "type" (exactly "noop") no_more)

abbrev pub split_outcome_type : Schema
split_outcome_type = typed_dict (required "outcome" integer (required "amount" text no_more))

abbrev pub split_outcome_action_type : Schema
split_outcome_action_type =
    typed_dict
      (required "type" (exactly "userOutcome") (required "splitOutcome" split_outcome_type no_more))

abbrev pub merge_outcome_type : Schema
merge_outcome_type =
    typed_dict (required "outcome" integer (required "amount" (either text nothing) no_more))

abbrev pub merge_outcome_action_type : Schema
merge_outcome_action_type =
    typed_dict
      (required "type" (exactly "userOutcome") (required "mergeOutcome" merge_outcome_type no_more))

abbrev pub merge_question_type : Schema
merge_question_type =
    typed_dict (required "question" integer (required "amount" (either text nothing) no_more))

abbrev pub merge_question_action_type : Schema
merge_question_action_type =
    typed_dict (
      required "type" (exactly "userOutcome")
        (required "mergeQuestion" merge_question_type no_more))

abbrev pub negate_outcome_type : Schema
negate_outcome_type =
    typed_dict
      (required "question" integer (required "outcome" integer (required "amount" text no_more)))

abbrev pub negate_outcome_action_type : Schema
negate_outcome_action_type =
    typed_dict (
      required "type" (exactly "userOutcome")
        (required "negateOutcome" negate_outcome_type no_more))

abbrev pub validator_l1_stream_action_type : Schema
validator_l1_stream_action_type =
    typed_dict
      (required "type" (exactly "validatorL1Stream") (required "riskFreeRate" text no_more))

abbrev pub authorize_aqav2_role_action_type : Schema
authorize_aqav2_role_action_type = typed_dict (
    required "type" (exactly "authorizeAqav2Role") (
      required "token" integer
        (required "role" (either (exactly "technical") (exactly "treasury")) no_more)))

abbrev pub claim_rewards_action_type : Schema
claim_rewards_action_type = typed_dict (required "type" (exactly "claimRewards") no_more)

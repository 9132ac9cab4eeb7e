-- ===== src/Types/Envelope.antt =====
-- src/async_hyperliquid/types/exchange.py: the user-signed actions, and the envelope of every action.
use async_hyperliquid.Types.{
  Schema, text, integer, boolean, nothing, exactly, either, typed_dict, Keys, no_more, required,
  optional, inherit,
}
use async_hyperliquid.Types.Actions.{
  signature_type, order_action_type, cancel_action_type, cancel_by_cloid_action_type,
  modify_action_type, batch_modify_action_type, schedule_cancel_action_type,
  update_leverage_action_type, update_isolated_margin_action_type, twap_order_action_type,
  twap_cancel_action_type, set_referrer_action_type, create_sub_account_action_type,
  vault_transfer_action_type, reserve_request_weight_action_type, evm_user_modify_action_type,
  agent_enable_dex_abstraction_action_type, agent_set_abstraction_action_type,
  agent_send_asset_action_type, hip3_liquidator_transfer_action_type, noop_action_type,
  split_outcome_action_type, merge_outcome_action_type, merge_question_action_type,
  negate_outcome_action_type, validator_l1_stream_action_type, authorize_aqav2_role_action_type,
  claim_rewards_action_type,
}

abbrev pub user_signed_fields_keys : Keys
user_signed_fields_keys =
    required "signatureChainId" (exactly "0x66eee")
      (required "hyperliquidChain" (either (exactly "Mainnet") (exactly "Testnet")) no_more)

abbrev pub usd_send_action_type : Schema
usd_send_action_type = typed_dict (
    inherit user_signed_fields_keys (
      required "type" (exactly "usdSend")
        (required "amount" text (required "destination" text (required "time" integer no_more)))))

abbrev pub spot_send_action_type : Schema
spot_send_action_type = typed_dict (
    inherit user_signed_fields_keys (
      required "type" (exactly "spotSend") (
        required "destination" text
          (required "token" text (required "amount" text (required "time" integer no_more))))))

abbrev pub withdraw_action_type : Schema
withdraw_action_type = typed_dict (
    inherit user_signed_fields_keys (
      required "type" (exactly "withdraw3")
        (required "amount" text (required "time" integer (required "destination" text no_more)))))

abbrev pub usd_class_transfer_action_type : Schema
usd_class_transfer_action_type = typed_dict (
    inherit user_signed_fields_keys (
      required "type" (exactly "usdClassTransfer")
        (required "amount" text (required "toPerp" boolean (required "nonce" integer no_more)))))

abbrev pub send_asset_action_type : Schema
send_asset_action_type = typed_dict (
    inherit user_signed_fields_keys (
      required "type" (exactly "sendAsset") (
        required "token" text (
          required "amount" text (
            required "destination" text (
              required "sourceDex" text (
                required "destinationDex" text
                  (required "fromSubAccount" text (required "nonce" integer no_more)))))))))

abbrev pub send_to_evm_with_data_action_type : Schema
send_to_evm_with_data_action_type = typed_dict (
    inherit user_signed_fields_keys (
      required "type" (exactly "sendToEvmWithData") (
        required "token" text (
          required "amount" text (
            required "sourceDex" text (
              required "destinationRecipient" text (
                required "addressEncoding" (either (exactly "hex") (exactly "base58")) (
                  required "destinationChainId" integer (
                    required "gasLimit" integer
                      (required "data" text (required "nonce" integer no_more)))))))))))

abbrev pub staking_deposit_action_type : Schema
staking_deposit_action_type = typed_dict (
    inherit user_signed_fields_keys (
      required "type" (exactly "cDeposit")
        (required "wei" integer (required "nonce" integer no_more))))

abbrev pub staking_withdraw_action_type : Schema
staking_withdraw_action_type = typed_dict (
    inherit user_signed_fields_keys (
      required "type" (exactly "cWithdraw")
        (required "wei" integer (required "nonce" integer no_more))))

abbrev pub token_delegate_action_type : Schema
token_delegate_action_type = typed_dict (
    inherit user_signed_fields_keys (
      required "type" (exactly "tokenDelegate") (
        required "validator" text (
          required "wei" integer
            (required "isUndelegate" boolean (required "nonce" integer no_more))))))

abbrev pub approve_agent_action_type : Schema
approve_agent_action_type = typed_dict (
    inherit user_signed_fields_keys (
      required "type" (exactly "approveAgent") (
        required "agentAddress" text
          (optional "agentName" text (required "nonce" integer no_more)))))

abbrev pub approve_builder_fee_action_type : Schema
approve_builder_fee_action_type = typed_dict (
    inherit user_signed_fields_keys (
      required "type" (exactly "approveBuilderFee")
        (required "maxFeeRate" text (required "builder" text (required "nonce" integer no_more)))))

abbrev pub convert_to_multi_sig_user_action_type : Schema
convert_to_multi_sig_user_action_type = typed_dict (
    inherit user_signed_fields_keys (
      required "type" (exactly "convertToMultiSigUser")
        (required "signers" text (required "nonce" integer no_more))))

abbrev pub user_dex_abstraction_action_type : Schema
user_dex_abstraction_action_type = typed_dict (
    inherit user_signed_fields_keys (
      required "type" (exactly "userDexAbstraction")
        (required "user" text (required "enabled" boolean (required "nonce" integer no_more)))))

abbrev pub user_set_abstraction_action_type : Schema
user_set_abstraction_action_type = typed_dict (
    inherit user_signed_fields_keys (
      required "type" (exactly "userSetAbstraction") (
        required "user" text (
          required "abstraction"
            (either (exactly "disabled")
              (either (exactly "unifiedAccount") (exactly "portfolioMargin")))
            (required "nonce" integer no_more)))))

abbrev pub exchange_action_type : Schema
exchange_action_type = either order_action_type (
    either cancel_action_type (
      either cancel_by_cloid_action_type (
        either modify_action_type (
          either batch_modify_action_type (
            either schedule_cancel_action_type (
              either update_leverage_action_type (
                either update_isolated_margin_action_type (
                  either twap_order_action_type (
                    either twap_cancel_action_type (
                      either set_referrer_action_type (
                        either create_sub_account_action_type (
                          either vault_transfer_action_type (
                            either reserve_request_weight_action_type (
                              either evm_user_modify_action_type (
                                either agent_enable_dex_abstraction_action_type (
                                  either agent_set_abstraction_action_type (
                                    either agent_send_asset_action_type (
                                      either hip3_liquidator_transfer_action_type (
                                        either noop_action_type (
                                          either split_outcome_action_type (
                                            either merge_outcome_action_type (
                                              either merge_question_action_type (
                                                either negate_outcome_action_type (
                                                  either validator_l1_stream_action_type (
                                                    either authorize_aqav2_role_action_type (
                                                      either claim_rewards_action_type (
                                                        either usd_send_action_type (
                                                          either spot_send_action_type (
                                                            either withdraw_action_type (
                                                            either usd_class_transfer_action_type (
                                                            either send_asset_action_type (
                                                            either send_to_evm_with_data_action_type
                                                            (either staking_deposit_action_type (
                                                            either staking_withdraw_action_type (
                                                            either token_delegate_action_type (
                                                            either approve_agent_action_type (
                                                            either approve_builder_fee_action_type (
                                                            either
                                                            convert_to_multi_sig_user_action_type
                                                            (either user_dex_abstraction_action_type
                                                            user_set_abstraction_action_type)))))))))))))))))))))))))))))))))))))))

abbrev pub action_envelope_type : Schema
action_envelope_type = typed_dict (
    required "action" exchange_action_type (
      required "nonce" integer (
        required "signature" signature_type (
          required "vaultAddress" (either text nothing)
            (required "expiresAfter" (either integer nothing) no_more)))))

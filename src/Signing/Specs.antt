-- ===== src/Signing/Specs.antt =====
-- The EIP-712 messages of _internal/signing.py, field by field.
use async_hyperliquid.Prelude.{[], ◌∷◌}
use async_hyperliquid.World.{UserSigningSpec}

abbrev pub usd_send_spec : UserSigningSpec
usd_send_spec = record {
  primary_type = "HyperliquidTransaction:UsdSend";
  message_types =
      ("hyperliquidChain", "string")
      ∷ ("destination", "string")
      ∷ ("amount", "string")
      ∷ ("time", "uint64")
      ∷ [];
}

abbrev pub spot_send_spec : UserSigningSpec
spot_send_spec = record {
  primary_type = "HyperliquidTransaction:SpotSend";
  message_types =
      ("hyperliquidChain", "string")
      ∷ ("destination", "string")
      ∷ ("token", "string")
      ∷ ("amount", "string")
      ∷ ("time", "uint64")
      ∷ [];
}

abbrev pub withdraw_spec : UserSigningSpec
withdraw_spec = record {
  primary_type = "HyperliquidTransaction:Withdraw";
  message_types =
      ("hyperliquidChain", "string")
      ∷ ("destination", "string")
      ∷ ("amount", "string")
      ∷ ("time", "uint64")
      ∷ [];
}

abbrev pub usd_class_transfer_spec : UserSigningSpec
usd_class_transfer_spec = record {
  primary_type = "HyperliquidTransaction:UsdClassTransfer";
  message_types =
      ("hyperliquidChain", "string")
      ∷ ("amount", "string")
      ∷ ("toPerp", "bool")
      ∷ ("nonce", "uint64")
      ∷ [];
}

abbrev pub send_asset_spec : UserSigningSpec
send_asset_spec = record {
  primary_type = "HyperliquidTransaction:SendAsset";
  message_types =
      ("hyperliquidChain", "string")
      ∷ ("destination", "string")
      ∷ ("sourceDex", "string")
      ∷ ("destinationDex", "string")
      ∷ ("token", "string")
      ∷ ("amount", "string")
      ∷ ("fromSubAccount", "string")
      ∷ ("nonce", "uint64")
      ∷ [];
}

abbrev pub send_to_evm_with_data_spec : UserSigningSpec
send_to_evm_with_data_spec = record {
  primary_type = "HyperliquidTransaction:SendToEvmWithData";
  message_types =
      ("hyperliquidChain", "string")
      ∷ ("token", "string")
      ∷ ("amount", "string")
      ∷ ("sourceDex", "string")
      ∷ ("destinationRecipient", "string")
      ∷ ("addressEncoding", "string")
      ∷ ("destinationChainId", "uint32")
      ∷ ("gasLimit", "uint64")
      ∷ ("data", "bytes")
      ∷ ("nonce", "uint64")
      ∷ [];
}

abbrev pub staking_transfer_spec : UserSigningSpec
staking_transfer_spec = record {
  primary_type = "HyperliquidTransaction:CDeposit";
  message_types = ("hyperliquidChain", "string") ∷ ("wei", "uint64") ∷ ("nonce", "uint64") ∷ [];
}

abbrev pub staking_withdraw_spec : UserSigningSpec
staking_withdraw_spec = record {
  primary_type = "HyperliquidTransaction:CWithdraw";
  message_types = ("hyperliquidChain", "string") ∷ ("wei", "uint64") ∷ ("nonce", "uint64") ∷ [];
}

abbrev pub token_delegate_spec : UserSigningSpec
token_delegate_spec = record {
  primary_type = "HyperliquidTransaction:TokenDelegate";
  message_types =
      ("hyperliquidChain", "string")
      ∷ ("validator", "address")
      ∷ ("wei", "uint64")
      ∷ ("isUndelegate", "bool")
      ∷ ("nonce", "uint64")
      ∷ [];
}

abbrev pub approve_agent_spec : UserSigningSpec
approve_agent_spec = record {
  primary_type = "HyperliquidTransaction:ApproveAgent";
  message_types =
      ("hyperliquidChain", "string")
      ∷ ("agentAddress", "address")
      ∷ ("agentName", "string")
      ∷ ("nonce", "uint64")
      ∷ [];
}

abbrev pub approve_builder_fee_spec : UserSigningSpec
approve_builder_fee_spec = record {
  primary_type = "HyperliquidTransaction:ApproveBuilderFee";
  message_types =
      ("hyperliquidChain", "string")
      ∷ ("maxFeeRate", "string")
      ∷ ("builder", "address")
      ∷ ("nonce", "uint64")
      ∷ [];
}

abbrev pub convert_to_multi_sig_user_spec : UserSigningSpec
convert_to_multi_sig_user_spec = record {
  primary_type = "HyperliquidTransaction:ConvertToMultiSigUser";
  message_types = ("hyperliquidChain", "string") ∷ ("signers", "string") ∷ ("nonce", "uint64") ∷ [];
}

abbrev pub user_dex_abstraction_spec : UserSigningSpec
user_dex_abstraction_spec = record {
  primary_type = "HyperliquidTransaction:UserDexAbstraction";
  message_types =
      ("hyperliquidChain", "string")
      ∷ ("user", "address")
      ∷ ("enabled", "bool")
      ∷ ("nonce", "uint64")
      ∷ [];
}

abbrev pub user_set_abstraction_spec : UserSigningSpec
user_set_abstraction_spec = record {
  primary_type = "HyperliquidTransaction:UserSetAbstraction";
  message_types =
      ("hyperliquidChain", "string")
      ∷ ("user", "address")
      ∷ ("abstraction", "string")
      ∷ ("nonce", "uint64")
      ∷ [];
}

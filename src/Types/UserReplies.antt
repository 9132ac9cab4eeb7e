-- ===== src/Types/UserReplies.antt =====
-- src/async_hyperliquid/types/info.py: vaults, roles, portfolios and referrals.
use async_hyperliquid.Types.{
  Schema, text, integer, number, boolean, nothing, exactly, either, list_of, typed_dict, no_more,
  required,
}

abbrev pub vault_equity_type : Schema
vault_equity_type = typed_dict (required "vaultAddress" text (required "equity" text no_more))

abbrev pub vault_equities_type : Schema
vault_equities_type = list_of vault_equity_type

abbrev pub plain_user_role_type : Schema
plain_user_role_type = typed_dict (
    required "role" (either (exactly "missing") (either (exactly "user") (exactly "vault")))
      no_more)

abbrev pub agent_user_role_data_type : Schema
agent_user_role_data_type = typed_dict (required "user" text no_more)

abbrev pub agent_user_role_type : Schema
agent_user_role_type =
    typed_dict
      (required "role" (exactly "agent") (required "data" agent_user_role_data_type no_more))

abbrev pub sub_account_user_role_data_type : Schema
sub_account_user_role_data_type = typed_dict (required "master" text no_more)

abbrev pub sub_account_user_role_type : Schema
sub_account_user_role_type = typed_dict (
    required "role" (exactly "subAccount")
      (required "data" sub_account_user_role_data_type no_more))

abbrev pub user_role_type : Schema
user_role_type =
    either plain_user_role_type (either agent_user_role_type sub_account_user_role_type)

abbrev pub portfolio_period_type : Schema
portfolio_period_type = either (exactly "day") (
    either (exactly "week") (
      either (exactly "month") (
        either (exactly "allTime") (
          either (exactly "perpDay")
            (either (exactly "perpWeek") (either (exactly "perpMonth") (exactly "perpAllTime")))))))

abbrev pub history_point_type : Schema
history_point_type = list_of (either integer text)

abbrev pub portfolio_data_type : Schema
portfolio_data_type = typed_dict (
    required "accountValueHistory" (list_of history_point_type)
      (required "pnlHistory" (list_of history_point_type) (required "vlm" text no_more)))

abbrev pub portfolio_entry_type : Schema
portfolio_entry_type = list_of (either portfolio_period_type portfolio_data_type)

abbrev pub portfolio_type : Schema
portfolio_type = list_of portfolio_entry_type

abbrev pub vault_follower_type : Schema
vault_follower_type = typed_dict (
    required "user" text (
      required "vaultEquity" text (
        required "pnl" text (
          required "allTimePnl" text (
            required "daysFollowing" integer
              (required "vaultEntryTime" integer (required "lockupUntil" integer no_more)))))))

abbrev pub vault_relationship_data_type : Schema
vault_relationship_data_type = typed_dict (required "childAddresses" (list_of text) no_more)

abbrev pub vault_relationship_type : Schema
vault_relationship_type =
    typed_dict (required "type" text (required "data" vault_relationship_data_type no_more))

abbrev pub vault_details_type : Schema
vault_details_type = typed_dict (
    required "name" text (
      required "vaultAddress" text (
        required "leader" text (
          required "description" text (
            required "portfolio" portfolio_type (
              required "apr" number (
                required "followerState" (either text nothing) (
                  required "leaderFraction" number (
                    required "leaderCommission" number (
                      required "followers" (list_of vault_follower_type) (
                        required "maxDistributable" number (
                          required "maxWithdrawable" number (
                            required "isClosed" boolean (
                              required "relationship" vault_relationship_type (
                                required "allowDeposits" boolean
                                  (required "alwaysCloseOnWithdraw" boolean no_more))))))))))))))))

abbrev pub referred_by_type : Schema
referred_by_type = typed_dict (required "referrer" text (required "code" text no_more))

abbrev pub referral_token_state_type : Schema
referral_token_state_type = typed_dict (
    required "cumVlm" text (
      required "cumRewardedFeesSinceReferred" text
        (required "cumFeesRewardedToReferrer" text no_more)))

abbrev pub referral_token_entry_type : Schema
referral_token_entry_type = list_of (either integer referral_token_state_type)

abbrev pub referral_state_type : Schema
referral_state_type = typed_dict (
    required "cumVlm" text (
      required "cumRewardedFeesSinceReferred" text (
        required "cumFeesRewardedToReferrer" text (
          required "timeJoined" integer (
            required "user" text
              (required "tokenToState" (list_of referral_token_entry_type) no_more))))))

abbrev pub ready_referrer_data_type : Schema
ready_referrer_data_type = typed_dict (
    required "code" text (
      required "nReferrals" integer
        (required "referralStates" (list_of referral_state_type) no_more)))

abbrev pub ready_referrer_state_type : Schema
ready_referrer_state_type =
    typed_dict
      (required "stage" (exactly "ready") (required "data" ready_referrer_data_type no_more))

abbrev pub new_referrer_state_type : Schema
new_referrer_state_type = typed_dict (required "stage" (exactly "needToCreateCode") no_more)

abbrev pub ineligible_referrer_data_type : Schema
ineligible_referrer_data_type = typed_dict (required "required" text no_more)

abbrev pub ineligible_referrer_state_type : Schema
ineligible_referrer_state_type = typed_dict (
    required "stage" (exactly "needToTrade")
      (required "data" ineligible_referrer_data_type no_more))

abbrev pub referrer_state_type : Schema
referrer_state_type =
    either ready_referrer_state_type (either new_referrer_state_type ineligible_referrer_state_type)

abbrev pub token_referral_state_type : Schema
token_referral_state_type = typed_dict (
    required "cumVlm" text (
      required "unclaimedRewards" text
        (required "claimedRewards" text (required "builderRewards" text no_more))))

abbrev pub token_referral_entry_type : Schema
token_referral_entry_type = list_of (either integer token_referral_state_type)

abbrev pub referral_reward_type : Schema
referral_reward_type = typed_dict (
    required "earned" text
      (required "vlm" text (required "referralVlm" text (required "time" integer no_more))))

abbrev pub referral_type : Schema
referral_type = typed_dict (
    required "referredBy" (either referred_by_type nothing) (
      required "cumVlm" text (
        required "unclaimedRewards" text (
          required "claimedRewards" text (
            required "builderRewards" text (
              required "referrerState" referrer_state_type (
                required "rewardHistory" (list_of referral_reward_type)
                  (required "tokenToState" (list_of token_referral_entry_type) no_more))))))))

-- ===== src/Types/FeeReplies.antt =====
-- src/async_hyperliquid/types/info.py: fees, staking and account abstraction.
use async_hyperliquid.Types.{
  Schema, text, integer, boolean, nothing, exactly, either, list_of, typed_dict, no_more, required,
}

abbrev pub daily_user_volume_type : Schema
daily_user_volume_type = typed_dict (
    required "date" text
      (required "userCross" text (required "userAdd" text (required "exchange" text no_more))))

abbrev pub vip_tier_type : Schema
vip_tier_type = typed_dict (
    required "ntlCutoff" text (
      required "cross" text
        (required "add" text (required "spotCross" text (required "spotAdd" text no_more)))))

abbrev pub market_maker_tier_type : Schema
market_maker_tier_type =
    typed_dict (required "makerFractionCutoff" text (required "add" text no_more))

abbrev pub fee_schedule_tiers_type : Schema
fee_schedule_tiers_type = typed_dict (
    required "vip" (list_of vip_tier_type) (required "mm" (list_of market_maker_tier_type) no_more))

abbrev pub staking_discount_tier_type : Schema
staking_discount_tier_type =
    typed_dict (required "bpsOfMaxSupply" text (required "discount" text no_more))

abbrev pub fee_schedule_type : Schema
fee_schedule_type = typed_dict (
    required "cross" text (
      required "add" text (
        required "spotCross" text (
          required "spotAdd" text (
            required "tiers" fee_schedule_tiers_type (
              required "referralDiscount" text
                (required "stakingDiscount" (list_of staking_discount_tier_type) no_more)))))))

abbrev pub staking_link_type : Schema
staking_link_type = typed_dict (required "type" text (required "stakingUser" text no_more))

abbrev pub user_fees_type : Schema
user_fees_type = typed_dict (
    required "dailyUserVlm" (list_of daily_user_volume_type) (
      required "feeSchedule" fee_schedule_type (
        required "userCrossRate" text (
          required "userAddRate" text (
            required "userSpotCrossRate" text (
              required "userSpotAddRate" text (
                required "activeReferralDiscount" text (
                  required "trial" (either text nothing) (
                    required "feeTrialReward" text (
                      required "nextTrialAvailableTimestamp" (either integer nothing) (
                        required "stakingLink" staking_link_type (
                          required "activeStakingDiscount" staking_discount_tier_type
                            no_more))))))))))))

abbrev pub delegation_type : Schema
delegation_type = typed_dict (
    required "validator" text
      (required "amount" text (required "lockedUntilTimestamp" integer no_more)))

abbrev pub delegations_type : Schema
delegations_type = list_of delegation_type

abbrev pub staking_summary_type : Schema
staking_summary_type = typed_dict (
    required "delegated" text (
      required "undelegated" text
        (required "totalPendingWithdrawal" text (required "nPendingWithdrawals" integer no_more))))

abbrev pub delegation_change_type : Schema
delegation_change_type =
    typed_dict
      (required "validator" text (required "amount" text (required "isUndelegate" boolean no_more)))

abbrev pub staking_delta_type : Schema
staking_delta_type = typed_dict (required "delegate" delegation_change_type no_more)

abbrev pub staking_history_item_type : Schema
staking_history_item_type =
    typed_dict
      (required "time" integer (required "hash" text (required "delta" staking_delta_type no_more)))

abbrev pub staking_history_type : Schema
staking_history_type = list_of staking_history_item_type

abbrev pub staking_reward_type : Schema
staking_reward_type = typed_dict (
    required "time" integer (
      required "source" (either (exactly "delegation") (exactly "commission"))
        (required "totalAmount" text no_more)))

abbrev pub staking_rewards_type : Schema
staking_rewards_type = list_of staking_reward_type

abbrev pub user_abstraction_state_type : Schema
user_abstraction_state_type = either (exactly "unifiedAccount") (
    either (exactly "portfolioMargin")
      (either (exactly "disabled") (either (exactly "default") (exactly "dexAbstraction"))))

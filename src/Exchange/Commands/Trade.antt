-- ===== src/Exchange/Commands/Trade.antt =====
-- The trading methods as commands, and what running one may do.
use async_hyperliquid.Prelude.{String, Bool, Option, none, some, List, ℤ}
use async_hyperliquid.Json.{JsonValue}
use async_hyperliquid.World.{Externals}
use async_hyperliquid.World.Exec.{Exec}
use async_hyperliquid.Float.{Float}
use async_hyperliquid.Order.{OrderGrouping, OrderId, Builder, EncodedOrder}
use async_hyperliquid.Response.{ResponseType, default}
use async_hyperliquid.Exchange.{Config, Action, submit_action}
use async_hyperliquid.Exchange.Trading.{
  TwapOrder, TwapDetails, submit_orders, submit_cancels, submit_cloid_cancels, submit_modify,
  submit_modifies, schedule_cancel, update_leverage, update_isolated_margin, submit_twap,
  submit_twap_cancel, set_referrer_code, create_sub_account, reserve_request_weight, noop,
  use_big_blocks, agent_enable_dex_abstraction, agent_set_abstraction, claim_rewards,
}
use async_hyperliquid.Exchange.Effects.{
  Submits, Submits-lift_bind, Submits-fail_if, Submits-next_nonce,
}
use async_hyperliquid.Exchange.Posting.{submit_action-Sends, submit_action-Submits}
use async_hyperliquid.Exchange.Commands.Plain.{exact_signed_units-IsPlain}

pub data TradeCommand : Type 0 where
  orders : List EncodedOrder → OrderGrouping → Option Builder → Option ℤ → TradeCommand
  cancels : List (ℤ × ℤ) → Bool → Option ℤ → TradeCommand
  cloid_cancels : List (ℤ × String) → Bool → Option ℤ → TradeCommand
  modify_one : OrderId × EncodedOrder → Option ℤ → TradeCommand
  modifies : List (OrderId × EncodedOrder) → Option ℤ → TradeCommand
  schedule : Option ℤ → Option ℤ → TradeCommand
  leverage : ℤ → ℤ → Bool → Option ℤ → TradeCommand
  isolated_margin : ℤ → Float → Option ℤ → TradeCommand
  twap : TwapOrder → Option TwapDetails → Option ℤ → TradeCommand
  cancel_twap : ℤ → ℤ → Option ℤ → TradeCommand
  referrer : String → Option ℤ → TradeCommand
  sub_account : String → Option ℤ → TradeCommand
  request_weight : ℤ → Option ℤ → TradeCommand
  no_operation : Option ℤ → TradeCommand
  big_blocks : Bool → Option ℤ → TradeCommand
  agent_abstraction : Option ℤ → TradeCommand
  agent_abstraction_as : String → Option ℤ → TradeCommand
  rewards : Option ℤ → TradeCommand

module _ (x : Externals) (c : Config) where
  abbrev pub run_trade : TradeCommand → Exec JsonValue
  run_trade (orders os g b e) = submit_orders x c os g b e
  run_trade (cancels cs fast e) = submit_cancels x c cs fast e
  run_trade (cloid_cancels cs fast e) = submit_cloid_cancels x c cs fast e
  run_trade (modify_one m e) = submit_modify x c m e
  run_trade (modifies ms e) = submit_modifies x c ms e
  run_trade (schedule at e) = schedule_cancel x c at e
  run_trade (leverage a l cross e) = update_leverage x c a l cross e
  run_trade (isolated_margin a amount e) = update_isolated_margin x c a amount e
  run_trade (twap t d e) = submit_twap x c t d e
  run_trade (cancel_twap a t e) = submit_twap_cancel x c a t e
  run_trade (referrer code e) = set_referrer_code x c code e
  run_trade (sub_account name e) = create_sub_account x c name e
  run_trade (request_weight n e) = reserve_request_weight x c n e
  run_trade (no_operation e) = noop x c none e
  run_trade (big_blocks b e) = use_big_blocks x c b e
  run_trade (agent_abstraction e) = agent_enable_dex_abstraction x c e
  run_trade (agent_abstraction_as a e) = agent_set_abstraction x c a e
  run_trade (rewards e) = claim_rewards x c e

  submits :
      (a : Action) (t : ResponseType) (e : Option ℤ) → Submits c (submit_action x c a t e none)
  submits = submit_action-Submits x c

  pub run_trade-Submits : (k : TradeCommand) → Submits c (run_trade k)
  unfolding submit_orders submit_cancels submit_cloid_cancels submit_modify submit_modifies
      schedule_cancel update_leverage update_isolated_margin submit_twap submit_twap_cancel
      set_referrer_code create_sub_account reserve_request_weight noop use_big_blocks
      agent_enable_dex_abstraction agent_set_abstraction claim_rewards
  run_trade-Submits (orders os g b e) = Submits-fail_if _ _ _ (submits _ _ e)
  run_trade-Submits (cancels cs fast e) = Submits-fail_if _ _ _ (submits _ _ e)
  run_trade-Submits (cloid_cancels cs fast e) = Submits-fail_if _ _ _ (submits _ _ e)
  run_trade-Submits (modify_one m e) = submits _ _ e
  run_trade-Submits (modifies ms e) = Submits-fail_if _ _ _ (submits _ _ e)
  run_trade-Submits (schedule none e) = submits _ _ e
  run_trade-Submits (schedule (some at) e) = Submits-fail_if _ _ _ (submits _ _ e)
  run_trade-Submits (leverage a l cross e) = submits _ _ e
  run_trade-Submits (isolated_margin a amount e) =
      Submits-lift_bind _ _ (exact_signed_units-IsPlain x.floats amount 6) (λ n. submits _ _ e)
  run_trade-Submits (twap t d e) = submits _ _ e
  run_trade-Submits (cancel_twap a t e) = submits _ _ e
  run_trade-Submits (referrer code e) = submits _ _ e
  run_trade-Submits (sub_account name e) = submits _ _ e
  run_trade-Submits (request_weight n e) = Submits-fail_if _ _ _ (submits _ _ e)
  run_trade-Submits (no_operation e) =
      Submits-next_nonce x _ (λ n. submit_action-Sends x c _ default e n)
  run_trade-Submits (big_blocks b e) = submits _ _ e
  run_trade-Submits (agent_abstraction e) = submits _ _ e
  run_trade-Submits (agent_abstraction_as a e) = submits _ _ e
  run_trade-Submits (rewards e) = submits _ _ e

-- ===== src/Exchange/Typed/Trade.antt =====
-- The trading methods post typed actions.
use async_hyperliquid.Prelude.{
  String, ◌≡◌, refl, ◌⊎◌, inl, inr, true, false, Option, none, some, List, [], ◌∷◌, map,
  Option-cases, string_eq, nat_eq, All, ℤ, int_eq,
}
use async_hyperliquid.Json.{JsonValue, obj, items, array, fields, member}
use async_hyperliquid.World.{Externals}
use async_hyperliquid.Order.{
  OrderGrouping, na, normal_tpsl, position_tpsl, OrderId, by_oid, by_cloid, Builder,
  EncodedOrderType, EncodedOrder,
}
use async_hyperliquid.Response.{ResponseType, twap_order, twap_cancel, default}
use async_hyperliquid.Response.Typed.{reply_type}
use async_hyperliquid.Exchange.{Config, Action, submit_action}
use async_hyperliquid.Exchange.Encode.{
  order_type_json, order_json, cancel_json, cloid_cancel_json, order_id_json, modify_json,
}
use async_hyperliquid.Exchange.Trading.{
  TwapOrder, TwapDetails, twap_json, details_json, submit_orders, submit_cancels,
  submit_cloid_cancels, submit_modify, submit_modifies, schedule_cancel, update_leverage,
  update_isolated_margin, submit_twap, submit_twap_cancel, set_referrer_code, create_sub_account,
  reserve_request_weight, noop, use_big_blocks, agent_enable_dex_abstraction, agent_set_abstraction,
  claim_rewards,
}
use async_hyperliquid.Exchange.Commands.Trade.{
  TradeCommand, orders, cancels, cloid_cancels, modify_one, modifies, schedule, leverage,
  isolated_margin, twap, cancel_twap, referrer, sub_account, request_weight, no_operation,
  big_blocks, agent_abstraction, agent_abstraction_as, rewards, run_trade,
}
use async_hyperliquid.Exchange.Typed.{
  IsTyped, IsTyped-lift_bind, IsTyped-fail_if, IsTyped-next_nonce, submit_action-IsTyped,
}
use async_hyperliquid.Types.{Schema, text, integer, either, list_of, has_type, has_keys}
use async_hyperliquid.Types.Actions.{
  encoded_order_type_type, encoded_order_type, encoded_cancel_type, encoded_cancel_by_cloid_type,
  encoded_modify_type, encoded_twap_order_type, encoded_twap_details_type,
}
use async_hyperliquid.Types.Envelope.{exchange_action_type}
use async_hyperliquid.Types.Replies.{place_order_response_type}

-- `t` is one of the values of `TimeInForce`, or of `TriggerKind`.
abbrev pub HasTypedOption : EncodedOrderType → Type 0
HasTypedOption (EncodedOrderType.limit tif) = (tif ≡ "Alo") ⊎ ((tif ≡ "Ioc") ⊎ (tif ≡ "Gtc"))
HasTypedOption (EncodedOrderType.trigger is_market price tpsl) = (tpsl ≡ "tp") ⊎ (tpsl ≡ "sl")

order_type-typed :
    (t : EncodedOrderType)
    → HasTypedOption t
    → has_type true encoded_order_type_type (order_type_json t) ≡ true
unfolding has_type has_keys order_type_json member
order_type-typed (EncodedOrderType.limit tif) (inl e) = rw e refl
order_type-typed (EncodedOrderType.limit tif) (inr (inl e)) = rw e refl
order_type-typed (EncodedOrderType.limit tif) (inr (inr e)) = rw e refl
order_type-typed (EncodedOrderType.trigger m p tpsl) (inl e) = rw e refl
order_type-typed (EncodedOrderType.trigger m p tpsl) (inr e) = rw e refl

order-typed :
    (o : EncodedOrder) → HasTypedOption o.t → has_type true encoded_order_type (order_json o) ≡ true
unfolding has_type has_keys order_json member
order-typed o h = elim (Option-cases o.c) [
  | inl e ↦ rw (e, order_type-typed o.t h) refl
  | inr (cloid, e) ↦ rw (e, order_type-typed o.t h) refl
]

cancel-typed : (p : ℤ × ℤ) → has_type true encoded_cancel_type (cancel_json p) ≡ true
unfolding has_type has_keys cancel_json member
cancel-typed (a, o) = refl

cloid_cancel-typed :
    (p : ℤ × String) → has_type true encoded_cancel_by_cloid_type (cloid_cancel_json p) ≡ true
unfolding has_type has_keys cloid_cancel_json member
cloid_cancel-typed (a, o) = refl

order_id-typed : (id : OrderId) → has_type true (either integer text) (order_id_json id) ≡ true
unfolding has_type
order_id-typed (by_oid n) = refl
order_id-typed (by_cloid t) = refl

modify-typed :
    (m : OrderId × EncodedOrder)
    → HasTypedOption m.1.t
    → has_type true encoded_modify_type (modify_json m) ≡ true
unfolding has_type has_keys modify_json member
modify-typed (by_oid n, o) h = rw (order-typed o h) refl
modify-typed (by_cloid t, o) h = rw (order-typed o h) refl

-- A list of built values of one type.
map-typed {ℓ} :
    {A : Type ℓ} (P : A → Type 0) (s : Schema) (f : A → JsonValue) (as_ : List A)
    → ((a : A) → P a → has_type true s (f a) ≡ true)
    → All P as_
    → has_type true (list_of s) (array (map f as_)) ≡ true
unfolding has_type items
map-typed P s f [] h all_p = refl
map-typed P s f (a ∷ as_) h all_p = rw (h a all_p.0, map-typed P s f as_ h all_p.1) refl

-- The arguments that types/exchange.py and types/common.py declare as `Literal` or as an enumeration
-- have one of the values of these.
abbrev pub HasTypedTrade : TradeCommand → Type 0
HasTypedTrade (orders os g b e) = All (λ (o : EncodedOrder). HasTypedOption o.t) os
HasTypedTrade (modify_one m e) = HasTypedOption m.1.t
HasTypedTrade (modifies ms e) = All (λ (m : OrderId × EncodedOrder). HasTypedOption m.1.t) ms
HasTypedTrade (agent_abstraction_as a e) = (a ≡ "i") ⊎ ((a ≡ "u") ⊎ (a ≡ "p"))
HasTypedTrade _ = Unit

-- The response that a method expects.
abbrev pub trade_response : TradeCommand → ResponseType
trade_response (orders os g b e) = ResponseType.order
trade_response (modifies ms e) = ResponseType.order
trade_response (cancels cs fast e) = ResponseType.cancel
trade_response (cloid_cancels cs fast e) = ResponseType.cancel
trade_response (twap t d e) = twap_order
trade_response (cancel_twap a t e) = twap_cancel
trade_response _ = default

pub orders-typed :
    (os : List EncodedOrder)
    → All (λ (o : EncodedOrder). HasTypedOption o.t) os
    → has_type true (list_of encoded_order_type) (array (map order_json os)) ≡ true
orders-typed os h = map-typed _ encoded_order_type order_json os order-typed h

cancels-typed :
    (cs : List (ℤ × ℤ))
    → has_type true (list_of encoded_cancel_type) (array (map cancel_json cs)) ≡ true
cancels-typed cs =
    map-typed (λ p. Unit) encoded_cancel_type cancel_json cs (λ p u. cancel-typed p) (each cs)
  where
    each : (l : List (ℤ × ℤ)) → All (λ (p : ℤ × ℤ). Unit {0}) l
    each [] = tt
    each (p ∷ l) = (tt, each l)

cloid_cancels-typed :
    (cs : List (ℤ × String))
    → has_type true (list_of encoded_cancel_by_cloid_type) (array (map cloid_cancel_json cs)) ≡ true
cloid_cancels-typed cs =
    map-typed (λ p. Unit) encoded_cancel_by_cloid_type cloid_cancel_json cs
      (λ p u. cloid_cancel-typed p) (each cs)
  where
    each : (l : List (ℤ × String)) → All (λ (p : ℤ × String). Unit {0}) l
    each [] = tt
    each (p ∷ l) = (tt, each l)

twap-typed : (t : TwapOrder) → has_type true encoded_twap_order_type (twap_json t) ≡ true
unfolding has_type has_keys twap_json member
twap-typed t = refl

details-typed : (d : TwapDetails) → has_type true encoded_twap_details_type (details_json d) ≡ true
unfolding has_type has_keys details_json member
details-typed d = elim (Option-cases d.trigger_) [
  | inl e ↦ elim (Option-cases d.stop) [ inl f ↦ rw (e, f) refl | inr (s, f) ↦ rw (e, f) refl ]
  | inr (t, e) ↦ elim (Option-cases d.stop) [ inl f ↦ rw (e, f) refl | inr (s, f) ↦ rw (e, f) refl ]
]

module _ (x : Externals) (c : Config) where
  submits :
      (a : Action) (t : ResponseType) (e : Option ℤ)
      → has_type true exchange_action_type (obj (fields a)) ≡ true
      → IsTyped (reply_type t) (submit_action x c a t e none)
  submits a t e h = submit_action-IsTyped x c a t e none h

  submit_orders-IsTyped :
      (os : List EncodedOrder) (g : OrderGrouping) (b : Option Builder) (e : Option ℤ)
      → All (λ (o : EncodedOrder). HasTypedOption o.t) os
      → IsTyped place_order_response_type (submit_orders x c os g b e)
  unfolding submit_orders has_type has_keys member
  submit_orders-IsTyped os na none e h =
      IsTyped-fail_if x c _ _ _ (submits _ ResponseType.order e (rw (orders-typed os h) refl))
  submit_orders-IsTyped os na (some b) e h =
      IsTyped-fail_if x c _ _ _ (submits _ ResponseType.order e (rw (orders-typed os h) refl))
  submit_orders-IsTyped os normal_tpsl none e h =
      IsTyped-fail_if x c _ _ _ (submits _ ResponseType.order e (rw (orders-typed os h) refl))
  submit_orders-IsTyped os normal_tpsl (some b) e h =
      IsTyped-fail_if x c _ _ _ (submits _ ResponseType.order e (rw (orders-typed os h) refl))
  submit_orders-IsTyped os position_tpsl none e h =
      IsTyped-fail_if x c _ _ _ (submits _ ResponseType.order e (rw (orders-typed os h) refl))
  submit_orders-IsTyped os position_tpsl (some b) e h =
      IsTyped-fail_if x c _ _ _ (submits _ ResponseType.order e (rw (orders-typed os h) refl))

  pub run_trade-IsTyped :
      (k : TradeCommand)
      → HasTypedTrade k
      → IsTyped (reply_type (trade_response k)) (run_trade x c k)
  unfolding submit_cancels submit_cloid_cancels submit_modify submit_modifies schedule_cancel
      update_leverage update_isolated_margin submit_twap submit_twap_cancel set_referrer_code
      create_sub_account reserve_request_weight noop use_big_blocks agent_enable_dex_abstraction
      agent_set_abstraction claim_rewards has_type has_keys member
  run_trade-IsTyped (orders os g b e) h = submit_orders-IsTyped os g b e h
  run_trade-IsTyped (cancels cs true e) h =
      IsTyped-fail_if x c _ _ _ (submits _ ResponseType.cancel e (rw (cancels-typed cs) refl))
  run_trade-IsTyped (cancels cs false e) h =
      IsTyped-fail_if x c _ _ _ (submits _ ResponseType.cancel e (rw (cancels-typed cs) refl))
  run_trade-IsTyped (cloid_cancels cs true e) h =
      IsTyped-fail_if x c _ _ _ (submits _ ResponseType.cancel e (rw (cloid_cancels-typed cs) refl))
  run_trade-IsTyped (cloid_cancels cs false e) h =
      IsTyped-fail_if x c _ _ _ (submits _ ResponseType.cancel e (rw (cloid_cancels-typed cs) refl))
  run_trade-IsTyped (modify_one (by_oid n, o) e) h = submits _ default e (rw (order-typed o h) refl)
  run_trade-IsTyped (modify_one (by_cloid t, o) e) h =
      submits _ default e (rw (order-typed o h) refl)
  run_trade-IsTyped (modifies ms e) h = IsTyped-fail_if x c _ _ _ (
      submits _ ResponseType.order e
        (rw (map-typed _ encoded_modify_type modify_json ms modify-typed h) refl))
  run_trade-IsTyped (schedule none e) h = submits _ default e refl
  run_trade-IsTyped (schedule (some at) e) h = IsTyped-fail_if x c _ _ _ (submits _ default e refl)
  run_trade-IsTyped (leverage a l cross e) h = submits _ default e refl
  run_trade-IsTyped (isolated_margin a amount e) h =
      IsTyped-lift_bind x c _ _ (λ n. submits _ default e refl)
  run_trade-IsTyped (twap t none e) h = submits _ twap_order e (rw (twap-typed t) refl)
  run_trade-IsTyped (twap t (some d) e) h =
      submits _ twap_order e (rw (twap-typed t, details-typed d) refl)
  run_trade-IsTyped (cancel_twap a t e) h = submits _ twap_cancel e refl
  run_trade-IsTyped (referrer code e) h = submits _ default e refl
  run_trade-IsTyped (sub_account name e) h = submits _ default e refl
  run_trade-IsTyped (request_weight n e) h = IsTyped-fail_if x c _ _ _ (submits _ default e refl)
  run_trade-IsTyped (no_operation e) h =
      IsTyped-next_nonce x c _ (λ n. submit_action-IsTyped x c _ default e (some n) refl)
  run_trade-IsTyped (big_blocks b e) h = submits _ default e refl
  run_trade-IsTyped (agent_abstraction e) h = submits _ default e refl
  run_trade-IsTyped (agent_abstraction_as a e) (inl k) = submits _ default e (rw k refl)
  run_trade-IsTyped (agent_abstraction_as a e) (inr (inl k)) = submits _ default e (rw k refl)
  run_trade-IsTyped (agent_abstraction_as a e) (inr (inr k)) = submits _ default e (rw k refl)
  run_trade-IsTyped (rewards e) h = submits _ default e refl

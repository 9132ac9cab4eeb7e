-- ===== src/Exchange/Trading.antt =====
-- The trading actions of exchange.py: orders, cancels, modifies, TWAP and account settings.
use async_hyperliquid.Prelude.{
  ℕ, max, String, Bool, true, false, Option, none, some, List, [], ◌∷◌, map, is_empty, ℤ, pos,
  negsuc, is_negative,
}
use async_hyperliquid.Result.{value_error}
use async_hyperliquid.Json.{JsonValue, null, bool, int, str, obj, array, fields}
use async_hyperliquid.World.{Externals}
use async_hyperliquid.World.Exec.{Exec, pure, raise, lift, modify, ◌>>=◌, ◌>>◌, fail_if}
use async_hyperliquid.Float.{Float}
use async_hyperliquid.Order.{OrderGrouping, grouping_value, OrderId, Builder, EncodedOrder}
use async_hyperliquid.Response.{ResponseType, twap_order, twap_cancel, default}
use async_hyperliquid.Amount.{exact_signed_units}
use async_hyperliquid.Exchange.{Config, Action, text_or_null, next_nonce, submit_action}
use async_hyperliquid.Exchange.Encode.{
  order_json, cancel_json, cloid_cancel_json, order_id_json, modify_json,
}

-- An encoded TWAP order, its trigger and its stop price.
pub record TwapOrder : Type 0 where
  pub asset : ℤ
  pub is_buy : Bool
  pub size : String
  pub reduce_only : Bool
  pub minutes : ℤ
  pub randomize : Bool

pub record TwapDetails : Type 0 where
  pub trigger_ : Option (String × Bool)
  pub stop : Option String

unfoldable pub twap_json : TwapOrder → JsonValue
twap_json t = obj (
    fields (
      ("a", int t.asset)
      ∷ (("b", bool t.is_buy)
          ∷ (("s", str t.size)
              ∷ (("r", bool t.reduce_only)
                  ∷ (("m", int t.minutes) ∷ (("t", bool t.randomize) ∷ [])))))))

unfoldable pub details_json : TwapDetails → JsonValue
details_json d = obj (fields (("t", trigger_json d.trigger_) ∷ (("s", text_or_null d.stop) ∷ [])))
  where
    trigger_json : Option (String × Bool) → JsonValue
    trigger_json none = null
    trigger_json (some (price, above)) = obj (fields (("p", str price) ∷ (("a", bool above) ∷ [])))

-- `if fast: action["f"] = True`
abbrev pub fast_field : Bool → Action
fast_field true = ("f", bool true) ∷ []
fast_field false = []

module _ (x : Externals) (c : Config) where
  abbrev builder_field : Option Builder → Action
  builder_field none = []
  builder_field (some b) =
      (
        "builder",
        obj (fields (("b", str (x.lower b.address)) ∷ (("f", int b.fee_tenths_bps) ∷ []))),
      )
      ∷ []

  unfoldable pub submit_orders :
      List EncodedOrder → OrderGrouping → Option Builder → Option ℤ → Exec JsonValue
  submit_orders orders grouping builder expires_after = do
    fail_if (is_empty orders) (value_error "orders must not be empty")
    submit_action x c
        (("type", str "order")
          ∷ (("orders", array (map order_json orders))
              ∷ (("grouping", str (grouping_value grouping)) ∷ builder_field builder)))
        ResponseType.order expires_after none

  unfoldable pub submit_cancels : List (ℤ × ℤ) → Bool → Option ℤ → Exec JsonValue
  submit_cancels cancels fast expires_after = do
    fail_if (is_empty cancels) (value_error "orders must not be empty")
    submit_action x c
        (("type", str "cancel") ∷ (("cancels", array (map cancel_json cancels)) ∷ fast_field fast))
        ResponseType.cancel expires_after none

  unfoldable pub submit_cloid_cancels : List (ℤ × String) → Bool → Option ℤ → Exec JsonValue
  submit_cloid_cancels cancels fast expires_after = do
    fail_if (is_empty cancels) (value_error "orders must not be empty")
    submit_action x c
        (("type", str "cancelByCloid")
          ∷ (("cancels", array (map cloid_cancel_json cancels)) ∷ fast_field fast))
        ResponseType.cancel expires_after none

  unfoldable pub submit_modify : OrderId × EncodedOrder → Option ℤ → Exec JsonValue
  submit_modify (id, order) expires_after =
      submit_action x c
        (("type", str "modify") ∷ (("oid", order_id_json id) ∷ (("order", order_json order) ∷ [])))
        default expires_after none

  unfoldable pub submit_modifies : List (OrderId × EncodedOrder) → Option ℤ → Exec JsonValue
  submit_modifies modifies expires_after = do
    fail_if (is_empty modifies) (value_error "orders must not be empty")
    submit_action x c
        (("type", str "batchModify") ∷ (("modifies", array (map modify_json modifies)) ∷ []))
        ResponseType.order expires_after none

  unfoldable pub schedule_cancel : Option ℤ → Option ℤ → Exec JsonValue
  schedule_cancel none expires_after =
      submit_action x c (("type", str "scheduleCancel") ∷ []) default expires_after none
  schedule_cancel (some at) expires_after = do
    fail_if (is_negative at) (value_error "cancel_at must not be negative")
    submit_action x c (("type", str "scheduleCancel") ∷ (("time", int at) ∷ [])) default
        expires_after none

  unfoldable pub update_leverage : ℤ → ℤ → Bool → Option ℤ → Exec JsonValue
  update_leverage asset leverage is_cross expires_after =
      submit_action x c
        (("type", str "updateLeverage")
          ∷ (("asset", int asset)
              ∷ (("isCross", bool is_cross) ∷ (("leverage", int leverage) ∷ []))))
        default expires_after none

  unfoldable pub update_isolated_margin : ℤ → Float → Option ℤ → Exec JsonValue
  update_isolated_margin asset amount expires_after = do
    ntli ← lift (exact_signed_units x.floats amount 6)
    submit_action x c
        (("type", str "updateIsolatedMargin")
          ∷ (("asset", int asset) ∷ (("isBuy", bool true) ∷ (("ntli", int ntli) ∷ []))))
        default expires_after none

  abbrev details_field : Option TwapDetails → Action
  details_field none = []
  details_field (some d) = ("details", details_json d) ∷ []

  unfoldable pub submit_twap : TwapOrder → Option TwapDetails → Option ℤ → Exec JsonValue
  submit_twap twap details expires_after =
      submit_action x c
        (("type", str "twapOrder") ∷ (("twap", twap_json twap) ∷ details_field details)) twap_order
        expires_after none

  unfoldable pub submit_twap_cancel : ℤ → ℤ → Option ℤ → Exec JsonValue
  submit_twap_cancel asset twap_id expires_after =
      submit_action x c
        (("type", str "twapCancel") ∷ (("a", int asset) ∷ (("t", int twap_id) ∷ []))) twap_cancel
        expires_after none

  unfoldable pub set_referrer_code : String → Option ℤ → Exec JsonValue
  set_referrer_code code expires_after =
      submit_action x c (("type", str "setReferrer") ∷ (("code", str code) ∷ [])) default
        expires_after none

  unfoldable pub create_sub_account : String → Option ℤ → Exec JsonValue
  create_sub_account name expires_after =
      submit_action x c (("type", str "createSubAccount") ∷ (("name", str name) ∷ [])) default
        expires_after none

  unfoldable pub reserve_request_weight : ℤ → Option ℤ → Exec JsonValue
  reserve_request_weight weight expires_after = do
    fail_if (is_negative weight) (value_error "weight must not be negative")
    submit_action x c (("type", str "reserveRequestWeight") ∷ (("weight", int weight) ∷ [])) default
        expires_after none

  -- A nonce that the caller gives is used as it is; the counter never falls below it.
  abbrev noop_nonce : Option ℤ → Exec ℕ
  noop_nonce none = next_nonce x
  noop_nonce (some (negsuc n)) = raise (value_error "nonce must not be negative")
  noop_nonce (some (pos n)) = do modify (λ w. record w { last_nonce = max w.last_nonce n }); pure n

  unfoldable pub noop : Option ℤ → Option ℤ → Exec JsonValue
  noop nonce expires_after = do
    n ← noop_nonce nonce
    submit_action x c (("type", str "noop") ∷ []) default expires_after (some n)

  unfoldable pub use_big_blocks : Bool → Option ℤ → Exec JsonValue
  use_big_blocks enabled expires_after =
      submit_action x c (("type", str "evmUserModify") ∷ (("usingBigBlocks", bool enabled) ∷ []))
        default expires_after none

  unfoldable pub agent_enable_dex_abstraction : Option ℤ → Exec JsonValue
  agent_enable_dex_abstraction expires_after =
      submit_action x c (("type", str "agentEnableDexAbstraction") ∷ []) default expires_after none

  -- The value of an `AgentAbstraction`.
  unfoldable pub agent_set_abstraction : String → Option ℤ → Exec JsonValue
  agent_set_abstraction abstraction expires_after =
      submit_action x c
        (("type", str "agentSetAbstraction") ∷ (("abstraction", str abstraction) ∷ [])) default
        expires_after none

  unfoldable pub claim_rewards : Option ℤ → Exec JsonValue
  claim_rewards expires_after =
      submit_action x c (("type", str "claimRewards") ∷ []) default expires_after none

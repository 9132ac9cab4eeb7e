-- ===== src/Exchange/Encode.antt =====
-- Orders, cancels and modifies as the JSON of an action, key by key.
use async_hyperliquid.Prelude.{String, Option, none, some, List, [], ◌∷◌, ℤ}
use async_hyperliquid.Json.{JsonValue, bool, int, str, obj, fields}
use async_hyperliquid.Order.{OrderId, by_oid, by_cloid, EncodedOrderType, EncodedOrder}

unfoldable pub order_type_json : EncodedOrderType → JsonValue
order_type_json (EncodedOrderType.limit tif) =
    obj (fields (("limit", obj (fields (("tif", str tif) ∷ []))) ∷ []))
order_type_json (EncodedOrderType.trigger is_market price tpsl) = obj (
    fields (
      (
        "trigger",
        obj (
            fields (
              ("isMarket", bool is_market)
              ∷ (("triggerPx", str price) ∷ (("tpsl", str tpsl) ∷ [])))),
      )
      ∷ []))

abbrev pub cloid_field : Option String → List (String × JsonValue)
cloid_field none = []
cloid_field (some cloid) = ("c", str cloid) ∷ []

unfoldable pub order_json : EncodedOrder → JsonValue
unfolding order_type_json
order_json o = obj (
    fields (
      ("a", int o.a)
      ∷ (("b", bool o.b)
          ∷ (("p", str o.p)
              ∷ (("s", str o.s)
                  ∷ (("r", bool o.r) ∷ (("t", order_type_json o.t) ∷ cloid_field o.c)))))))

-- `EncodedCancel` and `EncodedCancelByCloid`
unfoldable pub cancel_json : ℤ × ℤ → JsonValue
cancel_json (asset, oid) = obj (fields (("a", int asset) ∷ (("o", int oid) ∷ [])))

unfoldable pub cloid_cancel_json : ℤ × String → JsonValue
cloid_cancel_json (asset, cloid) = obj (fields (("asset", int asset) ∷ (("cloid", str cloid) ∷ [])))

-- `oid if isinstance(oid, int) else str(oid)`
abbrev pub order_id_json : OrderId → JsonValue
order_id_json (by_oid n) = int n
order_id_json (by_cloid t) = str t

unfoldable pub modify_json : OrderId × EncodedOrder → JsonValue
unfolding order_json
modify_json (id, order) =
    obj (fields (("oid", order_id_json id) ∷ (("order", order_json order) ∷ [])))

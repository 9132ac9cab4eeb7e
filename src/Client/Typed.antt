-- ===== src/Client/Typed.antt =====
-- src/async_hyperliquid/client.py: orders as they are encoded, by the types of types/exchange.py.
use mathlib.Core.Path.{subst}
use async_hyperliquid.Prelude.{
  String, ◌≡◌, refl, inl, inr, Bool, true, ◌&&◌, Option, none, some, List, [], ◌∷◌, map, All, ℤ,
}
use async_hyperliquid.Result.{value_error, ok, raise_if, >>=-eq-ok, ok_injective, Result-cases}
use async_hyperliquid.Float.{FloatOps}
use async_hyperliquid.Json.{array}
use async_hyperliquid.Order.{
  TimeInForce, alo, ioc, gtc, tif_value, TriggerKind, take_profit, stop_loss, trigger_value,
  OrderType, limit_order_type, trigger_order_type, OrderFields, PlaceOrderRequest, EncodedOrderType,
  EncodedOrder,
}
use async_hyperliquid.Encoding.{
  to_float, order_decimals, wire_float, normalize_size, normalize_price, parse_price,
  encode_order_type, encode_order,
}
use async_hyperliquid.Metadata.{MarketInfo}
use async_hyperliquid.Client.{is_outcome_market, encode_orders}
use async_hyperliquid.Exchange.Encode.{order_json}
use async_hyperliquid.Exchange.Typed.Trade.{HasTypedOption, orders-typed}
use async_hyperliquid.Types.{list_of, has_type}
use async_hyperliquid.Types.Actions.{encoded_order_type}

-- An order type of the declared types, as `limit_order_type` and `trigger_order_type` build them.
pub data IsOrderType : Option OrderType → Type 0 where
  none_given : IsOrderType none
  limited : (tif : TimeInForce) → IsOrderType (some (limit_order_type tif))
  triggered :
      (is_market : Bool) (trigger_px : String) (tpsl : TriggerKind)
      → IsOrderType (some (trigger_order_type is_market trigger_px tpsl))

abbrev pub IsTypedRequest : PlaceOrderRequest → Type 0
IsTypedRequest order = IsOrderType order.fields_.order_type

limit-HasTypedOption : (tif : TimeInForce) → HasTypedOption (EncodedOrderType.limit (tif_value tif))
limit-HasTypedOption alo = inl refl
limit-HasTypedOption ioc = inr (inl refl)
limit-HasTypedOption gtc = inr (inr refl)

trigger-HasTypedOption :
    (m : Bool) (p : String) (kind : TriggerKind)
    → HasTypedOption (EncodedOrderType.trigger m p (trigger_value kind))
trigger-HasTypedOption m p take_profit = inl refl
trigger-HasTypedOption m p stop_loss = inr refl

module _ (ops : FloatOps) where
  encode_order_type-HasTypedOption :
      (t : Option OrderType) (d : ℤ) (o : Bool) (e : EncodedOrderType)
      → IsOrderType t
      → encode_order_type ops t d o ≡ ok e
      → HasTypedOption e
  unfolding encode_order_type
  encode_order_type-HasTypedOption _ d o e none_given h =
      subst HasTypedOption (ok_injective h) (limit-HasTypedOption ioc)
  encode_order_type-HasTypedOption _ d o e (limited tif) h =
      subst HasTypedOption (ok_injective h) (limit-HasTypedOption tif)
  encode_order_type-HasTypedOption _ d o e (triggered m p kind) h =
      let (price, _, h1) = >>=-eq-ok (parse_price ops p) _ h in
      let (rounded, _, h2) = >>=-eq-ok (normalize_price ops price d o) _ h1 in
      let (wire, _, h3) = >>=-eq-ok (wire_float ops (to_float rounded)) _ h2 in
      subst HasTypedOption (ok_injective h3) (trigger-HasTypedOption m wire kind)

  encode_order-HasTypedOption :
      (f : OrderFields) (a d : ℤ) (s o : Bool) (e : EncodedOrder)
      → IsOrderType f.order_type
      → encode_order ops f a d s o ≡ ok e
      → HasTypedOption e.t
  unfolding encode_order
  encode_order-HasTypedOption f a d s o e t h =
      let (_, _, h1) =
        >>=-eq-ok (raise_if (s && f.ro) (value_error "spot orders cannot be reduce-only")) _ h in
      let (price, _, h2) = >>=-eq-ok (normalize_price ops f.px (order_decimals s d) o) _ h1 in
      let (size, _, h3) = >>=-eq-ok (normalize_size ops f.sz d) _ h2 in
      let (encoded, got, h4) =
        >>=-eq-ok (encode_order_type ops f.order_type (order_decimals s d) o) _ h3 in
      let (p, _, h5) = >>=-eq-ok (wire_float ops (to_float price)) _ h4 in
      let (q, _, h6) = >>=-eq-ok (wire_float ops (to_float size)) _ h5 in
      subst (λ (r : EncodedOrder). HasTypedOption r.t) (ok_injective h6)
        (encode_order_type-HasTypedOption f.order_type (order_decimals s d) o encoded t got)

  encode_orders-HasTypedOption :
      (orders : List PlaceOrderRequest) (markets : List MarketInfo) (out : List EncodedOrder)
      → All IsTypedRequest orders
      → encode_orders ops orders markets ≡ ok out
      → All (λ (e : EncodedOrder). HasTypedOption e.t) out
  unfolding encode_orders
  encode_orders-HasTypedOption (order ∷ orders) (m ∷ markets) out (t, ts) h =
      elim (Result-cases
        (encode_order ops order.fields_ m.asset m.size_decimals m.is_spot (is_outcome_market m))) [
          | inl (e, got) ↦ elim (Result-cases (encode_orders ops orders markets)) [
            | inl (more, rest) ↦
                subst (All (λ (r : EncodedOrder). HasTypedOption r.t))
                  (ok_injective (rw (encode_orders, got, rest) at h))
                  (
                    encode_order-HasTypedOption order.fields_ m.asset m.size_decimals m.is_spot
                        (is_outcome_market m) e t got,
                    encode_orders-HasTypedOption orders markets more ts rest,
                  )
            | inr (failure, rest) ↦ let bad = rw (encode_orders, got, rest) at h in cc
          ]
          | inr (failure, got) ↦ let bad = rw (encode_orders, got) at h in cc
        ]
  encode_orders-HasTypedOption [] [] out t h =
      subst (All (λ (r : EncodedOrder). HasTypedOption r.t)) (ok_injective h) tt
  encode_orders-HasTypedOption [] (m ∷ markets) out t h = cc
  encode_orders-HasTypedOption (order ∷ orders) [] out t h = cc

  -- When orders whose order types were built by `limit_order_type` and `trigger_order_type`, or left out,
  -- are encoded, the batch as it is sent is a list of the declared type of encoded orders, with exactly
  -- the declared keys.
  pub encode_orders-typed :
      (orders : List PlaceOrderRequest) (markets : List MarketInfo) (out : List EncodedOrder)
      → All IsTypedRequest orders
      → encode_orders ops orders markets ≡ ok out
      → has_type true (list_of encoded_order_type) (array (map order_json out)) ≡ true
  encode_orders-typed orders markets out t h =
      orders-typed out (encode_orders-HasTypedOption orders markets out t h)

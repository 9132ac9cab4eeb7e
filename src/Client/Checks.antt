-- ===== src/Client/Checks.antt =====
-- The exceptions of the checks of a batch.
use async_hyperliquid.Prelude.{
  String, ◌≡◌, sym, ◌∙◌, inl, inr, Bool, true, false, not, ◌&&◌, List, [], ◌∷◌, if◌then◌else◌, any,
}
use async_hyperliquid.Result.{Error, value_error, Result, err, ok, Result-cases, err_injective}
use async_hyperliquid.Order.{OrderGrouping, na, normal_tpsl, position_tpsl, PlaceOrderRequest}
use async_hyperliquid.Client.{
  is_trigger_order, is_slippage, validate_order, validate_each, validate_group, validate_grouping,
  validate_orders,
}

-- The checks of a batch raise `ValueError` alone.
abbrev pub RaisesValueErrors : Result (Unit {0}) → Type 0
RaisesValueErrors r = (e : Error) → r ≡ err e → (message : String) × (e ≡ value_error message)

first_or_second :
    (b c : Bool) (m n : String)
    → RaisesValueErrors
        (if b then err (value_error m) else if c then err (value_error n) else ok tt)
first_or_second true c m n e h = (m, err_injective (sym h))
first_or_second false true m n e h = (n, err_injective (sym h))
first_or_second false false m n e h = cc

validate_order-value_errors : (order : PlaceOrderRequest) → RaisesValueErrors (validate_order order)
unfolding validate_order
validate_order-value_errors order e h =
    first_or_second (order.is_market && is_trigger_order order)
      (order.is_market && not (is_slippage order.slippage))
      "outer is_market cannot be used with a trigger order; use trigger.isMarket"
      "slippage must be finite and in [0, 1)" e h

validate_each-value_errors :
    (orders : List PlaceOrderRequest) → RaisesValueErrors (validate_each orders)
unfolding validate_each
validate_each-value_errors [] e h = cc
validate_each-value_errors (order ∷ orders) e h = elim (Result-cases (validate_order order)) [
  | inl (u, o) ↦ validate_each-value_errors orders e (rw (o, validate_each) at h)
  | inr (f, o) ↦ validate_order-value_errors order e (o ∙ (rw (o, validate_each) at h))
]

validate_grouping-value_errors :
    (grouping : OrderGrouping) (orders : List PlaceOrderRequest)
    → RaisesValueErrors (validate_grouping grouping orders)
unfolding validate_group
validate_grouping-value_errors na orders e h = cc
validate_grouping-value_errors position_tpsl orders e h = cc
validate_grouping-value_errors normal_tpsl [] e h = (_, err_injective (sym h))
validate_grouping-value_errors normal_tpsl (order ∷ []) e h = (_, err_injective (sym h))
validate_grouping-value_errors normal_tpsl (parent ∷ (child ∷ children)) e h =
    first_or_second (is_trigger_order parent)
      (any (λ (o : PlaceOrderRequest). not (is_trigger_order o)) (child ∷ children))
      "normalTpsl first order must be a non-trigger parent"
      "normalTpsl child orders must be trigger orders" e h

pub validate_orders-value_errors :
    (orders : List PlaceOrderRequest) (grouping : OrderGrouping)
    → RaisesValueErrors (validate_orders orders grouping)
unfolding validate_orders
validate_orders-value_errors orders grouping e h = elim (Result-cases (validate_each orders)) [
  | inl (u, o) ↦ validate_grouping-value_errors grouping orders e (rw (o, validate_orders) at h)
  | inr (f, o) ↦ validate_each-value_errors orders e (o ∙ (rw (o, validate_orders) at h))
]

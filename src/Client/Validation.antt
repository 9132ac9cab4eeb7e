-- ===== src/Client/Validation.antt =====
-- The checks that a batch of orders must pass before anything is sent.
use async_hyperliquid.Prelude.{
  String, ◌≡◌, refl, ◌↔◌, ◌⊎◌, inl, inr, Bool, true, false, not, Option, none, some, List, [], ◌∷◌,
  arith, if◌then◌else◌, Bool-cases, is_empty, any, All, ℤ, pos, ltb_ℤ,
}
use async_hyperliquid.Result.{Error, value_error, Result, err, ok, Result-cases}
use async_hyperliquid.Float.{Float, is_finite, float_lt, float_le, float_zero}
use async_hyperliquid.Order.{
  OrderGrouping, na, normal_tpsl, position_tpsl, PlaceOrderRequest, Builder,
}
use async_hyperliquid.Json.{JsonValue}
use async_hyperliquid.Metadata.{MarketInfo}
use async_hyperliquid.World.{Externals, World}
use async_hyperliquid.World.Exec.{Exec, lift, continue, ◌>>=◌, fail_if}
use async_hyperliquid.Info.Metadata.{market_infos}
use async_hyperliquid.Client.{
  AsyncHyperliquid, float_one, is_trigger_order, is_slippage, validate_order, validate_each,
  validate_group, validate_grouping, validate_orders, validate_builder,
}
use async_hyperliquid.Client.Orders.{mixes_venues, first_is_spot, coins_of, place_orders}
use async_hyperliquid.Client.Checks.{validate_orders-value_errors}

-- A market order is not a trigger order, and its slippage is a finite number in [0, 1).
pub record IsValid (order : PlaceOrderRequest) : Type 0 where
  pub not_both : order.is_market ≡ true → is_trigger_order order ≡ false
  pub has_slippage :
      order.is_market ≡ true
      → (is_finite order.slippage ≡ true)
        × (float_le float_zero order.slippage ≡ true)
        × (float_lt order.slippage float_one ≡ true)

-- A parent that is no trigger order, and one or more children that are.
pub data IsGroup : List PlaceOrderRequest → Type 0 where
  group :
      {parent child : PlaceOrderRequest} {children : List PlaceOrderRequest}
      → is_trigger_order parent ≡ false
      → All (λ (o : PlaceOrderRequest). is_trigger_order o ≡ true) (child ∷ children)
      → IsGroup (parent ∷ (child ∷ children))

abbrev pub FitsGrouping : OrderGrouping → List PlaceOrderRequest → Type 0
FitsGrouping normal_tpsl orders = IsGroup orders
FitsGrouping na orders = Unit
FitsGrouping position_tpsl orders = Unit

is_slippage_iff :
    (s : Float)
    → (is_slippage s ≡ true)
      ↔ ((is_finite s ≡ true) × (float_le float_zero s ≡ true) × (float_lt s float_one ≡ true))
unfolding is_slippage
is_slippage_iff s = (λ h. ground arith, λ h. ground arith)

validate_order-IsValid : (order : PlaceOrderRequest) → validate_order order ≡ ok tt → IsValid order
unfolding validate_order
validate_order-IsValid order h = record {
  not_both = λ m. ground arith;
  has_slippage = λ m. (is_slippage_iff order.slippage).0 (ground arith);
}

IsValid-validate_order : (order : PlaceOrderRequest) → IsValid order → validate_order order ≡ ok tt
unfolding validate_order
IsValid-validate_order order v = elim (Bool-cases order.is_market) [
  | inl m ↦ rw (m, v.not_both m, (is_slippage_iff order.slippage).1 (v.has_slippage m)) refl
  | inr m ↦ rw m refl
]

validate_each_iff :
    (orders : List PlaceOrderRequest) → (validate_each orders ≡ ok tt) ↔ All IsValid orders
unfolding validate_each
validate_each_iff [] = (λ h. tt, λ v. refl)
validate_each_iff (order ∷ orders) =
    let rest = validate_each_iff orders in
    (
      λ h. elim (Result-cases (validate_order order)) [
        | inl (u, o) ↦ (validate_order-IsValid order o, rest.0 (rw (o, validate_each) at h))
        | inr (e, o) ↦ let k = rw (o, validate_each) at h in cc
      ],
      λ v. rw (IsValid-validate_order order v.0, validate_each) (rest.1 v.1),
    )

All-triggers :
    (orders : List PlaceOrderRequest)
    → (any (λ (o : PlaceOrderRequest). not (is_trigger_order o)) orders ≡ false)
      ↔ All (λ (o : PlaceOrderRequest). is_trigger_order o ≡ true) orders
All-triggers [] = (λ h. tt, λ t. refl)
All-triggers (order ∷ orders) = (
  λ h. (ground arith, (All-triggers orders).0 (ground arith)),
  λ t. let rest = (All-triggers orders).1 t.1 in let one = t.0 in ground arith,
)

validate_group_iff :
    (orders : List PlaceOrderRequest) → (validate_group orders ≡ ok tt) ↔ IsGroup orders
unfolding validate_group
validate_group_iff [] = (λ h. cc, λ g. elim g [ ])
validate_group_iff (parent ∷ []) = (λ h. cc, λ g. elim g [ ])
validate_group_iff (parent ∷ (child ∷ children)) = (there, back)
  where
    there :
        validate_group (parent ∷ (child ∷ children)) ≡ ok tt → IsGroup (parent ∷ (child ∷ children))
    there h = group (ground arith) ((All-triggers (child ∷ children)).0 (ground arith))

    back :
        IsGroup (parent ∷ (child ∷ children)) → validate_group (parent ∷ (child ∷ children)) ≡ ok tt
    back (group p c) = let none_else = (All-triggers (child ∷ children)).1 c in ground arith

validate_grouping_iff :
    (grouping : OrderGrouping) (orders : List PlaceOrderRequest)
    → (validate_grouping grouping orders ≡ ok tt) ↔ FitsGrouping grouping orders
validate_grouping_iff normal_tpsl orders = validate_group_iff orders
validate_grouping_iff na orders = (λ h. tt, λ f. refl)
validate_grouping_iff position_tpsl orders = (λ h. tt, λ f. refl)

-- A batch passes `_validate_orders` just when each of its orders is valid on its own and, for the
-- grouping `normalTpsl`, it is a parent that is no trigger order with one or more trigger children.
pub validate_orders_iff :
    (orders : List PlaceOrderRequest) (grouping : OrderGrouping)
    → (validate_orders orders grouping ≡ ok tt)
      ↔ (All IsValid orders × FitsGrouping grouping orders)
unfolding validate_orders
validate_orders_iff orders grouping = (
  λ h. elim (Result-cases (validate_each orders)) [
    | inl (u, o) ↦ (
      (validate_each_iff orders).0 o,
      (validate_grouping_iff grouping orders).0 (rw (o, validate_orders) at h),
    )
    | inr (e, o) ↦ let k = rw (o, validate_orders) at h in cc
  ],
  λ v.
      rw ((validate_each_iff orders).1 v.0, validate_orders)
        ((validate_grouping_iff grouping orders).1 v.1),
)

-- A method that returned has returned at each step.
continue_returned {ℓ κ} :
    {A : Type ℓ} {B : Type κ} (r : Result A × World) (f : A → Exec B) (b : B)
    → (continue r.0 f r.1).0 ≡ ok b
    → (a : A) × (later : World) × (r ≡ (ok a, later)) × ((f a later).0 ≡ ok b)
continue_returned (ok a, later) f b h = (a, later, refl, h)
continue_returned (err e, later) f b h = cc

bind_returned {ℓ κ} :
    {A : Type ℓ} {B : Type κ} (m : Exec A) (f : A → Exec B) (w : World) (b : B)
    → ((m >>= f) w).0 ≡ ok b
    → (a : A) × (later : World) × (m w ≡ (ok a, later)) × ((f a later).0 ≡ ok b)
unfolding ◌>>=◌
bind_returned m f w b h = continue_returned (m w) f b h

lift_returned {ℓ κ} :
    {A : Type ℓ} {B : Type κ} (r : Result A) (f : A → Exec B) (w : World) (b : B)
    → ((lift r >>= f) w).0 ≡ ok b
    → (a : A) × (r ≡ ok a) × ((f a w).0 ≡ ok b)
unfolding ◌>>=◌ lift
lift_returned (ok a) f w b h = (a, refl, h)
lift_returned (err e) f w b h = cc

fail_if_returned {κ} :
    {B : Type κ} (test : Bool) (e : Error) (f : Unit {0} → Exec B) (w : World) (b : B)
    → ((fail_if test e >>= f) w).0 ≡ ok b
    → (test ≡ false) × ((f tt w).0 ≡ ok b)
unfolding ◌>>=◌ fail_if
fail_if_returned false e f w b h = (refl, h)
fail_if_returned true e f w b h = cc

-- The markets are all spot markets or all of them are not.
pub IsOneVenue : List MarketInfo → Type 0
IsOneVenue markets = All (λ (m : MarketInfo). m.is_spot ≡ first_is_spot markets) markets

same_venue :
    (first : Bool) (rest : List MarketInfo)
    → any (λ (m : MarketInfo). if first then not m.is_spot else m.is_spot) rest ≡ false
    → All (λ (m : MarketInfo). m.is_spot ≡ first) rest
same_venue first [] h = tt
same_venue first (m ∷ rest) h = (ground arith, same_venue first rest (ground arith))

mixes_venues-IsOneVenue :
    (markets : List MarketInfo) → mixes_venues markets ≡ false → IsOneVenue markets
unfolding mixes_venues IsOneVenue
mixes_venues-IsOneVenue [] h = tt
mixes_venues-IsOneVenue (first ∷ rest) h = (refl, same_venue first.is_spot rest h)

-- A builder's fee is at most 1000 tenths of a basis point on spot markets, at most 100 on others.
abbrev pub FeeFits : Bool → Option Builder → Type 0
FeeFits is_spot none = Unit
FeeFits is_spot (some builder) =
    ltb_ℤ (pos (if is_spot then 1000 else 100)) builder.fee_tenths_bps ≡ false

validate_builder-FeeFits :
    (builder : Option Builder) (is_spot : Bool)
    → validate_builder builder is_spot ≡ ok tt
    → FeeFits is_spot builder
unfolding validate_builder
validate_builder-FeeFits none is_spot h = tt
validate_builder-FeeFits (some builder) is_spot h = ground arith

module _ (x : Externals) (a : AsyncHyperliquid) where
  checks_failed :
      (order : PlaceOrderRequest) (orders : List PlaceOrderRequest) (grouping : OrderGrouping)
      (builder : Option Builder) (expires_after : Option ℤ) (e : Error) (w : World)
      → validate_orders (order ∷ orders) grouping ≡ err e
      → place_orders x a (order ∷ orders) grouping builder expires_after w ≡ (err e, w)
  unfolding place_orders fail_if ◌>>=◌
  checks_failed order orders grouping builder expires_after e w h = rw h refl

  -- A batch that is empty, that has an order which is not valid on its own, or that does not have the form
  -- its grouping asks for, raises a `ValueError` and changes nothing: nothing is read, asked for or sent.
  pub place_orders-rejected :
      (orders : List PlaceOrderRequest) (grouping : OrderGrouping) (builder : Option Builder)
      (expires_after : Option ℤ) (w : World)
      → (orders ≡ []) ⊎ ¬ (All IsValid orders × FitsGrouping grouping orders)
      → (message : String) × (place_orders x a orders grouping builder expires_after w
          ≡ (err (value_error message), w))
  place_orders-rejected [] grouping builder expires_after w h =
      ("orders must not be empty", unfold place_orders fail_if ◌>>=◌ in refl)
  place_orders-rejected (order ∷ orders) grouping builder expires_after w (inl empty) = cc
  place_orders-rejected (order ∷ orders) grouping builder expires_after w (inr invalid) =
      elim (Result-cases (validate_orders (order ∷ orders) grouping)) [
        | inl (u, valid) ↦
            absurd (invalid ((validate_orders_iff (order ∷ orders) grouping).0 valid))
        | inr (e, failed) ↦
            let (message, same) = validate_orders-value_errors (order ∷ orders) grouping e failed in
            (
              message,
              rw⁻¹ same (checks_failed order orders grouping builder expires_after e w failed),
            )
      ]

  -- A batch whose reply is returned was not empty, passed the checks of its orders and of its grouping,
  -- named markets of one venue only, and its builder's fee is within that venue's limit.
  pub place_orders-accepted :
      (orders : List PlaceOrderRequest) (grouping : OrderGrouping) (builder : Option Builder)
      (expires_after : Option ℤ) (w : World) (reply : JsonValue)
      → (place_orders x a orders grouping builder expires_after w).0 ≡ ok reply
      → (is_empty orders ≡ false)
        × All IsValid orders
        × FitsGrouping grouping orders
        × (markets : List MarketInfo) × (later : World) × (market_infos x a.info (coins_of orders) w
            ≡ (ok markets, later))
        × IsOneVenue markets
        × FeeFits (first_is_spot markets) builder
  unfolding place_orders
  place_orders-accepted orders grouping builder expires_after w reply h =
      let (nonempty, h1) = fail_if_returned _ _ _ w reply h in
      let (_, valid, h2) = lift_returned _ _ w reply h1 in
      let (markets, later, found, h3) = bind_returned _ _ w reply h2 in
      let (unmixed, h4) = fail_if_returned _ _ _ later reply h3 in
      let (_, fits, h5) = lift_returned _ _ later reply h4 in
      let checked = (validate_orders_iff orders grouping).0 valid in
      (
        nonempty,
        checked.0,
        checked.1,
        markets,
        later,
        found,
        mixes_venues-IsOneVenue markets unmixed,
        validate_builder-FeeFits builder (first_is_spot markets) fits,
      )

-- ===== src/Encoding/Orders.antt =====
-- Which orders are encoded, and what the encoding keeps of them.
use mathlib.Core.Path.{subst}
use async_hyperliquid.Prelude.{
  ℕ, String, ◌≡◌, refl, ap, ◌∙◌, ◌⊎◌, inl, inr, Bool, true, false, ◌&&◌, Option, none, some, arith,
  Option-cases, ℤ, pos,
}
use async_hyperliquid.Result.{Error, value_error, ok, raise_if, >>=-eq-ok, ok_injective}
use async_hyperliquid.Float.{
  Float, finite, is_finite, float_le, is_zero, is_below_zero, is_at_most_zero, FloatOps,
}
use async_hyperliquid.Text.{chars}
use async_hyperliquid.Order.{
  TimeInForce, tif_value, OrderType, OrderFields, EncodedOrderType, EncodedOrder,
}
use async_hyperliquid.Encoding.{
  outcome_min_price, outcome_max_price, Number, int, to_float, number_at_most_zero, units_e8,
  order_decimals, wire_float, normalize_size, normalize_price, parse_price, encode_order_type,
  encode_order,
}
use async_hyperliquid.Encoding.Wire.{read_wire, wire_float-read}

-- The text reads back as the number, rounded at eight decimals, halves to even.
pub data IsWritten (n : Number) (text : String) : Type 0 where
  reads_as :
      (s : Bool) (m : ℕ) (e : ℤ)
      → to_float n ≡ finite s m e
      → read_wire (chars text) ≡ some (s, units_e8 m e)
      → IsWritten n text

-- A price that can be sent, and its text.
pub data IsPriceText (ops : FloatOps) (price : Float) (decimals : ℤ) (is_outcome : Bool)
    (text : String) : Type 0 where
  price_text :
      (n : Number)
      → is_finite price ≡ true
      → is_at_most_zero price ≡ false
      → (is_outcome ≡ true
          → (float_le outcome_min_price price ≡ true) × (float_le price outcome_max_price ≡ true))
      → normalize_price ops price decimals is_outcome ≡ ok n
      → number_at_most_zero n ≡ false
      → IsWritten n text
      → IsPriceText ops price decimals is_outcome text

-- The text of a size: of zero if the size is zero, and of something positive otherwise.
pub data IsSizeText (ops : FloatOps) (size : Float) (decimals : ℤ) (text : String) : Type 0 where
  size_text :
      (n : Number)
      → is_finite size ≡ true
      → is_below_zero size ≡ false
      → ((is_zero size ≡ true) × (n ≡ int (pos 0)))
        ⊎ ((is_zero size ≡ false) × (number_at_most_zero n ≡ false))
      → normalize_size ops size decimals ≡ ok n
      → IsWritten n text
      → IsSizeText ops size decimals text

-- How an order type is encoded: IOC if none is given.
pub data IsTypeOf (ops : FloatOps) (decimals : ℤ) (is_outcome : Bool)
    : Option OrderType → EncodedOrderType → Type 0 where
  by_default : IsTypeOf ops decimals is_outcome none (EncodedOrderType.limit "Ioc")
  limit_order :
      (tif : TimeInForce)
      → IsTypeOf ops decimals is_outcome
          (some (OrderType.limit tif))
          (EncodedOrderType.limit (tif_value tif))
  trigger_order :
      (is_market : Bool) (trigger_px tpsl text : String) (price : Float)
      → ops.parse trigger_px ≡ some price
      → IsPriceText ops price decimals is_outcome text
      → IsTypeOf ops decimals is_outcome
          (some (OrderType.trigger is_market trigger_px tpsl))
          (EncodedOrderType.trigger is_market text tpsl)

-- An order for a market as it is sent.
pub record IsEncoded (ops : FloatOps) (order : OrderFields) (asset decimals : ℤ)
    (is_spot is_outcome : Bool) (e : EncodedOrder) : Type 0 where
  pub asset_ : e.a ≡ asset
  pub side : e.b ≡ order.is_buy
  pub reduce_only : e.r ≡ order.ro
  pub never_on_spot : (is_spot && e.r) ≡ false
  pub client_id : e.c ≡ order.cloid
  pub price : IsPriceText ops order.px (order_decimals is_spot decimals) is_outcome e.p
  pub size : IsSizeText ops order.sz decimals e.s
  pub type_ : IsTypeOf ops (order_decimals is_spot decimals) is_outcome order.order_type e.t

module _ (ops : FloatOps) where
  -- A price that is accepted is finite and positive, within the outcome bounds on an outcome market,
  -- and still positive after rounding.
  normalize_price-positive :
      (price : Float) (max_decimals : ℤ) (is_outcome : Bool) (n : Number)
      → normalize_price ops price max_decimals is_outcome ≡ ok n
      → (is_finite price ≡ true)
        × (is_at_most_zero price ≡ false)
        × (number_at_most_zero n ≡ false)
        × (is_outcome ≡ true
            → (float_le outcome_min_price price ≡ true) × (float_le price outcome_max_price ≡ true))
  unfolding normalize_price
  normalize_price-positive price max_decimals is_outcome n h =
      (ground arith, ground arith, ground arith, λ o. (ground arith, ground arith))

  -- A size is refused, written as 0 if it is zero, or rounded to something positive.
  normalize_size-positive :
      (size : Float) (decimals : ℤ) (n : Number)
      → normalize_size ops size decimals ≡ ok n
      → (is_finite size ≡ true)
        × (is_below_zero size ≡ false)
        × ((is_zero size ≡ true) × (n ≡ int (pos 0))
            ⊎ (is_zero size ≡ false) × (number_at_most_zero n ≡ false))
  unfolding normalize_size
  normalize_size-positive size decimals n h = (ground arith, ground arith, ground arith)

  wire_float-IsWritten :
      (n : Number) (text : String) → wire_float ops (to_float n) ≡ ok text → IsWritten n text
  wire_float-IsWritten n text h =
      let (s, m, e, same, read) = wire_float-read ops (to_float n) text h in
      reads_as s m e same read

  price-IsPriceText :
      (price : Float) (d : ℤ) (o : Bool) (n : Number) (text : String)
      → normalize_price ops price d o ≡ ok n
      → wire_float ops (to_float n) ≡ ok text
      → IsPriceText ops price d o text
  price-IsPriceText price d o n text h w =
      let (finite_, above, positive, bounds) = normalize_price-positive price d o n h in
      price_text n finite_ above bounds h positive (wire_float-IsWritten n text w)

  size-IsSizeText :
      (size : Float) (d : ℤ) (n : Number) (text : String)
      → normalize_size ops size d ≡ ok n
      → wire_float ops (to_float n) ≡ ok text
      → IsSizeText ops size d text
  size-IsSizeText size d n text h w =
      let (finite_, above, kinds) = normalize_size-positive size d n h in
      size_text n finite_ above kinds h (wire_float-IsWritten n text w)

  parsed : (t : String) (price : Float) → parse_price ops t ≡ ok price → ops.parse t ≡ some price
  parsed t price h = elim (Option-cases (ops.parse t)) [
    | inl e ↦ let bad = rw e at h in cc
    | inr (p, e) ↦ let same = rw e at h in e ∙ ap (λ (v : Float). some v) (ok_injective same)
  ]

  encode_order_type-IsTypeOf :
      (t : Option OrderType) (d : ℤ) (o : Bool) (e : EncodedOrderType)
      → encode_order_type ops t d o ≡ ok e
      → IsTypeOf ops d o t e
  unfolding encode_order_type
  encode_order_type-IsTypeOf none d o e h =
      subst (IsTypeOf ops d o none) (ok_injective h) by_default
  encode_order_type-IsTypeOf (some (OrderType.limit tif)) d o e h =
      subst (IsTypeOf ops d o (some (OrderType.limit tif))) (ok_injective h) (limit_order tif)
  encode_order_type-IsTypeOf (some (OrderType.trigger m p tpsl)) d o e h =
      let (price, got, h1) = >>=-eq-ok (parse_price ops p) _ h in
      let (n, normal, h2) = >>=-eq-ok (normalize_price ops price d o) _ h1 in
      let (text, wire, h3) = >>=-eq-ok (wire_float ops (to_float n)) _ h2 in
      subst (IsTypeOf ops d o (some (OrderType.trigger m p tpsl))) (ok_injective h3) (
        trigger_order m p tpsl text price (parsed p price got)
          (price-IsPriceText price d o n text normal wire))

  not_raised : (b : Bool) (e : Error) (u : Unit {0}) → raise_if b e ≡ ok u → b ≡ false
  not_raised false e u h = refl
  not_raised true e u h = cc

  pub encode_order-IsEncoded :
      (f : OrderFields) (a d : ℤ) (s o : Bool) (e : EncodedOrder)
      → encode_order ops f a d s o ≡ ok e
      → IsEncoded ops f a d s o e
  unfolding encode_order
  encode_order-IsEncoded f a d s o e h =
      let (u, allowed, h1) =
        >>=-eq-ok (raise_if (s && f.ro) (value_error "spot orders cannot be reduce-only")) _ h in
      let (price, normal, h2) = >>=-eq-ok (normalize_price ops f.px (order_decimals s d) o) _ h1 in
      let (size, sized, h3) = >>=-eq-ok (normalize_size ops f.sz d) _ h2 in
      let (t, typed, h4) =
        >>=-eq-ok (encode_order_type ops f.order_type (order_decimals s d) o) _ h3 in
      let (p, priced, h5) = >>=-eq-ok (wire_float ops (to_float price)) _ h4 in
      let (q, counted, h6) = >>=-eq-ok (wire_float ops (to_float size)) _ h5 in
      subst (IsEncoded ops f a d s o) (ok_injective h6) (record {
        asset_ = refl;
        side = refl;
        reduce_only = refl;
        never_on_spot = not_raised (s && f.ro) _ u allowed;
        client_id = refl;
        price = price-IsPriceText f.px (order_decimals s d) o price p normal priced;
        size = size-IsSizeText f.sz d size q sized counted;
        type_ = encode_order_type-IsTypeOf f.order_type (order_decimals s d) o t typed;
      })

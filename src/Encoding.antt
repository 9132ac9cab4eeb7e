-- ===== src/Encoding.antt =====
-- src/async_hyperliquid/_internal/encoding.py and constants.py: sizes, prices and orders as the
-- exchange reads them.
pub mod Wire
pub mod Orders
use Prim.Native.Char.{Char}
use async_hyperliquid.Prelude.{
  ℕ, suc, ◌+◌, ◌*◌, ◌/◌, ◌%◌, ◌^◌, String, Bool, true, false, not, ◌&&◌, ◌||◌, Option, none, some,
  [], ◌∷◌, ◌++◌, ltb, if◌then◌else◌, string_eq, ◌==◌, nat_eq, ℤ, pos, negsuc, ◌-ℤ◌, leb_ℤ, int_eq,
}
use async_hyperliquid.Result.{value_error, Result, ok, ◌>>=◌, ◌>>◌, raise_if, or_raise}
use async_hyperliquid.Float.{
  Float, finite, infinite, nan, is_finite, float_le, is_zero, is_below_zero, is_at_most_zero,
  float_abs, is_integer, to_int, of_int, FloatOps,
}
use async_hyperliquid.Text.{Chars, chars, of_chars, char_eq, print, print_padded, rstrip}
use async_hyperliquid.Order.{
  tif_value, OrderType, limit, trigger, OrderFields, EncodedOrderType, EncodedOrder,
}

-- The doubles of `constants.py`, of the default slippage and of the tolerance.
abbrev pub outcome_min_price : Float
outcome_min_price = finite false 5902958103587057 (negsuc 68)

abbrev pub outcome_max_price : Float
outcome_max_price = finite false 9007109182748445 (negsuc 52)

abbrev pub outcome_price_decimals : ℤ
outcome_price_decimals = pos 5

abbrev pub tolerance : Float
tolerance = finite false 4951760157141521 (negsuc 91)

-- A price or a size after rounding: `float | int`.
pub data Number : Type 0 where
  float : Float → Number
  int : ℤ → Number

abbrev pub to_float : Number → Float
to_float (float x) = x
to_float (int n) = of_int n

-- `int(x) if x.is_integer() else x`
unfoldable pub narrow : Float → Number
narrow x = if is_integer x then int (to_int x) else float x

-- `number <= 0` and `number == 0`
abbrev pub number_at_most_zero : Number → Bool
number_at_most_zero (float x) = is_at_most_zero x
number_at_most_zero (int n) = leb_ℤ n (pos 0)

abbrev pub number_is_zero : Number → Bool
number_is_zero (float x) = is_zero x
number_is_zero (int n) = n == pos 0

-- A quotient rounded to the nearest, and to the even one of two.
unfoldable pub divide_even : ℕ → ℕ → ℕ
divide_even n d =
    let q = n / d in
    let r = n % d in if ltb (2 * r) d then q else if ltb d (2 * r) then q + 1 else q + q % 2

-- The magnitude of `x` in units of 10 ^ -8.
unfoldable pub units_e8 : ℕ → ℤ → ℕ
unfolding divide_even
units_e8 m (pos e) = m * 2 ^ e * 10 ^ 8
units_e8 m (negsuc e) = divide_even (m * 10 ^ 8) (2 ^ suc e)

abbrev pub with_sign : Bool → Chars → Chars
with_sign true cs = "-" ∷ cs
with_sign false cs = cs

-- `f"{x:.8f}"`
unfoldable pub format_e8 : Float → Chars
unfolding units_e8
format_e8 (finite s m e) =
    let n = units_e8 m e in with_sign s (print (n / 10 ^ 8) ++ ("." ∷ print_padded 8 (n % 10 ^ 8)))
format_e8 (infinite s) = with_sign s (chars "inf")
format_e8 nan = chars "nan"

-- `text or "0"`
abbrev pub or_zero : Chars → Chars
or_zero [] = "0" ∷ []
or_zero (c ∷ cs) = c ∷ cs

-- `(8 if is_spot else 6) - size_decimals`
abbrev pub order_decimals : Bool → ℤ → ℤ
order_decimals is_spot size_decimals = pos (if is_spot then 8 else 6) -ℤ size_decimals

module _ (ops : FloatOps) where
  -- `abs(float(rounded) - number) >= 1e-12`
  unfoldable pub is_far : Option Float → Float → Bool
  is_far none x = true
  is_far (some y) x = float_le tolerance (float_abs (ops.sub y x))

  unfoldable pub wire_float : Float → Result String
  unfolding is_far format_e8
  wire_float x = do
    raise_if (not (is_finite x)) (value_error "wire number must be finite")
    let rounded = format_e8 x
    raise_if (is_far (ops.parse (of_chars rounded)) x)
        (value_error "wire number exceeds eight decimal places")
    ok (of_chars (or_zero (rstrip "." (rstrip "0" rounded))))

  unfoldable pub round_size : Float → ℤ → Number
  unfolding narrow
  round_size x size_decimals = narrow (ops.round_to x size_decimals)

  unfoldable pub normalize_size : Float → ℤ → Result Number
  unfolding round_size
  normalize_size size size_decimals = do
    raise_if (not (is_finite size) || is_below_zero size)
        (value_error "size must be finite and non-negative")
    let rounded = round_size size size_decimals
    let positive =
        raise_if (number_at_most_zero rounded) (value_error "order size is below market precision")
        >> ok rounded
    if is_zero size then ok (int (pos 0)) else positive

  unfoldable pub round_price : Float → ℤ → Number
  unfolding narrow
  round_price x max_decimals =
      if is_integer x
      then int (to_int x)
      else narrow (ops.round_to (ops.round_significant x) max_decimals)

  -- `price` is `float(value)`.
  unfoldable pub normalize_price : Float → ℤ → Bool → Result Number
  unfolding round_price
  normalize_price price max_decimals is_outcome = do
    raise_if (not (is_finite price) || is_at_most_zero price)
        (value_error "price must be finite and greater than zero")
    raise_if
        (is_outcome && not (float_le outcome_min_price price && float_le price outcome_max_price))
        (value_error "outcome price must be between 0.00001 and 0.99999 USDC")
    let rounded = round_price price (if is_outcome then outcome_price_decimals else max_decimals)
    raise_if (number_at_most_zero rounded) (value_error "order price is below market precision")
    ok rounded

  -- `float(text)` of a trigger price
  abbrev pub parse_price : String → Result Float
  parse_price t = or_raise (ops.parse t) (value_error "could not convert string to float")

  unfoldable pub encode_order_type : Option OrderType → ℤ → Bool → Result EncodedOrderType
  encode_order_type none max_decimals is_outcome = ok (EncodedOrderType.limit "Ioc")
  encode_order_type (some (OrderType.limit tif)) max_decimals is_outcome =
      ok (EncodedOrderType.limit (tif_value tif))
  encode_order_type (some (OrderType.trigger is_market trigger_px tpsl)) max_decimals is_outcome =
      do
        price ← parse_price trigger_px
        trigger_price ← normalize_price price max_decimals is_outcome
        wire ← wire_float (to_float trigger_price)
        ok (EncodedOrderType.trigger is_market wire tpsl)

  -- The fields of an order that placing and modifying share (`BaseOrderRequest`, `ro`, `order_type`).
  unfoldable pub encode_order : OrderFields → ℤ → ℤ → Bool → Bool → Result EncodedOrder
  encode_order order asset size_decimals is_spot is_outcome = do
    raise_if (is_spot && order.ro) (value_error "spot orders cannot be reduce-only")
    let max_decimals = order_decimals is_spot size_decimals
    price ← normalize_price order.px max_decimals is_outcome
    size ← normalize_size order.sz size_decimals
    encoded_type ← encode_order_type order.order_type max_decimals is_outcome
    p ← wire_float (to_float price)
    s ← wire_float (to_float size)
    ok (record {
      a = asset;
      b = order.is_buy;
      p = p;
      s = s;
      r = order.ro;
      t = encoded_type;
      c = order.cloid;
    })

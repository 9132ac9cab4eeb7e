-- ===== src/Float.antt =====
-- Python's `float` by value: the sign bit, a mantissa and a power of two, or an infinity or a NaN.
-- The order, `math.isfinite`, `is_integer` and `int()` are exact. Rounding, printing to five
-- significant digits, parsing and arithmetic enter as parameters (`FloatOps`).
use async_hyperliquid.Prelude.{
  ℕ, suc, ◌+◌, ◌*◌, ◌/◌, ◌%◌, ◌^◌, String, Bool, true, false, not, ◌&&◌, Option, if◌then◌else◌,
  string_eq, ◌==◌, nat_eq, ℤ, pos, negsuc, pos_part, neg_part, sub_ℕ, ltb_ℤ, leb_ℤ, int_eq,
}

-- `finite s m e` is m * 2 ^ e, negated if `s`.
pub data Float : Type 0 where
  finite : Bool → ℕ → ℤ → Float
  infinite : Bool → Float
  nan : Float

abbrev pub signed : Bool → ℕ → ℤ
signed true n = sub_ℕ 0 n
signed false n = pos n

-- `math.isfinite(x)`
abbrev pub is_finite : Float → Bool
is_finite (finite s m e) = true
is_finite (infinite s) = false
is_finite nan = false

-- The mantissa over a power of two that both exponents reach.
abbrev pub scale : ℕ → ℤ → ℤ → ℕ
scale m e f = m * 2 ^ (pos_part e + neg_part f)

-- `x < y` and `x <= y`; every comparison with a NaN is false.
unfoldable pub float_lt : Float → Float → Bool
float_lt (finite s m e) (finite t n f) = ltb_ℤ (signed s (scale m e f)) (signed t (scale n f e))
float_lt (finite s m e) (infinite t) = not t
float_lt (infinite s) (finite t n f) = s
float_lt (infinite s) (infinite t) = s && not t
float_lt nan y = false
float_lt (finite s m e) nan = false
float_lt (infinite s) nan = false

unfoldable pub float_le : Float → Float → Bool
float_le (finite s m e) (finite t n f) = leb_ℤ (signed s (scale m e f)) (signed t (scale n f e))
float_le (finite s m e) (infinite t) = not t
float_le (infinite s) (finite t n f) = s
float_le (infinite true) (infinite t) = true
float_le (infinite false) (infinite t) = not t
float_le nan y = false
float_le (finite s m e) nan = false
float_le (infinite s) nan = false

abbrev pub float_zero : Float
float_zero = finite false 0 (pos 0)

-- `x == 0`
abbrev pub is_zero : Float → Bool
is_zero (finite s m e) = m == 0
is_zero (infinite s) = false
is_zero nan = false

-- `x < 0`
abbrev pub is_below_zero : Float → Bool
is_below_zero (finite s m e) = s && not (m == 0)
is_below_zero (infinite s) = s
is_below_zero nan = false

-- `x <= 0`
abbrev pub is_at_most_zero : Float → Bool
is_at_most_zero (finite s m e) = if m == 0 then true else s
is_at_most_zero (infinite s) = s
is_at_most_zero nan = false

-- `abs(x)`
abbrev pub float_abs : Float → Float
float_abs (finite s m e) = finite false m e
float_abs (infinite s) = infinite false
float_abs nan = nan

-- `x.is_integer()`
unfoldable pub is_integer : Float → Bool
is_integer (finite s m (pos e)) = true
is_integer (finite s m (negsuc e)) = m % 2 ^ suc e == 0
is_integer (infinite s) = false
is_integer nan = false

-- `int(x)` of an integral value
unfoldable pub to_int : Float → ℤ
to_int (finite s m (pos e)) = signed s (m * 2 ^ e)
to_int (finite s m (negsuc e)) = signed s (m / 2 ^ suc e)
to_int (infinite s) = pos 0
to_int nan = pos 0

-- `float(n)` of an integer that a double holds exactly
abbrev pub of_int : ℤ → Float
of_int (pos n) = finite false n (pos 0)
of_int (negsuc n) = finite true (suc n) (pos 0)

-- A `decimal.Decimal` without its sign: the coefficient times a power of ten.
pub record Decimal : Type 0 where
  pub coefficient : ℕ
  pub exponent : ℤ

-- What the interpreter's floating point gives.
pub record FloatOps : Type 0 where
  -- `round(x, n)`, `float(f"{x:.5g}")`
  pub round_to : Float → ℤ → Float
  pub round_significant : Float → Float
  -- `float(s)`, with `ValueError` as `none`
  pub parse : String → Option Float
  -- the shortest decimal text that reads back, without its sign: `Decimal(str(abs(x)))`
  pub shortest : Float → Decimal
  pub add : Float → Float → Float
  pub sub : Float → Float → Float
  pub mul : Float → Float → Float
  -- `f"{x:.3%}"`
  pub percent : Float → String

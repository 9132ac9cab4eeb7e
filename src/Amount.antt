-- ===== src/Amount.antt =====
-- src/async_hyperliquid/_internal/exchange.py: token amounts as integer units and as texts.
-- `Decimal(str(amount))` is the float's shortest decimal, which `FloatOps` gives without its sign.
pub mod Format
use Prim.Native.Char.{Char}
use async_hyperliquid.Prelude.{
  ℕ, suc, ◌*◌, ◌/◌, ◌%◌, ◌^◌, String, Bool, true, false, not, ◌||◌, if◌then◌else◌, string_eq, ◌==◌,
  nat_eq, ℤ, pos, negsuc, ◌+ℤ◌, int_eq,
}
use async_hyperliquid.Result.{value_error, Result, ok, ◌>>=◌, ◌>>◌, raise_if}
use async_hyperliquid.Float.{
  Float, finite, infinite, nan, signed, is_finite, is_at_most_zero, Decimal, FloatOps,
}
use async_hyperliquid.Text.{of_chars, char_eq, print, print_units}

-- `x.scaleb(decimals).to_integral_value(rounding=ROUND_DOWN)`, and whether that changed the value.
unfoldable pub scaled_units : Decimal → ℕ → ℕ
scaled_units x decimals = elim (x.exponent +ℤ pos decimals) [
  | pos e ↦ x.coefficient * 10 ^ e
  | negsuc e ↦ x.coefficient / 10 ^ suc e
]

unfoldable pub is_integral : Decimal → ℕ → Bool
is_integral x decimals = elim (x.exponent +ℤ pos decimals) [
  | pos e ↦ true
  | negsuc e ↦ x.coefficient % 10 ^ suc e == 0
]

-- The sign of a finite float.
abbrev pub is_signed : Float → Bool
is_signed (finite s m e) = s
is_signed (infinite s) = s
is_signed nan = false

module _ (ops : FloatOps) where
  -- The guards leave a positive amount, so the units are a natural number.
  unfoldable pub amount_in_units : Float → ℕ → Result ℕ
  unfolding scaled_units
  amount_in_units amount decimals = do
    raise_if (not (is_finite amount) || is_at_most_zero amount)
        (value_error "amount must be finite and greater than zero")
    let units = scaled_units (ops.shortest amount) decimals
    raise_if (units == 0) (value_error "amount is below the token precision")
    ok units

  unfoldable pub format_token_amount : Float → ℕ → Result String
  unfolding amount_in_units
  format_token_amount amount decimals = do
    units ← amount_in_units amount decimals
    ok (if decimals == 0 then of_chars (print units) else of_chars (print_units units decimals))

  unfoldable pub exact_signed_units : Float → ℕ → Result ℤ
  unfolding scaled_units is_integral
  exact_signed_units amount decimals = do
    raise_if (not (is_finite amount)) (value_error "amount must be finite")
    let x = ops.shortest amount
    raise_if (not (is_integral x decimals)) (value_error "amount exceeds USD precision")
    ok (signed (is_signed amount) (scaled_units x decimals))

-- ===== src/Examples/Numbers.antt =====
-- An order, a wire number and an amount at 1.5.
use async_hyperliquid.Order.Cloid.{from_int, cloid_value, from_int-read}
use async_hyperliquid.Prelude.{
  ℕ, ◌<◌, String, ◌≡◌, refl, Bool, true, false, some, arith, ℤ, pos, negsuc, ◌+ℤ◌,
}
use async_hyperliquid.Result.{ok}
use async_hyperliquid.Float.{finite, is_finite, float_le, is_at_most_zero}
use async_hyperliquid.Text.{chars, digit_char, print, print_padded, rstrip, print_units}
use async_hyperliquid.Amount.{amount_in_units, format_token_amount}
use async_hyperliquid.Amount.Format.{IsFloor, format_token_amount-read, amount_in_units-IsFloor}
use async_hyperliquid.Encoding.{units_e8, wire_float}
use async_hyperliquid.Encoding.Wire.{read_wire, wire_float-read}
use async_hyperliquid.Text.Decimals.{read_units}
use async_hyperliquid.Examples.{one_and_half, example_floats}

wire_float_of_example : wire_float example_floats one_and_half ≡ ok "1.5"
unfolding wire_float print digit_char print_padded float_le rstrip
wire_float_of_example = refl

wire_float-read_example :
    (s : Bool) × (m : ℕ) × (e : ℤ) × (one_and_half ≡ finite s m e)
    × (read_wire (chars "1.5") ≡ some (s, units_e8 m e))
wire_float-read_example = wire_float-read example_floats one_and_half "1.5" wire_float_of_example

format_token_amount_of_example : format_token_amount example_floats one_and_half 2 ≡ ok "1.5"
unfolding format_token_amount ◌+ℤ◌ print_units digit_char
format_token_amount_of_example = refl

format_token_amount-read_example :
    (units : ℕ) × (amount_in_units example_floats one_and_half 2 ≡ ok units)
    × (read_units 2 (chars "1.5") ≡ some units)
    × (0 < units)
format_token_amount-read_example =
    format_token_amount-read example_floats one_and_half 2 "1.5" format_token_amount_of_example

amount_in_units-IsFloor_example :
    (is_finite one_and_half ≡ true)
    × (is_at_most_zero one_and_half ≡ false)
    × (0 < 1)
    × IsFloor 1 15 (negsuc 0)
unfolding ◌+ℤ◌
amount_in_units-IsFloor_example =
    amount_in_units-IsFloor example_floats one_and_half 0 1 (unfold amount_in_units in refl)

from_int-read_example :
    (text : String) × (from_int (pos 255) ≡ ok text) × (cloid_value text ≡ some 255)
from_int-read_example = from_int-read 255 (omega arith)

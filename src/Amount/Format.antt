-- ===== src/Amount/Format.antt =====
-- What a formatted amount says, and which amounts are refused.
use mathlib.Core.Path.{subst}
use native.Mathlib.Nat.{div-add-mod', mod-lt, one-le-pow}
use async_hyperliquid.Prelude.{
  ℕ, zero, suc, ◌+◌, ◌*◌, ◌/◌, ◌^◌, ◌≤◌, ◌<◌, String, ◌≡◌, refl, true, false, some, arith,
  if◌then◌else◌, string_eq, ◌==◌, nat_eq, ℤ, pos, negsuc, ◌+ℤ◌, int_eq,
}
use async_hyperliquid.Result.{ok, >>=-eq-ok, ok_injective}
use async_hyperliquid.Float.{Float, is_finite, is_at_most_zero, Decimal, FloatOps}
use async_hyperliquid.Text.{chars, of_chars, chars-of_chars, char_eq, print, print_units}
use async_hyperliquid.Text.Decimals.{read_units, read_units-print_units, read_units-print}
use async_hyperliquid.Amount.{scaled_units, amount_in_units, format_token_amount}

amount_text : ℕ → ℕ → String
amount_text units decimals =
    if decimals == 0 then of_chars (print units) else of_chars (print_units units decimals)

suc-ne-zero : (n : ℕ) → (suc n == 0) ≡ false
suc-ne-zero n = ground arith

read-amount_text :
    (units decimals : ℕ) → read_units decimals (chars (amount_text units decimals)) ≡ some units
unfolding amount_text
read-amount_text units zero = rw (chars-of_chars (print units)) (read_units-print units)
read-amount_text units (suc places) =
    rw (suc-ne-zero places, chars-of_chars (print_units units (suc places)))
      (read_units-print_units units places)

-- The factors by which a shift of the decimal point multiplies and divides.
abbrev pub scale_up : ℤ → ℕ
scale_up (pos e) = 10 ^ e
scale_up (negsuc e) = 1

abbrev pub scale_down : ℤ → ℕ
scale_down (pos e) = 1
scale_down (negsuc e) = 10 ^ suc e

-- `n` is `c` shifted by `z` decimal places and rounded down.
abbrev pub IsFloor : ℕ → ℕ → ℤ → Type 0
IsFloor n c z = (n * scale_down z ≤ c * scale_up z) × (c * scale_up z < (n + 1) * scale_down z)

quotient_bounds : (c k : ℕ) → (c / 10 ^ k * 10 ^ k ≤ c) × (c < (c / 10 ^ k + 1) * 10 ^ k)
quotient_bounds c k = (
  omega (arith, div-add-mod' c (10 ^ k)),
  omega (arith, div-add-mod' c (10 ^ k), mod-lt c (one-le-pow k 10 (omega arith))),
)

scaled_units-IsFloor :
    (x : Decimal) (decimals : ℕ) (z : ℤ)
    → x.exponent +ℤ pos decimals ≡ z
    → IsFloor (scaled_units x decimals) x.coefficient z
unfolding scaled_units
scaled_units-IsFloor x decimals (pos k) e = rw (e, scaled_units) (omega arith, omega arith)
scaled_units-IsFloor x decimals (negsuc k) e =
    let (low, high) = quotient_bounds x.coefficient (suc k) in
    rw (e, scaled_units) (omega (arith, low), omega (arith, high))

module _ (ops : FloatOps) where
  amount_in_units-positive :
      (amount : Float) (decimals : ℕ) {units : ℕ}
      → amount_in_units ops amount decimals ≡ ok units
      → 0 < units
  unfolding amount_in_units
  amount_in_units-positive amount decimals h = ground arith

  -- A formatted amount reads back, at the token's decimals, as the number of units that
  -- `amount_in_units` gives for it, and that number is positive.
  pub format_token_amount-read :
      (amount : Float) (decimals : ℕ) (out : String)
      → format_token_amount ops amount decimals ≡ ok out
      → (units : ℕ) × (amount_in_units ops amount decimals ≡ ok units)
        × (read_units decimals (chars out) ≡ some units)
        × (0 < units)
  unfolding format_token_amount amount_text
  format_token_amount-read amount decimals out h =
      let (units, got, shown) =
        >>=-eq-ok (amount_in_units ops amount decimals) (λ u. ok (amount_text u decimals)) h in
      (
        units,
        got,
        subst (λ t. read_units decimals (chars t) ≡ some units) (ok_injective shown)
            (read-amount_text units decimals),
        amount_in_units-positive amount decimals got,
      )

  -- The units of an accepted amount with `decimals` places are its shortest decimal, shifted by that many
  -- places and rounded down, and they are positive; the amount is finite and above zero.
  pub amount_in_units-IsFloor :
      (amount : Float) (decimals : ℕ) (units : ℕ)
      → amount_in_units ops amount decimals ≡ ok units
      → (is_finite amount ≡ true)
        × (is_at_most_zero amount ≡ false)
        × (0 < units)
        × IsFloor units
            (ops.shortest amount).coefficient
            ((ops.shortest amount).exponent +ℤ pos decimals)
  unfolding amount_in_units
  amount_in_units-IsFloor amount decimals units h =
      let u : units ≡ scaled_units (ops.shortest amount) decimals = ground arith in
      let floor = scaled_units-IsFloor (ops.shortest amount) decimals _ refl in
      (ground arith, ground arith, amount_in_units-positive amount decimals h, rw u floor)

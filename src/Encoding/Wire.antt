-- ===== src/Encoding/Wire.antt =====
-- `wire_float` writes the eight decimals of a number without trailing zeros, and nothing else.
use Prim.Native.Char.{Char}
use mathlib.Core.Bool.{false≢true}
use mathlib.Core.Path.{subst}
use async_hyperliquid.Prelude.{
  ℕ, zero, suc, ◌/◌, ◌%◌, ◌^◌, ◌<◌, String, ◌≡◌, refl, sym, ap, ◌∙◌, inl, inr, Bool, true, false,
  Option, none, some, [], ◌∷◌, ◌++◌, arith, ltb, if◌then◌else◌, Bool-cases, string_eq, ◌==◌, nat_eq,
  is_empty, ℤ, int_eq,
}
use async_hyperliquid.Result.{Error, Result, ok, ◌>>◌, raise_if, ok_injective}
use async_hyperliquid.Float.{Float, finite, infinite, nan, FloatOps}
use async_hyperliquid.Text.{
  Chars, chars, of_chars, chars-of_chars, char_eq, digit_char, print_onto, print, print_padded,
  rstrip, print_units,
}
use async_hyperliquid.Text.Digits.{digit?, IsDigits, print-IsDigits}
use async_hyperliquid.Text.Decimals.{read_units, digit-not_point, read_units-print_units}
use async_hyperliquid.Text.Strip.{rstrip-append_other}
use async_hyperliquid.Encoding.{units_e8, with_sign, or_zero, is_far, wire_float}

-- The text of a wire number: an optional minus sign and a decimal.
unfoldable pub read_wire : Chars → Option (Bool × ℕ)
read_wire [] = none
read_wire (c ∷ cs) =
    if c == "-"
    then elim (read_units 8 cs) [ none ↦ none | some n ↦ some (true, n) ]
    else elim (read_units 8 (c ∷ cs)) [ none ↦ none | some n ↦ some (false, n) ]

abbrev StartsWithDigit : Chars → Type 0
StartsWithDigit [] = ⊥
StartsWithDigit (c ∷ cs) = (d : ℕ) × (digit? c ≡ some d)

StartsWithDigit-append : (s t : Chars) → StartsWithDigit s → StartsWithDigit (s ++ t)
StartsWithDigit-append (c ∷ cs) t h = h
StartsWithDigit-append [] t h = absurd h

is_empty-print_onto :
    (fuel n : ℕ) (out : Chars) → n < fuel → is_empty (print_onto fuel n out) ≡ false
unfolding print_onto
is_empty-print_onto zero n out h = elim h [ ]
is_empty-print_onto (suc fuel) n out h = elim (Bool-cases (ltb n 10)) [
  | inl small ↦ rw small refl
  | inr large ↦
      rw large (is_empty-print_onto fuel (n / 10) (digit_char (n % 10) ∷ out) (ground arith))
]

digits_start : (cs : Chars) → IsDigits cs → is_empty cs ≡ false → StartsWithDigit cs
digits_start [] h e = absurd (false≢true (sym e))
digits_start (c ∷ cs) ((d, _, at), _) e = (d, at)

print-StartsWithDigit : (n : ℕ) → StartsWithDigit (print n)
unfolding print
print-StartsWithDigit n =
    digits_start (print n) (print-IsDigits n) (is_empty-print_onto (suc n) n [] (omega arith))

rstrip-StartsWithDigit : (cs : Chars) → StartsWithDigit cs → StartsWithDigit (rstrip "." cs)
rstrip-StartsWithDigit (c ∷ cs) (d, at) =
    rw (rstrip-append_other "." [] c cs (digit-not_point c d at)) (d, at)
rstrip-StartsWithDigit [] h = absurd h

print_units-StartsWithDigit : (units places : ℕ) → StartsWithDigit (print_units units places)
unfolding print_units
print_units-StartsWithDigit units places =
    let fraction = print_padded places (units % 10 ^ places) in
    let whole = print (units / 10 ^ places) in
    rw (rstrip-append_other "0" whole "." fraction refl) (
      rstrip-StartsWithDigit (whole ++ ("." ∷ rstrip "0" fraction)) (
        StartsWithDigit-append whole ("." ∷ rstrip "0" fraction)
          (print-StartsWithDigit (units / 10 ^ places))))

or_zero_id : (cs : Chars) → StartsWithDigit cs → or_zero cs ≡ cs
or_zero_id (c ∷ cs) h = refl
or_zero_id [] h = absurd h

digit-not_minus : (c : Char) (d : ℕ) → digit? c ≡ some d → (c == "-") ≡ false
digit-not_minus c d h = ground arith

read_wire-unsigned :
    (cs : Chars) (n : ℕ)
    → StartsWithDigit cs
    → read_units 8 cs ≡ some n
    → read_wire cs ≡ some (false, n)
unfolding read_wire
read_wire-unsigned (c ∷ cs) n (d, at) e = rw (digit-not_minus c d at, e) refl
read_wire-unsigned [] n h e = absurd h

abbrev wire_chars : Bool → ℕ → Chars
wire_chars s n = or_zero (
    rstrip "."
      (rstrip "0" (with_sign s (print (n / 10 ^ 8) ++ ("." ∷ print_padded 8 (n % 10 ^ 8))))))

read-wire_chars : (s : Bool) (n : ℕ) → read_wire (wire_chars s n) ≡ some (s, n)
read-wire_chars false n =
    let cs = print_units n 8 in
    let same : wire_chars false n ≡ cs =
      unfold print_units in or_zero_id cs (print_units-StartsWithDigit n 8) in
    ap read_wire same
    ∙ read_wire-unsigned cs n (print_units-StartsWithDigit n 8) (read_units-print_units n 7)
read-wire_chars true n =
    let body = print (n / 10 ^ 8) ++ ("." ∷ print_padded 8 (n % 10 ^ 8)) in
    rw
      (
        rstrip-append_other "0" [] "-" body refl,
        rstrip-append_other "." [] "-" (rstrip "0" body) refl,
      )
      (unfold read_wire print_units in rw (read_units-print_units n 7) refl)

accepted :
    (far : Bool) (e : Error) (r : Result String) {out : String}
    → (raise_if far e >> r) ≡ ok out
    → r ≡ ok out
accepted false e r h = h
accepted true e r h = cc

module _ (ops : FloatOps) where
  -- A finite number that is accepted is written as a decimal that reads back as the number's sign
  -- and its magnitude rounded to 10 ^ -8, halves to even; what is not finite is refused.
  pub wire_float-read :
      (x : Float) (out : String)
      → wire_float ops x ≡ ok out
      → (s : Bool) × (m : ℕ) × (e : ℤ) × (x ≡ finite s m e)
        × (read_wire (chars out) ≡ some (s, units_e8 m e))
  unfolding wire_float
  wire_float-read (finite s m e) out h =
      let cs = wire_chars s (units_e8 m e) in
      let shown : of_chars cs ≡ out = ok_injective (accepted (is_far ops (ops.parse _) _) _ _ h) in
      (
        s,
        m,
        e,
        refl,
        subst (λ t. read_wire (chars t) ≡ some (s, units_e8 m e)) shown
            (rw (chars-of_chars cs) (read-wire_chars s (units_e8 m e))),
      )
  wire_float-read (infinite s) out h = cc
  wire_float-read nan out h = cc

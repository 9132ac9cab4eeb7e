-- ===== src/Text.antt =====
-- Python's text operations that the encoders use: decimal printing, zero padding, `rstrip`,
-- `partition` and prefixes, over the characters of a text.
pub mod Digits
pub mod Decimals
pub mod Strip
use Prim.Native.Char.{Char, code}
use text.Mathlib.TextEquality.{Char-path}
use async_hyperliquid.Prelude.{
  ℕ, zero, suc, ◌-◌, ◌/◌, ◌%◌, ◌^◌, String, ◌≡◌, refl, ap, ◌↔◌, Bool, true, false, ◌&&◌, Option,
  none, some, List, [], ◌∷◌, ◌++◌, ltb, nat_beq, if◌then◌else◌, nat_beq_iff, Eq, string_eq, ◌==◌,
  nat_eq, length, is_empty, int_eq,
}

abbrev pub Chars : Type 0
Chars = List Char

-- A text as its characters, and back.
abbrev pub chars : String → Chars
chars String.[] = []
chars (String.◌∷◌ c s) = c ∷ chars s

abbrev pub of_chars : Chars → String
of_chars [] = String.[]
of_chars (c ∷ cs) = String.◌∷◌ c (of_chars cs)

pub chars-of_chars : (cs : Chars) → chars (of_chars cs) ≡ cs
chars-of_chars [] = refl
chars-of_chars (c ∷ cs) = ap (λ (t : Chars). c ∷ t) (chars-of_chars cs)

abbrev pub char_beq : Char → Char → Bool
char_beq c d = nat_beq (code c) (code d)

pub char_beq_iff : (c d : Char) → (char_beq c d ≡ true) ↔ (c ≡ d)
char_beq_iff c d = (
  λ h. Char-path c d ((nat_beq_iff (code c) (code d)).0 h),
  λ h. (nat_beq_iff (code c) (code d)).1 (ap (λ (x : Char). code x) h),
)

instance abbrev pub char_eq : Eq Char
char_eq = record { is_same = char_beq; is_same_iff = char_beq_iff }

unfoldable pub digit_char : ℕ → Char
digit_char zero = "0"
digit_char (suc zero) = "1"
digit_char (suc (suc zero)) = "2"
digit_char (suc (suc (suc zero))) = "3"
digit_char (suc (suc (suc (suc zero)))) = "4"
digit_char (suc (suc (suc (suc (suc zero))))) = "5"
digit_char (suc (suc (suc (suc (suc (suc zero)))))) = "6"
digit_char (suc (suc (suc (suc (suc (suc (suc zero))))))) = "7"
digit_char (suc (suc (suc (suc (suc (suc (suc (suc zero)))))))) = "8"
digit_char _ = "9"

-- `str(n)` in front of `out`: a digit a round, and `n + 1` rounds are enough.
unfoldable pub print_onto : ℕ → ℕ → Chars → Chars
print_onto zero n out = out
print_onto (suc fuel) n out =
    let more = print_onto fuel (n / 10) (digit_char (n % 10) ∷ out) in
    if ltb n 10 then digit_char n ∷ out else more

unfoldable pub print : ℕ → Chars
unfolding print_onto
print n = print_onto (suc n) n []

abbrev pub zeros : ℕ → Chars
zeros zero = []
zeros (suc n) = "0" ∷ zeros n

-- `f"{n:0{width}d}"`
unfoldable pub print_padded : ℕ → ℕ → Chars
unfolding print
print_padded width n = zeros (width - length (print n)) ++ print n

-- `text.rstrip(c)`
unfoldable pub rstrip : Char → Chars → Chars
rstrip c [] = []
rstrip c (x ∷ xs) = let rest = rstrip c xs in if is_empty rest && (x == c) then [] else x ∷ rest

-- `f"{units // 10**decimals}.{units % 10**decimals:0{decimals}d}".rstrip("0").rstrip(".")`
unfoldable pub print_units : ℕ → ℕ → Chars
unfolding print print_padded rstrip
print_units units decimals = rstrip "." (
    rstrip "0"
      (print (units / 10 ^ decimals) ++ ("." ∷ print_padded decimals (units % 10 ^ decimals))))

-- `text.startswith(c)` and `c in text`
abbrev pub starts_with_char : Char → Chars → Bool
starts_with_char c [] = false
starts_with_char c (x ∷ xs) = x == c

-- `text.partition(":")[0] if ":" in text else ""`
abbrev pub before : Char → Chars → Option Chars
before c [] = none
before c (x ∷ xs) = elim (before c xs) [
  | none ↦ if x == c then some [] else none
  | some p ↦ if x == c then some [] else some (x ∷ p)
]

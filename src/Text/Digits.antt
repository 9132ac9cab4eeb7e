-- ===== src/Text/Digits.antt =====
-- Reading decimal digits back: printed numbers read as themselves, with any zeros in front.
use Prim.Native.Char.{Char, code}
use native.Mathlib.Nat.{pow-suc}
use async_hyperliquid.Prelude.{
  ℕ, zero, suc, ◌+◌, ◌-◌, ◌*◌, ◌/◌, ◌%◌, ◌^◌, ◌≤◌, ◌<◌, ◌≡◌, refl, ap, ◌∙◌, inl, inr, ◌&&◌, Option,
  none, some, [], ◌∷◌, arith, ltb, leb, if◌then◌else◌, ltb→lt, lt→ltb, Bool-cases, length, All,
}
use async_hyperliquid.Text.{Chars, digit_char, print_onto, print}

-- The value of a digit.
abbrev pub digit? : Char → Option ℕ
digit? c = if leb 48 (code c) && leb (code c) 57 then some (code c - 48) else none

-- A run of digits after the number `n`.
unfoldable pub read_from : ℕ → Chars → Option ℕ
read_from n [] = some n
read_from n (c ∷ cs) = elim (digit? c) [ none ↦ none | some d ↦ read_from (n * 10 + d) cs ]

pub digit-digit_char : (d : ℕ) → d < 10 → digit? (digit_char d) ≡ some d
unfolding digit_char
digit-digit_char zero h = refl
digit-digit_char (suc zero) h = refl
digit-digit_char (suc (suc zero)) h = refl
digit-digit_char (suc (suc (suc zero))) h = refl
digit-digit_char (suc (suc (suc (suc zero)))) h = refl
digit-digit_char (suc (suc (suc (suc (suc zero))))) h = refl
digit-digit_char (suc (suc (suc (suc (suc (suc zero)))))) h = refl
digit-digit_char (suc (suc (suc (suc (suc (suc (suc zero))))))) h = refl
digit-digit_char (suc (suc (suc (suc (suc (suc (suc (suc zero)))))))) h = refl
digit-digit_char (suc (suc (suc (suc (suc (suc (suc (suc (suc zero))))))))) h = refl
digit-digit_char (suc (suc (suc (suc (suc (suc (suc (suc (suc (suc n)))))))))) h =
    absurd (omega arith)

abbrev pub IsDigits : Chars → Type 0
IsDigits = All (λ c. (d : ℕ) × (d < 10) × (digit? c ≡ some d))

pub print_onto-IsDigits :
    (fuel n : ℕ) (out : Chars) → IsDigits out → IsDigits (print_onto fuel n out)
unfolding print_onto
print_onto-IsDigits zero n out h = h
print_onto-IsDigits (suc fuel) n out h = elim (Bool-cases (ltb n 10)) [
  | inl small ↦ rw small ((n, ltb→lt n 10 small, digit-digit_char n (ltb→lt n 10 small)), h)
  | inr large ↦ rw large (
      print_onto-IsDigits fuel (n / 10) (digit_char (n % 10) ∷ out)
        ((n % 10, omega arith, digit-digit_char (n % 10) (omega arith)), h))
]

pub read_from-digit :
    (a d : ℕ) (cs : Chars) → d < 10 → read_from a (digit_char d ∷ cs) ≡ read_from (a * 10 + d) cs
unfolding read_from
read_from-digit a d cs h = rw (digit-digit_char d h, read_from) refl

-- Printing in front of a text that reads on.
pub print_onto-read :
    (fuel n : ℕ) (out : Chars) → n < fuel → read_from 0 (print_onto fuel n out) ≡ read_from n out
unfolding print_onto
print_onto-read zero n out h = elim h [ ]
print_onto-read (suc fuel) n out h = elim (Bool-cases (ltb n 10)) [
  | inl small ↦
      rw small (
        read_from-digit 0 n out (ltb→lt n 10 small) ∙ ap (λ (k : ℕ). read_from k out) (omega arith))
  | inr large ↦ rw large (
      print_onto-read fuel (n / 10) (digit_char (n % 10) ∷ out) (ground arith)
      ∙ read_from-digit (n / 10) (n % 10) out (omega arith)
      ∙ ap (λ (k : ℕ). read_from k out) (omega arith))
]

-- The number that a run of digits stands for.
unfoldable pub value : Chars → ℕ
value [] = 0
value (c ∷ cs) = elim (digit? c) [ none ↦ 0 | some d ↦ d * 10 ^ length cs + value cs ]

-- Moving a digit from the number in front into the run.
pub shift_digit : (n d l v : ℕ) → (n * 10 + d) * 10 ^ l + v ≡ n * 10 ^ suc l + (d * 10 ^ l + v)
shift_digit n d l v = rw (pow-suc 10 l) (omega arith)

pub read_from-value :
    (n : ℕ) (cs : Chars) → IsDigits cs → read_from n cs ≡ some (n * 10 ^ length cs + value cs)
unfolding read_from value
read_from-value n [] h = ap (λ (k : ℕ). some k) (omega arith)
read_from-value n (c ∷ cs) ((d, small, e), rest) =
    rw (e, read_from, value)
      (read_from-value (n * 10 + d) cs rest
        ∙ ap (λ (k : ℕ). some k) (shift_digit n d (length cs) (value cs)))

pub zero_front : (v l : ℕ) → 0 * 10 ^ l + v ≡ v
zero_front v l = omega arith

pub value-print : (n : ℕ) → value (print n) ≡ n
unfolding print
value-print n =
    let read : read_from n [] ≡ some n = unfold read_from in refl in
    let same : value (print_onto (suc n) n []) ≡ n = cc (
      read_from-value 0 (print_onto (suc n) n []) (print_onto-IsDigits (suc n) n [] tt),
      print_onto-read (suc n) n [] (omega arith),
      read,
      zero_front (value (print_onto (suc n) n [])) (length (print_onto (suc n) n [])),
    ) in
    same

pub print-IsDigits : (n : ℕ) → IsDigits (print n)
unfolding print
print-IsDigits n = print_onto-IsDigits (suc n) n [] tt

-- A number below 10 ^ w takes at most w digits.
pub length-print_onto-le :
    (fuel n w : ℕ) (out : Chars)
    → n < fuel
    → n < 10 ^ suc w
    → length (print_onto fuel n out) ≤ suc w + length out
unfolding print_onto
length-print_onto-le zero n w out h k = elim h [ ]
length-print_onto-le (suc fuel) n zero out h k =
    rw (lt→ltb n 10 (omega (arith, pow-suc 10 0))) (omega arith)
length-print_onto-le (suc fuel) n (suc w) out h k = elim (Bool-cases (ltb n 10)) [
  | inl small ↦ rw small (omega arith)
  | inr large ↦ rw large (
      omega (
        arith,
        length-print_onto-le fuel (n / 10) w (digit_char (n % 10) ∷ out) (ground arith)
            (omega (arith, pow-suc 10 (suc w))),
      ))
]

-- ===== src/Text/Decimals.antt =====
-- A decimal text reads back as its number of units, whatever zeros were stripped from it.
use Prim.Native.Char.{Char}
use mathlib.Core.List.{append-nil}
use native.Mathlib.Nat.{pow-suc, div-add-mod', mod-lt, one-le-pow}
use async_hyperliquid.Prelude.{
  ℕ, zero, suc, ◌+◌, ◌-◌, ◌*◌, ◌/◌, ◌%◌, ◌^◌, ◌≤◌, ◌<◌, ◌≡◌, refl, sym, ap, ◌∙◌, inl, inr, Bool,
  true, false, ◌&&◌, Option, none, some, [], ◌∷◌, ◌++◌, arith, if◌then◌else◌, Bool-cases, string_eq,
  ◌==◌, nat_eq, length, is_empty, length-append, All-append, int_eq,
}
use async_hyperliquid.Text.{Chars, char_eq, print, zeros, print_padded, rstrip, print_units}
use async_hyperliquid.Text.Digits.{
  digit?, IsDigits, value, shift_digit, zero_front, value-print, print-IsDigits,
  length-print_onto-le,
}
use async_hyperliquid.Text.Strip.{rstrip-append_other, Differ, rstrip-last, rstrip-inner}

-- The digits behind the point, at most `places` of them; `n` is what stands in front.
unfoldable pub read_fraction : ℕ → ℕ → Chars → Option ℕ
read_fraction places n [] = some (n * 10 ^ places)
read_fraction zero n (c ∷ cs) = none
read_fraction (suc places) n (c ∷ cs) = elim (digit? c) [
  | none ↦ none
  | some d ↦ read_fraction places (n * 10 + d) cs
]

unfoldable pub read_whole : ℕ → ℕ → Chars → Option ℕ
read_whole places n [] = some (n * 10 ^ places)
read_whole places n (c ∷ cs) =
    let next : Option ℕ = elim (digit? c) [
      | none ↦ none
      | some d ↦ read_whole places (n * 10 + d) cs
    ] in
    if c == "." then read_fraction places n cs else next

-- A decimal text as a number of units of 10 ^ -places.
unfoldable pub read_units : ℕ → Chars → Option ℕ
unfolding read_fraction read_whole
read_units places cs = read_whole places 0 cs

pub digit-not_point : (c : Char) (d : ℕ) → digit? c ≡ some d → (c == ".") ≡ false
digit-not_point c d h = ground arith

IsDigits-Differ : (cs : Chars) → IsDigits cs → Differ "." cs
IsDigits-Differ [] h = tt
IsDigits-Differ (c ∷ cs) ((d, _, e), rest) = (digit-not_point c d e, IsDigits-Differ cs rest)

read_whole-digits :
    (places n : ℕ) (cs rest : Chars)
    → IsDigits cs
    → read_whole places n (cs ++ rest) ≡ read_whole places (n * 10 ^ length cs + value cs) rest
unfolding read_whole value
read_whole-digits places n [] rest h = ap (λ (k : ℕ). read_whole places k rest) (omega arith)
read_whole-digits places n (c ∷ cs) rest ((d, _, e), h) =
    rw (digit-not_point c d e, e, read_whole, value)
      (read_whole-digits places (n * 10 + d) cs rest h
        ∙ ap (λ (k : ℕ). read_whole places k rest) (shift_digit n d (length cs) (value cs)))

read_fraction-digits :
    (n : ℕ) (cs : Chars)
    → IsDigits cs
    → read_fraction (length cs) n cs ≡ some (n * 10 ^ length cs + value cs)
unfolding read_fraction value
read_fraction-digits n [] h = ap (λ (k : ℕ). some k) (omega arith)
read_fraction-digits n (c ∷ cs) ((d, _, e), h) =
    rw (e, read_fraction, value)
      (read_fraction-digits (n * 10 + d) cs h
        ∙ ap (λ (k : ℕ). some k) (shift_digit n d (length cs) (value cs)))

All-rstrip_head :
    (b : Bool) (c : Char) (r : Chars) → IsDigits (c ∷ r) → IsDigits (if b then [] else c ∷ r)
All-rstrip_head true c r h = tt
All-rstrip_head false c r h = h

rstrip-IsDigits : (cs : Chars) → IsDigits cs → IsDigits (rstrip "0" cs)
unfolding rstrip
rstrip-IsDigits [] h = tt
rstrip-IsDigits (c ∷ cs) (d, h) =
    All-rstrip_head (is_empty (rstrip "0" cs) && (c == "0")) c (rstrip "0" cs)
      (d, rstrip-IsDigits cs h)

zero_digit : (c : Char) (d : ℕ) → digit? c ≡ some d → (c == "0") ≡ true → d ≡ 0
zero_digit c d e h = ground arith

-- The last digit of a fraction may go if it is a zero.
drop_zero : (places n : ℕ) → (n * 10 + 0) * 10 ^ places ≡ n * 10 ^ suc places
drop_zero places n = rw (pow-suc 10 places) (omega arith)

read_fraction_step :
    (places n : ℕ) (c : Char) (d : ℕ) (r : Chars) (out : Option ℕ)
    → digit? c ≡ some d
    → read_fraction places (n * 10 + d) r ≡ out
    → read_fraction (suc places) n (if is_empty r && (c == "0") then [] else c ∷ r) ≡ out
unfolding read_fraction
read_fraction_step places n c d [] out e h = elim (Bool-cases (c == "0")) [
  | inl zero_ ↦ rw zero_ (
      ap (λ (k : ℕ). some k)
        (sym (drop_zero places n)
          ∙ ap (λ (k : ℕ). (n * 10 + k) * 10 ^ places) (sym (zero_digit c d e zero_)))
      ∙ h)
  | inr other_ ↦ rw (other_, e, read_fraction) h
]
read_fraction_step places n c d (x ∷ r) out e h = rw (e, read_fraction) h

read_fraction-rstrip :
    (n : ℕ) (cs : Chars)
    → IsDigits cs
    → read_fraction (length cs) n (rstrip "0" cs) ≡ read_fraction (length cs) n cs
unfolding rstrip
read_fraction-rstrip n [] h = refl
read_fraction-rstrip n (c ∷ cs) ((d, _, e), h) =
    read_fraction_step (length cs) n c d (rstrip "0" cs)
      (read_fraction (suc (length cs)) n (c ∷ cs)) e
      (read_fraction-rstrip (n * 10 + d) cs h ∙ unfold read_fraction in rw (e, read_fraction) refl)

value-zeros : (k : ℕ) (cs : Chars) → value (zeros k ++ cs) ≡ value cs
unfolding value
value-zeros zero cs = refl
value-zeros (suc k) cs = omega (arith, value-zeros k cs)

zeros-IsDigits : (k : ℕ) → IsDigits (zeros k)
zeros-IsDigits zero = tt
zeros-IsDigits (suc k) = ((0, omega arith, refl), zeros-IsDigits k)

length-zeros : (k : ℕ) → length (zeros k) ≡ k
length-zeros zero = refl
length-zeros (suc k) = ap suc (length-zeros k)

module _ (places n : ℕ) (below : n < 10 ^ suc places) where
  padded-IsDigits : IsDigits (print_padded (suc places) n)
  unfolding print_padded
  padded-IsDigits =
      All-append (λ c. (d : ℕ) × (d < 10) × (digit? c ≡ some d))
        (zeros (suc places - length (print n))) (print n)
        (zeros-IsDigits (suc places - length (print n))) (print-IsDigits n)

  length-print-le : length (print n) ≤ suc places
  unfolding print
  length-print-le = omega (arith, length-print_onto-le (suc n) n places [] (omega arith) below)

  length-padded : length (print_padded (suc places) n) ≡ suc places
  unfolding print_padded
  length-padded = omega (
    arith,
    length-append (zeros (suc places - length (print n))) (print n),
    length-zeros (suc places - length (print n)),
    length-print-le,
  )

  value-padded : value (print_padded (suc places) n) ≡ n
  unfolding print_padded
  value-padded = value-zeros (suc places - length (print n)) (print n) ∙ value-print n

read_stripped :
    (places : ℕ) (whole fraction : Chars)
    → IsDigits whole
    → IsDigits fraction
    → read_units places (rstrip "." (whole ++ ("." ∷ fraction)))
      ≡ read_fraction places (value whole) fraction
unfolding read_units read_whole read_fraction
read_stripped places whole [] w f = rw (rstrip-last "." whole (IsDigits-Differ whole w)) (
    ap (λ (t : Chars). read_whole places 0 t) (sym (append-nil whole))
    ∙ read_whole-digits places 0 whole [] w
    ∙ ap (λ (k : ℕ). some (k * 10 ^ places)) (zero_front (value whole) (length whole)))
read_stripped places whole (c ∷ cs) w f =
    rw (rstrip-inner "." whole c cs (IsDigits-Differ (c ∷ cs) f)) (
      read_whole-digits places 0 whole ("." ∷ (c ∷ cs)) w
      ∙ ap (λ (k : ℕ). read_fraction places k (c ∷ cs)) (zero_front (value whole) (length whole)))

read_padded :
    (places whole n : ℕ)
    → n < 10 ^ suc places
    → read_fraction (suc places) whole (rstrip "0" (print_padded (suc places) n))
      ≡ some (whole * 10 ^ suc places + n)
read_padded places whole n below =
    let text = print_padded (suc places) n in
    let digits = padded-IsDigits places n below in
    let same = length-padded places n below in
    ap (λ (k : ℕ). read_fraction k whole (rstrip "0" text)) (sym same)
    ∙ read_fraction-rstrip whole text digits
    ∙ read_fraction-digits whole text digits
    ∙ ap (λ (k : ℕ). some (whole * 10 ^ k + value text)) same
    ∙ ap (λ (k : ℕ). some (whole * 10 ^ suc places + k)) (value-padded places n below)

-- The text of a number of units at one place or more reads back as that number.
pub read_units-print_units :
    (units places : ℕ) → read_units (suc places) (print_units units (suc places)) ≡ some units
unfolding print_units
read_units-print_units units places =
    let scale = 10 ^ suc places in
    let below : units % scale < scale = mod-lt units (one-le-pow (suc places) 10 (omega arith)) in
    let fraction = print_padded (suc places) (units % scale) in
    rw (rstrip-append_other "0" (print (units / scale)) "." fraction refl) (
      read_stripped (suc places) (print (units / scale)) (rstrip "0" fraction)
        (print-IsDigits (units / scale)) (rstrip-IsDigits fraction (padded-IsDigits places _ below))
      ∙ read_padded places (value (print (units / scale))) (units % scale) below
      ∙ ap (λ (k : ℕ). some (k * scale + units % scale)) (value-print (units / scale))
      ∙ ap (λ (k : ℕ). some k) (div-add-mod' units scale))

-- Without places a number's own digits read back.
pub read_units-print : (n : ℕ) → read_units 0 (print n) ≡ some n
unfolding read_units read_whole
read_units-print n =
    ap (λ (t : Chars). read_whole 0 0 t) (sym (append-nil (print n)))
    ∙ read_whole-digits 0 0 (print n) [] (print-IsDigits n)
    ∙ ap (λ (k : ℕ). some (k * 10 ^ 0))
        (zero_front (value (print n)) (length (print n)) ∙ value-print n)
    ∙ ap (λ (k : ℕ). some k) (omega arith)

-- ===== src/Order/Cloid.antt =====
-- src/async_hyperliquid/types/common.py: client order ids, `0x` and 32 hexadecimal digits.
use Prim.Native.Char.{Char, code}
use native.Mathlib.Nat.{pow-suc}
use async_hyperliquid.Prelude.{
  ℕ, zero, suc, ◌+◌, ◌-◌, ◌*◌, ◌/◌, ◌%◌, ◌^◌, ◌<◌, String, ◌≡◌, refl, ap, ◌∙◌, Bool, true, false,
  ◌&&◌, Option, none, some, [], ◌∷◌, arith, ltb, leb, if◌then◌else◌, lt→ltb, string_eq, ◌==◌,
  nat_eq, length, get_elem?, all, ℤ, pos, negsuc, int_eq,
}
use async_hyperliquid.Result.{value_error, Result, err, ok}
use async_hyperliquid.Text.{Chars, chars, of_chars, chars-of_chars, char_eq}

-- The value of a character of `[0-9a-fA-F]`.
abbrev pub hex? : Char → Option ℕ
hex? c =
    if leb 48 (code c) && leb (code c) 57
    then some (code c - 48)
    else if leb 97 (code c) && leb (code c) 102
    then some (code c - 87)
    else if leb 65 (code c) && leb (code c) 70
    then some (code c - 55)
    else none

abbrev pub is_hex : Char → Bool
is_hex c = elim (hex? c) [ none ↦ false | some d ↦ true ]

-- `fullmatch(r"0x[0-9a-fA-F]{32}", value)`
abbrev pub is_cloid : Chars → Bool
is_cloid (z ∷ (x ∷ digits)) =
    (z == "0") && ((x == "x") && ((length digits == 32) && all is_hex digits))
is_cloid _ = false

-- `Cloid.__new__`
unfoldable pub new_cloid : String → Result String
new_cloid text =
    if is_cloid (chars text)
    then ok text
    else err (value_error "client order ID must be 0x plus 32 hex characters")

unfoldable pub hex_char : ℕ → Char
hex_char n = elim (get_elem? (chars "0123456789abcdef") n) [ none ↦ "0" | some c ↦ c ]

-- The last `width` hexadecimal digits of a number, in front of `out`.
unfoldable pub hex_onto : ℕ → ℕ → Chars → Chars
hex_onto zero n out = out
hex_onto (suc width) n out = hex_onto width (n / 16) (hex_char (n % 16) ∷ out)

-- `from_int`; `f"{value:#034x}"` of a number below `1 << 128` is `0x` and 32 digits.
unfoldable pub from_int : ℤ → Result String
unfolding new_cloid
from_int (negsuc n) = err (value_error "client order ID integer must fit in 16 bytes")
from_int (pos n) =
    if ltb n (2 ^ 128)
    then new_cloid (of_chars ("0" ∷ ("x" ∷ hex_onto 32 n [])))
    else err (value_error "client order ID integer must fit in 16 bytes")

-- A run of hexadecimal digits after the number `n`.
abbrev pub read_hex : ℕ → Chars → Option ℕ
read_hex n [] = some n
read_hex n (c ∷ cs) = elim (hex? c) [ none ↦ none | some d ↦ read_hex (n * 16 + d) cs ]

-- The number that a client order id stands for.
pub cloid_value : String → Option ℕ
cloid_value text = elim (chars text) [ (z ∷ (x ∷ digits)) ↦ read_hex 0 digits | _ ↦ none ]

hex-hex_char : (d : ℕ) → d < 16 → hex? (hex_char d) ≡ some d
unfolding hex_char
hex-hex_char zero h = refl
hex-hex_char (suc zero) h = refl
hex-hex_char (suc (suc zero)) h = refl
hex-hex_char (suc (suc (suc zero))) h = refl
hex-hex_char (suc (suc (suc (suc zero)))) h = refl
hex-hex_char (suc (suc (suc (suc (suc zero))))) h = refl
hex-hex_char (suc (suc (suc (suc (suc (suc zero)))))) h = refl
hex-hex_char (suc (suc (suc (suc (suc (suc (suc zero))))))) h = refl
hex-hex_char (suc (suc (suc (suc (suc (suc (suc (suc zero)))))))) h = refl
hex-hex_char (suc (suc (suc (suc (suc (suc (suc (suc (suc zero))))))))) h = refl
hex-hex_char (suc (suc (suc (suc (suc (suc (suc (suc (suc (suc zero)))))))))) h = refl
hex-hex_char (suc (suc (suc (suc (suc (suc (suc (suc (suc (suc (suc zero))))))))))) h = refl
hex-hex_char (suc (suc (suc (suc (suc (suc (suc (suc (suc (suc (suc (suc zero)))))))))))) h = refl
hex-hex_char (suc (suc (suc (suc (suc (suc (suc (suc (suc (suc (suc (suc (suc zero))))))))))))) h =
    refl
hex-hex_char
      (suc (suc (suc (suc (suc (suc (suc (suc (suc (suc (suc (suc (suc (suc zero)))))))))))))) h =
    refl
hex-hex_char
      (suc (suc (suc (suc (suc (suc (suc (suc (suc (suc (suc (suc (suc (suc (suc zero)))))))))))))))
      h =
    refl
hex-hex_char
      (suc
        (suc (suc (suc (suc (suc (suc (suc (suc (suc (suc (suc (suc (suc (suc (suc n))))))))))))))))
      h =
    absurd (omega arith)

is_hex-hex_char : (d : ℕ) → d < 16 → is_hex (hex_char d) ≡ true
is_hex-hex_char d h =
    ap (λ (o : Option ℕ). elim o [ none ↦ false | some k ↦ true ]) (hex-hex_char d h)

hex_onto-read :
    (width n : ℕ) (out : Chars)
    → n < 16 ^ width
    → read_hex 0 (hex_onto width n out) ≡ read_hex n out
unfolding hex_onto
hex_onto-read zero n out h = ap (λ (k : ℕ). read_hex k out) (omega arith)
hex_onto-read (suc width) n out h =
    hex_onto-read width (n / 16) (hex_char (n % 16) ∷ out) (omega (arith, pow-suc 16 width))
    ∙ rw (hex-hex_char (n % 16) (omega arith), read_hex)
        (ap (λ (k : ℕ). read_hex k out) (omega arith))

length-hex_onto : (width n : ℕ) (out : Chars) → length (hex_onto width n out) ≡ width + length out
unfolding hex_onto
length-hex_onto zero n out = omega arith
length-hex_onto (suc width) n out =
    omega (arith, length-hex_onto width (n / 16) (hex_char (n % 16) ∷ out))

hex_onto-hex :
    (width n : ℕ) (out : Chars) → all is_hex out ≡ true → all is_hex (hex_onto width n out) ≡ true
unfolding hex_onto
hex_onto-hex zero n out h = h
hex_onto-hex (suc width) n out h =
    hex_onto-hex width (n / 16) (hex_char (n % 16) ∷ out)
      (rw (is_hex-hex_char (n % 16) (omega arith)) h)

-- `0x` and 32 hexadecimal digits.
id_of_digits :
    (digits : Chars)
    → length digits ≡ 32
    → all is_hex digits ≡ true
    → is_cloid (chars (of_chars ("0" ∷ ("x" ∷ digits)))) ≡ true
id_of_digits digits h k = rw (chars-of_chars digits, h, k) refl

value_of_digits :
    (digits : Chars) → cloid_value (of_chars ("0" ∷ ("x" ∷ digits))) ≡ read_hex 0 digits
unfolding cloid_value
value_of_digits digits = rw (chars-of_chars digits) refl

new_cloid-valid : (text : String) → is_cloid (chars text) ≡ true → new_cloid text ≡ ok text
unfolding new_cloid
new_cloid-valid text h = rw h refl

-- Every number that fits in 16 bytes has a client order id, which reads back as that number.
pub from_int-read :
    (n : ℕ)
    → n < 2 ^ 128
    → (text : String) × (from_int (pos n) ≡ ok text) × (cloid_value text ≡ some n)
unfolding from_int
from_int-read n h =
    let digits = hex_onto 32 n [] in
    let valid = id_of_digits digits (length-hex_onto 32 n []) (hex_onto-hex 32 n [] refl) in
    (
      of_chars ("0" ∷ ("x" ∷ digits)),
      rw (lt→ltb n (2 ^ 128) h) (new_cloid-valid (of_chars ("0" ∷ ("x" ∷ digits))) valid),
      value_of_digits digits ∙ hex_onto-read 32 n [] h,
    )

-- ===== src/Release/Dates.antt =====
-- scripts/extract_release_notes.py: the dates of headings are the dates of the calendar.
use Prim.Native.Char.{Char, code}
use mathlib.Core.Path.{subst}
use text.Mathlib.TextEquality.{Char-path}
use async_hyperliquid.Prelude.{
  ℕ, zero, suc, ◌+◌, ◌-◌, ◌*◌, ◌/◌, ◌%◌, ◌≤◌, ◌<◌, ◌≡◌, refl, sym, ap, ◌∙◌, inl, inr, true, ◌&&◌,
  Option, none, some, [], ◌∷◌, ◌++◌, arith, leb, leb→le, Bool-cases, Option-cases, string_eq, ◌==◌,
  nat_eq, and_true, int_eq,
}
use async_hyperliquid.Text.{Chars, char_beq_iff, char_eq, digit_char}
use async_hyperliquid.Text.Digits.{digit?, read_from, read_from-digit}
use async_hyperliquid.Release.{chars_eq}
use async_hyperliquid.Release.Headings.{
  days_in, is_date, two_digits, four_digits, is_date_of, is_iso_date,
}

code-digit_char : (d : ℕ) → d < 10 → code (digit_char d) ≡ 48 + d
unfolding digit_char
code-digit_char zero h = refl
code-digit_char (suc zero) h = refl
code-digit_char (suc (suc zero)) h = refl
code-digit_char (suc (suc (suc zero))) h = refl
code-digit_char (suc (suc (suc (suc zero)))) h = refl
code-digit_char (suc (suc (suc (suc (suc zero))))) h = refl
code-digit_char (suc (suc (suc (suc (suc (suc zero)))))) h = refl
code-digit_char (suc (suc (suc (suc (suc (suc (suc zero))))))) h = refl
code-digit_char (suc (suc (suc (suc (suc (suc (suc (suc zero)))))))) h = refl
code-digit_char (suc (suc (suc (suc (suc (suc (suc (suc (suc zero))))))))) h = refl
code-digit_char (suc (suc (suc (suc (suc (suc (suc (suc (suc (suc n)))))))))) h =
    absurd (omega arith)

-- A digit is the character of its value.
digit?-digit_char : (c : Char) (d : ℕ) → digit? c ≡ some d → (d < 10) × (c ≡ digit_char d)
digit?-digit_char c d h = elim (Bool-cases (leb 48 (code c) && leb (code c) 57)) [
  | inl y ↦
      let low : 48 ≤ code c = ground arith in
      let high : code c ≤ 57 = ground arith in
      let same : code c - 48 ≡ d = ground arith in
      let small : d < 10 = omega arith in
      (small, Char-path c (digit_char d) (omega (arith, code-digit_char d small)))
  | inr n ↦ absurd (ground arith)
]

data Digits (n : ℕ) (c : Char) (cs : Chars) (v : ℕ) : Type 0 where
  digit : (d : ℕ) → d < 10 → c ≡ digit_char d → read_from (n * 10 + d) cs ≡ some v → Digits n c cs v

read_from-Digits :
    (n : ℕ) (c : Char) (cs : Chars) (v : ℕ) → read_from n (c ∷ cs) ≡ some v → Digits n c cs v
unfolding read_from
read_from-Digits n c cs v h = elim (Option-cases (digit? c)) [
  | inl e ↦ absurd (ground arith)
  | inr (d, e) ↦
      let known = digit?-digit_char c d e in digit d known.0 known.1 (rw (e, read_from) at h)
]

-- `f"{n:02d}"` and `f"{n:04d}"` of a number that is not longer
abbrev pub two_of : ℕ → Chars
two_of n = digit_char (n / 10) ∷ (digit_char (n % 10) ∷ [])

abbrev pub four_of : ℕ → Chars
four_of n = digit_char (n / 1000) ∷ (digit_char (n / 100 % 10) ∷ two_of (n % 100))

-- `date.isoformat`
abbrev pub iso_format : ℕ → ℕ → ℕ → Chars
iso_format year month day = four_of year ++ ("-" ∷ (two_of month ++ ("-" ∷ two_of day)))

two_of_unique :
    (d e v : ℕ) → d < 10 → e < 10 → v ≡ d * 10 + e → (digit_char d ∷ (digit_char e ∷ [])) ≡ two_of v
two_of_unique d e v p q h =
    let tens : d ≡ v / 10 = omega arith in
    let ones : e ≡ v % 10 = omega arith in rw (tens, ones) refl

four_of_unique :
    (d e f g v : ℕ)
    → d < 10
    → e < 10
    → f < 10
    → g < 10
    → v ≡ ((d * 10 + e) * 10 + f) * 10 + g
    → (digit_char d ∷ (digit_char e ∷ (digit_char f ∷ (digit_char g ∷ [])))) ≡ four_of v
four_of_unique d e f g v p q r s h =
    let first : d ≡ v / 1000 = omega arith in
    let second : e ≡ v / 100 % 10 = omega arith in
    let third : f ≡ v % 100 / 10 = omega arith in
    let fourth : g ≡ v % 100 % 10 = omega arith in rw (first, second, third, fourth) refl

read_end : (n v : ℕ) → read_from n [] ≡ some v → v ≡ n
unfolding read_from
read_end n v h = cc

two_digits-two_of :
    (a b : Char) (v : ℕ) → two_digits a b ≡ some v → ((a ∷ (b ∷ [])) ≡ two_of v) × (v < 100)
two_digits-two_of a b v h = elim (read_from-Digits 0 a (b ∷ []) v h) [
  | digit d p da r ↦ elim (read_from-Digits (0 * 10 + d) b [] v r) [
    | digit e q eb s ↦
        let is : v ≡ d * 10 + e = omega (arith, read_end ((0 * 10 + d) * 10 + e) v s) in
        (rw (da, eb) (two_of_unique d e v p q is), omega arith)
  ]
]

four_digits-four_of :
    (a b c k : Char) (v : ℕ)
    → four_digits a b c k ≡ some v
    → ((a ∷ (b ∷ (c ∷ (k ∷ [])))) ≡ four_of v) × (v < 10_000)
four_digits-four_of a b c k v h = elim (read_from-Digits 0 a (b ∷ (c ∷ (k ∷ []))) v h) [
  | digit d p da r ↦ elim (read_from-Digits (0 * 10 + d) b (c ∷ (k ∷ [])) v r) [
    | digit e q eb s ↦ elim (read_from-Digits ((0 * 10 + d) * 10 + e) c (k ∷ []) v s) [
      | digit f t fc u ↦ elim (read_from-Digits (((0 * 10 + d) * 10 + e) * 10 + f) k [] v u) [
        | digit g l gk m ↦
            let is : v ≡ ((d * 10 + e) * 10 + f) * 10 + g =
              omega (arith, read_end ((((0 * 10 + d) * 10 + e) * 10 + f) * 10 + g) v m) in
            (rw (da, eb, fc, gk) (four_of_unique d e f g v p q t l is), omega arith)
      ]
    ]
  ]
]

-- A date of the calendar in its ISO format.
pub data IsIsoDate : Chars → Type 0 where
  iso :
      (year month day : ℕ)
      → year < 10_000
      → is_date year month day ≡ true
      → IsIsoDate (iso_format year month day)

is_date_of-known :
    (y m d : Option ℕ)
    → is_date_of y m d ≡ true
    → (year : ℕ) × (month : ℕ) × (day : ℕ) × (y ≡ some year)
      × (m ≡ some month)
      × (d ≡ some day)
      × (is_date year month day ≡ true)
is_date_of-known (some year) (some month) (some day) h = (year, month, day, refl, refl, refl, h)
is_date_of-known none m d h = cc
is_date_of-known (some year) none d h = cc
is_date_of-known (some year) (some month) none h = cc

rejoined :
    (ys ms ds : Chars) (s t : Char) (year month day : ℕ)
    → ys ≡ four_of year
    → s ≡ "-"
    → ms ≡ two_of month
    → t ≡ "-"
    → ds ≡ two_of day
    → (ys ++ (s ∷ (ms ++ (t ∷ ds)))) ≡ iso_format year month day
rejoined ys ms ds s t year month day e f g h i = rw (e, f, g, h, i) refl

pub is_iso_date_sound : (text : Chars) → is_iso_date text ≡ true → IsIsoDate text
unfolding is_iso_date
is_iso_date_sound (a ∷ (b ∷ (c ∷ (d ∷ (s ∷ (e ∷ (f ∷ (t ∷ (g ∷ (h ∷ [])))))))))) is =
    let (s_dash, is2) = and_true (s == "-") _ is in
    let (t_dash, is3) = and_true (t == "-") _ is2 in
    let (year, month, day, y, m, n, valid) = is_date_of-known _ _ _ is3 in
    let (years, small) = four_digits-four_of a b c d year y in
    let (months, _) = two_digits-two_of e f month m in
    let (days, _) = two_digits-two_of g h day n in
    subst IsIsoDate
      (sym (
        rejoined (a ∷ (b ∷ (c ∷ (d ∷ [])))) (e ∷ (f ∷ [])) (g ∷ (h ∷ [])) s t year month day years
          ((char_beq_iff s "-").0 s_dash) months ((char_beq_iff t "-").0 t_dash) days))
      (iso year month day small valid)
is_iso_date_sound _ is = cc

two_digits-read :
    (n : ℕ) → n < 100 → two_digits (digit_char (n / 10)) (digit_char (n % 10)) ≡ some n
unfolding read_from
two_digits-read n h =
    read_from-digit 0 (n / 10) (digit_char (n % 10) ∷ []) (omega arith)
    ∙ read_from-digit (0 * 10 + n / 10) (n % 10) [] (omega arith)
    ∙ ap (λ (k : ℕ). some k) (omega arith)

four_digits-read :
    (n : ℕ)
    → n < 10_000
    → four_digits
        (digit_char (n / 1000))
        (digit_char (n / 100 % 10))
        (digit_char (n % 100 / 10))
        (digit_char (n % 100 % 10))
      ≡ some n
unfolding read_from
four_digits-read n h =
    read_from-digit 0 (n / 1000)
      (digit_char (n / 100 % 10) ∷ (digit_char (n % 100 / 10) ∷ (digit_char (n % 100 % 10) ∷ [])))
      (omega arith)
    ∙ read_from-digit (0 * 10 + n / 1000) (n / 100 % 10)
        (digit_char (n % 100 / 10) ∷ (digit_char (n % 100 % 10) ∷ [])) (omega arith)
    ∙ read_from-digit ((0 * 10 + n / 1000) * 10 + n / 100 % 10) (n % 100 / 10)
        (digit_char (n % 100 % 10) ∷ []) (omega arith)
    ∙ read_from-digit (((0 * 10 + n / 1000) * 10 + n / 100 % 10) * 10 + n % 100 / 10) (n % 100 % 10)
        [] (omega arith)
    ∙ ap (λ (k : ℕ). some k) (omega arith)

days_in-bound : (year month : ℕ) → days_in year month ≤ 31
days_in-bound year month = ground arith

is_date-small : (year month day : ℕ) → is_date year month day ≡ true → (month < 100) × (day < 100)
unfolding is_date
is_date-small year month day h =
    let (_, months) = and_true (leb 1 year) _ h in
    let (_, top) = and_true (leb 1 month) _ months in
    let (low, days) = and_true (leb month 12) _ top in
    let (_, last) = and_true (leb 1 day) _ days in
    let m : month ≤ 12 = leb→le month 12 low in
    let d : day ≤ days_in year month = leb→le day _ last in
    let bound : days_in year month ≤ 31 = days_in-bound year month in (omega arith, omega arith)

pub is_iso_date-IsIsoDate : (text : Chars) → IsIsoDate text → is_iso_date text ≡ true
unfolding is_iso_date
is_iso_date-IsIsoDate _ (iso year month day small valid) =
    let (m, d) = is_date-small year month day valid in
    rw (four_digits-read year small, two_digits-read month m, two_digits-read day d) valid

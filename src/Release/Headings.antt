-- ===== src/Release/Headings.antt =====
-- scripts/extract_release_notes.py: the headings of versions, with their dates.
use Prim.Native.Char.{Char}
use async_hyperliquid.Prelude.{
  ℕ, ◌%◌, String, Bool, false, not, ◌&&◌, ◌||◌, Option, none, some, List, [], ◌∷◌, ◌++◌, leb,
  if◌then◌else◌, string_eq, ◌==◌, nat_eq, int_eq,
}
use async_hyperliquid.Text.{Chars, chars, char_eq}
use async_hyperliquid.Text.Digits.{read_from}
use async_hyperliquid.Release.{MarkdownToken, chars_eq}

-- `text.startswith(prefix)` and `text.removeprefix(prefix)` together
unfoldable pub after_prefix : Chars → Chars → Option Chars
after_prefix [] text = some text
after_prefix (p ∷ ps) [] = none
after_prefix (p ∷ ps) (c ∷ text) = let rest = after_prefix ps text in if p == c then rest else none

abbrev pub is_leap : ℕ → Bool
is_leap year = (year % 4 == 0) && (not (year % 100 == 0) || (year % 400 == 0))

abbrev pub days_in : ℕ → ℕ → ℕ
days_in year month =
    if month == 2
    then (if is_leap year then 29 else 28)
    else if (month == 4) || ((month == 6) || ((month == 9) || (month == 11)))
    then 30
    else 31

-- What `datetime.date` accepts; the year has four digits.
unfoldable pub is_date : ℕ → ℕ → ℕ → Bool
is_date year month day =
    leb 1 year && (leb 1 month && (leb month 12 && (leb 1 day && leb day (days_in year month))))

-- `[0-9]{n}` and the number it stands for
abbrev pub two_digits : Char → Char → Option ℕ
two_digits c d = read_from 0 (c ∷ (d ∷ []))

abbrev pub four_digits : Char → Char → Char → Char → Option ℕ
four_digits a b c d = read_from 0 (a ∷ (b ∷ (c ∷ (d ∷ []))))

abbrev pub is_date_of : Option ℕ → Option ℕ → Option ℕ → Bool
is_date_of (some year) (some month) (some day) = is_date year month day
is_date_of _ _ _ = false

-- `re.fullmatch(...)` and `date.fromisoformat(...)`
unfoldable pub is_iso_date : Chars → Bool
is_iso_date (a ∷ (b ∷ (c ∷ (d ∷ (s ∷ (e ∷ (f ∷ (t ∷ (g ∷ (h ∷ [])))))))))) =
    (s == "-") && ((t == "-") && is_date_of (four_digits a b c d) (two_digits e f) (two_digits g h))
is_iso_date _ = false

abbrev pub heading_prefix : String → Chars
heading_prefix version = "#" ∷ ("#" ∷ (" " ∷ ("[" ∷ (chars version ++ ("]" ∷ [])))))

abbrev pub dated : Option Chars → Bool
dated none = false
dated (some date_text) = is_iso_date date_text

-- `_matches_version_heading`
unfoldable pub matches_version_heading : Chars → String → Bool
matches_version_heading line version =
    (line == heading_prefix version)
    || dated (after_prefix (heading_prefix version ++ (" " ∷ ("-" ∷ (" " ∷ [])))) line)

abbrev pub is_top_heading : MarkdownToken → Bool
is_top_heading token =
    (token.type_ == "heading_open") && ((token.tag == "h2") && (token.level == 0))

-- `_level_two_heading_lines`
unfoldable pub level_two_heading_lines : List MarkdownToken → List ℕ
level_two_heading_lines [] = []
level_two_heading_lines (token ∷ tokens) =
    let rest = level_two_heading_lines tokens in
    elim (token.first_line) [
      | some line ↦ if is_top_heading token then line ∷ rest else rest
      | none ↦ rest
    ]

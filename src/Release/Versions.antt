-- ===== src/Release/Versions.antt =====
-- scripts/extract_release_notes.py: which lines are headings of a version.

use mathlib.Core.Path.{subst}
use async_hyperliquid.Prelude.{
  String, ◌≡◌, refl, sym, ap, ◌↔◌, inl, inr, true, Option, none, some, [], ◌∷◌, ◌++◌, arith,
  Bool-cases, string_eq, ◌==◌, beq_refl, nat_eq, int_eq,
}
use async_hyperliquid.Text.{Chars, char_beq_iff, char_eq}
use async_hyperliquid.Release.{chars_eq}
use async_hyperliquid.Release.Headings.{
  after_prefix, heading_prefix, dated, matches_version_heading,
}
use async_hyperliquid.Release.Dates.{IsIsoDate, is_iso_date_sound, is_iso_date-IsIsoDate}

after_prefix_sound :
    (prefix_ text rest : Chars) → after_prefix prefix_ text ≡ some rest → text ≡ prefix_ ++ rest
unfolding after_prefix
after_prefix_sound [] text rest h = cc
after_prefix_sound (p ∷ ps) [] rest h = cc
after_prefix_sound (p ∷ ps) (c ∷ text) rest h = elim (Bool-cases (p == c)) [
  | inl same ↦
      rw (sym ((char_beq_iff p c).0 same))
        (ap (λ (t : Chars). p ∷ t) (after_prefix_sound ps text rest (rw (same, after_prefix) at h)))
  | inr differs ↦ absurd (ground arith)
]

after_prefix-append : (prefix_ rest : Chars) → after_prefix prefix_ (prefix_ ++ rest) ≡ some rest
unfolding after_prefix
after_prefix-append [] rest = refl
after_prefix-append (p ∷ ps) rest = rw ((char_beq_iff p p).1 refl, after_prefix-append ps rest) refl

-- The headings of a version: `## [version]`, alone or with a date after ` - `.
pub data IsVersionHeading (version : String) : Chars → Type 0 where
  plain : IsVersionHeading version (heading_prefix version)
  with_date :
      (date_text : Chars)
      → IsIsoDate date_text
      → IsVersionHeading version (heading_prefix version ++ (" " ∷ ("-" ∷ (" " ∷ []))) ++ date_text)

dated-IsVersionHeading :
    (version : String) (line : Chars) (rest : Option Chars)
    → after_prefix (heading_prefix version ++ (" " ∷ ("-" ∷ (" " ∷ [])))) line ≡ rest
    → dated rest ≡ true
    → IsVersionHeading version line
dated-IsVersionHeading version line none e h = cc
dated-IsVersionHeading version line (some text) e h =
    subst (IsVersionHeading version)
      (sym (after_prefix_sound (heading_prefix version ++ (" " ∷ ("-" ∷ (" " ∷ [])))) line text e))
      (with_date text (is_iso_date_sound text h))

matches-IsVersionHeading :
    (version : String) (line : Chars)
    → IsVersionHeading version line
    → matches_version_heading line version ≡ true
unfolding matches_version_heading
matches-IsVersionHeading version _ plain = rw (beq_refl (heading_prefix version)) refl
matches-IsVersionHeading version _ (with_date text h) =
    elim (Bool-cases
      ((heading_prefix version ++ (" " ∷ ("-" ∷ (" " ∷ []))) ++ text) == heading_prefix version)) [
        | inl same ↦ rw same refl
        | inr differs ↦
            rw
              (
                differs,
                after_prefix-append (heading_prefix version ++ (" " ∷ ("-" ∷ (" " ∷ [])))) text,
              )
              (is_iso_date-IsIsoDate text h)
      ]

IsVersionHeading-matches :
    (version : String) (line : Chars)
    → matches_version_heading line version ≡ true
    → IsVersionHeading version line
unfolding matches_version_heading
IsVersionHeading-matches version line h = elim (Bool-cases (line == heading_prefix version)) [
  | inl same ↦
      subst (IsVersionHeading version)
        (sym ((chars_eq.is_same_iff line (heading_prefix version)).0 same)) plain
  | inr differs ↦
      dated-IsVersionHeading version line _ refl (rw (differs, matches_version_heading) at h)
]

-- A line matches as the heading of a version just when it is `## [version]`, or this followed by ` - `
-- and the ISO format of a date of the calendar with a year from 1 to 9999.
pub matches_version_heading_iff :
    (line : Chars) (version : String)
    → (matches_version_heading line version ≡ true) ↔ IsVersionHeading version line
matches_version_heading_iff line version =
    (IsVersionHeading-matches version line, matches-IsVersionHeading version line)

-- ===== src/Release.antt =====
-- scripts/extract_release_notes.py: the section of one version in the changelog. `markdown-it` is the
-- argument `parse`; the arguments of `main` are already parsed, and its messages are left out.
pub mod Headings
pub mod Lines
pub mod Extract
pub mod Dates
pub mod Versions
pub mod Sections
pub mod Blanks
pub mod Extracted
pub mod Matching
pub mod Changelog
pub mod Text
use mathlib.Core.Path.{subst}
use async_hyperliquid.Prelude.{
  ℕ, String, ◌≡◌, refl, Bool, true, false, ◌&&◌, Option, [], ◌∷◌, Eq, string_eq, ◌==◌, nat_eq,
  and_true, int_eq,
}
use async_hyperliquid.Text.{Chars, char_beq_iff, char_eq}

-- What the script reads of a token of markdown-it: the first line of `map`.
pub record MarkdownToken : Type 0 where
  pub type_ : String
  pub tag : String
  pub level : ℕ
  pub first_line : Option ℕ

-- `raise ReleaseNotesError(...)`, and the `IndexError` of a list
pub data Extraction : Type 0 where
  notes : String → Extraction
  release_notes_error : String → Extraction
  index_error : Extraction

abbrev pub same_chars : Chars → Chars → Bool
same_chars [] [] = true
same_chars [] (d ∷ ds) = false
same_chars (c ∷ cs) [] = false
same_chars (c ∷ cs) (d ∷ ds) = (c == d) && same_chars cs ds

pub same_chars_sound : (cs ds : Chars) → same_chars cs ds ≡ true → cs ≡ ds
same_chars_sound [] [] h = refl
same_chars_sound [] (d ∷ ds) h = cc
same_chars_sound (c ∷ cs) [] h = cc
same_chars_sound (c ∷ cs) (d ∷ ds) h =
    let (head, tail) = and_true (c == d) (same_chars cs ds) h in
    rw ((char_beq_iff c d).0 head, same_chars_sound cs ds tail) refl

pub same_chars_refl : (cs : Chars) → same_chars cs cs ≡ true
same_chars_refl [] = refl
same_chars_refl (c ∷ cs) = rw ((char_beq_iff c c).1 refl, same_chars_refl cs) refl

instance abbrev pub chars_eq : Eq Chars
chars_eq = record {
  is_same = same_chars;
  is_same_iff = λ cs ds.
      (same_chars_sound cs ds, λ e. subst (λ d. same_chars cs d ≡ true) e (same_chars_refl cs));
}

-- ===== src/Release/Extract.antt =====
-- scripts/extract_release_notes.py: the section of a version.
use async_hyperliquid.Prelude.{
  ℕ, ◌+◌, String, Bool, Option, none, some, List, [], ◌∷◌, ◌++◌, leb, if◌then◌else◌, length,
  get_elem?,
}
use async_hyperliquid.Text.{Chars, chars, of_chars}
use async_hyperliquid.Release.{MarkdownToken, Extraction, notes, release_notes_error, index_error}
use async_hyperliquid.Release.Headings.{matches_version_heading, level_two_heading_lines}
use async_hyperliquid.Release.Lines.{
  replace_crlf, replace_cr, split_lines, join_lines, drop_first_blanks, drop_last_blanks, slice,
}

abbrev pub if_matching : Option Chars → String → ℕ → Option (List ℕ) → Option (List ℕ)
if_matching none version index rest = none
if_matching (some line) version index rest =
    if matches_version_heading line version
    then elim rest [ none ↦ none | some indexes ↦ some (index ∷ indexes) ]
    else rest

-- `matches`; `none` is an `IndexError`
unfoldable pub matching_lines : List Chars → String → List ℕ → Option (List ℕ)
matching_lines lines version [] = some []
matching_lines lines version (index ∷ rest) =
    if_matching (get_elem? lines index) version index (matching_lines lines version rest)

-- `next((index for index in heading_lines if index >= start), len(lines))`
unfoldable pub next_heading : ℕ → List ℕ → ℕ → ℕ
next_heading start [] otherwise = otherwise
next_heading start (index ∷ rest) otherwise =
    let later = next_heading start rest otherwise in if leb start index then index else later

abbrev pub problem : String → String → Extraction
problem version what =
    release_notes_error (of_chars (chars "changelog section [" ++ (chars version ++ chars what)))

abbrev pub notes_of : String → List Chars → Extraction
notes_of version [] = problem version "] is empty"
notes_of version (line ∷ lines) = notes (of_chars (join_lines (line ∷ lines) ++ ("\n" ∷ [])))

abbrev pub extract_from : List Chars → List ℕ → String → Option (List ℕ) → Extraction
extract_from lines headings version none = index_error
extract_from lines headings version (some []) = problem version "] was not found"
extract_from lines headings version (some (index ∷ [])) = notes_of version (
    drop_last_blanks (
      drop_first_blanks
        (slice (index + 1) (next_heading (index + 1) headings (length lines)) lines)))
extract_from lines headings version (some (index ∷ (other ∷ rest))) =
    problem version "] appears more than once"

unfoldable pub extract_lines : List Chars → List ℕ → String → Extraction
extract_lines lines headings version =
    extract_from lines headings version (matching_lines lines version headings)

-- `normalized`, `lines`
abbrev pub normalized : String → Chars
normalized changelog = replace_cr (replace_crlf (chars changelog))

abbrev pub changelog_lines : String → List Chars
changelog_lines changelog = split_lines (normalized changelog)

-- How `main` ends: its result with what it has written, or an exception that it lets through.
pub data Exit : Type 0 where
  returns : ℕ → Option String → Exit
  raises : Exit

module _ (parse : String → List MarkdownToken) where
  abbrev pub heading_lines : String → List ℕ
  heading_lines changelog = level_two_heading_lines (parse (of_chars (normalized changelog)))

  unfoldable pub extract_release_notes : String → String → Extraction
  extract_release_notes changelog version =
      extract_lines (changelog_lines changelog) (heading_lines changelog) version

  abbrev pub written : (String → Bool) → Extraction → Exit
  written can_write (notes text) = if can_write text then returns 0 (some text) else returns 1 none
  written can_write (release_notes_error message) = returns 1 none
  written can_write index_error = raises

  -- `main`, with the text that `read_text` gives, if any, and whether `write_text` succeeds
  unfoldable pub main : Option String → (String → Bool) → String → Exit
  main none can_write version = returns 1 none
  main (some changelog) can_write version =
      written can_write (extract_release_notes changelog version)

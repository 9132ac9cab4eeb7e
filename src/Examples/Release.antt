-- ===== src/Examples/Release.antt =====
-- The release notes of a small changelog.
use async_hyperliquid.Prelude.{
  ℕ, String, ◌≡◌, refl, ◌↔◌, true, false, some, List, [], ◌∷◌, arith, All,
}
use async_hyperliquid.Text.{chars}
use async_hyperliquid.Text.Digits.{read_from}
use async_hyperliquid.Release.{MarkdownToken, notes, release_notes_error}
use async_hyperliquid.Release.Headings.{
  after_prefix, is_date, is_iso_date, matches_version_heading, level_two_heading_lines,
}
use async_hyperliquid.Release.Lines.{
  replace_crlf, replace_cr, split_lines, join_lines, drop_first_blanks, drop_last_blanks, slice,
}
use async_hyperliquid.Release.Extract.{
  matching_lines, next_heading, extract_lines, normalized, changelog_lines, heading_lines,
  extract_release_notes,
}
use async_hyperliquid.Release.Extracted.{Extracts}
use async_hyperliquid.Release.Changelog.{extract_release_notes-Extracts}
use async_hyperliquid.Release.Versions.{IsVersionHeading, matches_version_heading_iff}
use async_hyperliquid.Release.Text.{IsLine, HasLines, changelog_lines-HasLines}

abbrev two_versions : String
two_versions = "## [1.1] - 2024-02-29\n\n- New.\n\n## [1.0]\r\n- Old."

-- A parser that knows the headings of this changelog.
abbrev example_parse : String → List MarkdownToken
example_parse text = heading 0 ∷ (heading 4 ∷ [])
  where
    heading : ℕ → MarkdownToken
    heading line = record { type_ = "heading_open"; tag = "h2"; level = 0; first_line = some line }

newer : extract_release_notes example_parse two_versions "1.1" ≡ notes "- New.\n"
unfolding extract_release_notes extract_lines matching_lines level_two_heading_lines split_lines
    replace_cr replace_crlf matches_version_heading after_prefix is_iso_date read_from is_date
    drop_last_blanks drop_first_blanks slice next_heading join_lines
newer = refl

older : extract_release_notes example_parse two_versions "1.0" ≡ notes "- Old.\n"
unfolding extract_release_notes extract_lines matching_lines level_two_heading_lines split_lines
    replace_cr replace_crlf matches_version_heading after_prefix is_iso_date read_from is_date
    drop_last_blanks drop_first_blanks slice next_heading join_lines
older = refl

absent :
    extract_release_notes example_parse two_versions "0.9"
    ≡ release_notes_error "changelog section [0.9] was not found"
unfolding extract_release_notes extract_lines matching_lines level_two_heading_lines split_lines
    replace_cr replace_crlf matches_version_heading after_prefix is_iso_date read_from is_date
    drop_last_blanks drop_first_blanks slice next_heading join_lines
absent = refl

no_leap_day : matches_version_heading (chars "## [1.1] - 2023-02-29") "1.1" ≡ false
unfolding matches_version_heading after_prefix is_iso_date read_from is_date
no_leap_day = refl

extract_release_notes-Extracts_example :
    Extracts
      (changelog_lines two_versions)
      (heading_lines example_parse two_versions)
      "1.1"
      (extract_release_notes example_parse two_versions "1.1")
extract_release_notes-Extracts_example =
    extract_release_notes-Extracts example_parse two_versions "1.1" (
      unfold level_two_heading_lines split_lines replace_cr replace_crlf in
      (omega arith, (omega arith, tt)))

matches_version_heading_iff_example :
    (matches_version_heading (chars "## [1.1] - 2024-02-29") "1.1" ≡ true)
    ↔ IsVersionHeading "1.1" (chars "## [1.1] - 2024-02-29")
matches_version_heading_iff_example =
    matches_version_heading_iff (chars "## [1.1] - 2024-02-29") "1.1"

changelog_lines-HasLines_example :
    HasLines (chars "a\r\nb\rc") (changelog_lines "a\r\nb\rc")
    × All IsLine (changelog_lines "a\r\nb\rc")
    × (join_lines (changelog_lines "a\r\nb\rc") ≡ normalized "a\r\nb\rc")
changelog_lines-HasLines_example = changelog_lines-HasLines "a\r\nb\rc"

-- ===== src/Release/Changelog.antt =====
-- scripts/extract_release_notes.py: the extraction as a whole.
use mathlib.Core.Path.{subst}
use async_hyperliquid.Prelude.{
  ℕ, ◌+◌, ◌≤◌, ◌<◌, String, ◌≡◌, refl, ap, ◌∙◌, inl, inr, true, some, List, [], ◌∷◌, ◌++◌, arith,
  length, All, All-append,
}
use async_hyperliquid.Text.{Chars, before}
use async_hyperliquid.Release.{MarkdownToken}
use async_hyperliquid.Release.Lines.{is_blank, slice}
use async_hyperliquid.Release.Extract.{
  next_heading, notes_of, extract_from, extract_lines, changelog_lines, heading_lines,
  extract_release_notes,
}
use async_hyperliquid.Release.Sections.{
  IsStop, next_heading-IsStop, All-middle, IsStop-le, slice-split,
}
use async_hyperliquid.Release.Blanks.{Stripped, around, blanks-Stripped}
use async_hyperliquid.Release.Extracted.{
  IsOnlyHeading, only, IsBody, body_at, Extracts, missing, repeated, blank, found,
}
use async_hyperliquid.Release.Matching.{
  Matches, matching_lines-Matches, Matches-none, first_at, Matches-First,
}

module _ (lines : List Chars) (headings : List ℕ) (version : String) where
  -- What follows the only heading of the version.
  notes_of-Extracts :
      (k stop : ℕ) (body kept : List Chars)
      → IsOnlyHeading lines headings version k
      → IsStop (k + 1) headings (length lines) stop
      → IsBody lines headings version k stop body
      → Stripped body kept
      → Extracts lines headings version (notes_of version kept)
  notes_of-Extracts k stop body [] o s b (around before after p q e t) =
      blank k stop body o s b (rw e (All-append (λ line. is_blank line ≡ true) before after p q))
  notes_of-Extracts k stop body (line ∷ section) o s b (around before after p q e (inr t)) =
      found k stop before (line ∷ section) after o s
        (subst (IsBody lines headings version k stop) e b) p t q
  notes_of-Extracts k stop body (line ∷ section) o s b (around before after p q e (inl none_kept)) =
      cc

  slice-IsBody :
      (k stop : ℕ)
      → k + 1 ≤ stop
      → stop ≤ length lines
      → IsBody lines headings version k stop (slice (k + 1) stop lines)
  slice-IsBody k stop h l =
      let (front, back, e, n, m) = slice-split (k + 1) stop lines h l in body_at front back e n m

  chosen-Extracts :
      (chosen : List ℕ)
      → All (λ k. k < length lines) headings
      → Matches lines version headings chosen
      → Extracts lines headings version (extract_from lines headings version (some chosen))
  chosen-Extracts [] within m = missing (Matches-none lines version headings [] m refl)
  chosen-Extracts (k ∷ []) within m =
      elim (Matches-First lines version headings (k ∷ []) k [] m refl) [
        | first_at before after e b y rest ↦
            let inside : k < length lines =
              All-middle (λ j. j < length lines) before k after (rw e at within) in
            let stop = next_heading (k + 1) headings (length lines) in
            let stops = next_heading-IsStop (k + 1) headings (length lines) in
            let (low, high) =
              IsStop-le (k + 1) headings (length lines) stop stops within (omega arith) in
            notes_of-Extracts k stop _ _
              (only before after e b y (Matches-none lines version after [] rest refl)) stops
              (slice-IsBody k stop low high) (blanks-Stripped (slice (k + 1) stop lines))
      ]
  chosen-Extracts (k ∷ (l ∷ rest)) within m =
      elim (Matches-First lines version headings (k ∷ (l ∷ rest)) k (l ∷ rest) m refl) [
        | first_at before after e b y more ↦
            elim (Matches-First lines version after (l ∷ rest) l rest more refl) [
              | first_at between last f c z others ↦
                  repeated k l before between last (e ∙ ap (λ (us : List ℕ). before ++ (k ∷ us)) f)
                    y z
            ]
      ]

  pub extract_lines-Extracts :
      All (λ k. k < length lines) headings
      → Extracts lines headings version (extract_lines lines headings version)
  unfolding extract_lines
  extract_lines-Extracts within =
      let (chosen, e, m) = matching_lines-Matches lines version headings within in
      rw e (chosen-Extracts chosen within m)

-- When every level-two heading that markdown-it reports stands on a line of the text, the extraction
-- is one of these. No heading of the version: it says so. Two of them: it says so. One: the lines from it
-- to the next heading, or to the end, without the blank lines at both ends and with a final newline;
-- and if only blank lines are there, it says so.
pub extract_release_notes-Extracts :
    (parse : String → List MarkdownToken) (changelog version : String)
    → All (λ k. k < length (changelog_lines changelog)) (heading_lines parse changelog)
    → Extracts
        (changelog_lines changelog)
        (heading_lines parse changelog)
        version
        (extract_release_notes parse changelog version)
unfolding extract_release_notes
extract_release_notes-Extracts parse changelog version within =
    extract_lines-Extracts (changelog_lines changelog) (heading_lines parse changelog) version
      within

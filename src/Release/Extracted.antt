-- ===== src/Release/Extracted.antt =====
-- scripts/extract_release_notes.py: what is extracted, by a description of the sections of a changelog.
use async_hyperliquid.Prelude.{
  ℕ, ◌+◌, String, ◌≡◌, Bool, true, false, Option, none, some, List, [], ◌∷◌, ◌++◌, length,
  get_elem?, All,
}
use async_hyperliquid.Text.{Chars, of_chars}
use async_hyperliquid.Release.{Extraction, notes}
use async_hyperliquid.Release.Headings.{matches_version_heading}
use async_hyperliquid.Release.Lines.{join_lines}
use async_hyperliquid.Release.Extract.{problem}
use async_hyperliquid.Release.Sections.{IsStop}
use async_hyperliquid.Release.Blanks.{IsTrimmed, AllBlank}

abbrev pub version_line : Option Chars → String → Bool
version_line none version = false
version_line (some line) version = matches_version_heading line version

-- Whether the line of a heading is the heading of the version.
abbrev pub is_version_line : List Chars → String → ℕ → Bool
is_version_line lines version k = version_line (get_elem? lines k) version

abbrev pub NoneOf : List Chars → String → List ℕ → Type 0
NoneOf lines version = All (λ k. is_version_line lines version k ≡ false)

module _ (lines : List Chars) (headings : List ℕ) (version : String) where
  -- One heading alone is the heading of the version.
  pub data IsOnlyHeading (k : ℕ) : Type 0 where
    only :
        (before after : List ℕ)
        → headings ≡ before ++ (k ∷ after)
        → NoneOf lines version before
        → is_version_line lines version k ≡ true
        → NoneOf lines version after
        → IsOnlyHeading k

  -- The lines between a heading and a later line.
  pub data IsBody (k stop : ℕ) (body : List Chars) : Type 0 where
    body_at :
        (front back : List Chars)
        → lines ≡ front ++ (body ++ back)
        → length front ≡ k + 1
        → length front + length body ≡ stop
        → IsBody k stop body

  -- What a changelog gives for a version.
  pub data Extracts : Extraction → Type 0 where
    missing : NoneOf lines version headings → Extracts (problem version "] was not found")
    repeated :
        (k l : ℕ) (before between after : List ℕ)
        → headings ≡ before ++ (k ∷ (between ++ (l ∷ after)))
        → is_version_line lines version k ≡ true
        → is_version_line lines version l ≡ true
        → Extracts (problem version "] appears more than once")
    blank :
        (k stop : ℕ) (body : List Chars)
        → IsOnlyHeading k
        → IsStop (k + 1) headings (length lines) stop
        → IsBody k stop body
        → AllBlank body
        → Extracts (problem version "] is empty")
    found :
        (k stop : ℕ) (before section after : List Chars)
        → IsOnlyHeading k
        → IsStop (k + 1) headings (length lines) stop
        → IsBody k stop (before ++ (section ++ after))
        → AllBlank before
        → IsTrimmed section
        → AllBlank after
        → Extracts (notes (of_chars (join_lines section ++ ("\n" ∷ []))))

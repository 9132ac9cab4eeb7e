-- ===== src/Release/Text.antt =====
-- scripts/extract_release_notes.py: the lines are the text.
use Prim.Native.Char.{Char}
use mathlib.Core.Path.{subst}
use async_hyperliquid.Prelude.{
  String, ◌≡◌, refl, sym, ap, ◌≢◌, inl, inr, Bool, true, false, ◌&&◌, List, [], ◌∷◌, if◌then◌else◌,
  Bool-cases, string_eq, ◌==◌, nat_eq, and_true, All, int_eq,
}
use async_hyperliquid.Text.{Chars, chars, char_beq_iff, char_eq}
use async_hyperliquid.Release.{chars_eq}
use async_hyperliquid.Release.Lines.{replace_crlf, replace_cr, onto_first, split_lines, join_lines}
use async_hyperliquid.Release.Extract.{normalized, changelog_lines}

join_lines-onto_first :
    (c : Char) (lines : List Chars)
    → lines ≢ []
    → join_lines (onto_first c lines) ≡ c ∷ join_lines lines
unfolding join_lines
join_lines-onto_first c [] h = absurd (h refl)
join_lines-onto_first c (line ∷ []) h = refl
join_lines-onto_first c (line ∷ (next ∷ lines)) h = refl

onto_first-ne_nil : (c : Char) (lines : List Chars) → onto_first c lines ≢ []
onto_first-ne_nil c [] h = cc
onto_first-ne_nil c (line ∷ lines) h = cc

split_lines-ne_nil : (text : Chars) → split_lines text ≢ []
unfolding split_lines
split_lines-ne_nil [] = λ h. cc
split_lines-ne_nil (c ∷ text) = elim (Bool-cases (c == "\n")) [
  | inl newline ↦ rw newline (λ h. cc)
  | inr other ↦ rw other (onto_first-ne_nil c (split_lines text))
]

join_lines-newline :
    (lines : List Chars) → lines ≢ [] → join_lines ([] ∷ lines) ≡ "\n" ∷ join_lines lines
unfolding join_lines
join_lines-newline [] h = absurd (h refl)
join_lines-newline (line ∷ lines) h = refl

join_lines-split_lines : (text : Chars) → join_lines (split_lines text) ≡ text
unfolding split_lines
join_lines-split_lines [] = unfold join_lines in refl
join_lines-split_lines (c ∷ text) = elim (Bool-cases (c == "\n")) [
  | inl newline ↦
      rw
        (
          newline,
          join_lines-newline (split_lines text) (split_lines-ne_nil text),
          join_lines-split_lines text,
        )
        (ap (λ (d : Char). d ∷ text) (sym ((char_beq_iff c "\n").0 newline)))
  | inr other ↦
      rw
        (
          other,
          join_lines-onto_first c (split_lines text) (split_lines-ne_nil text),
          join_lines-split_lines text,
        )
        refl
]

-- No character of a line ends a line.
abbrev pub IsLine : Chars → Type 0
IsLine = All (λ c. ((c == "\n") ≡ false) × ((c == "\r") ≡ false))

abbrev HasNoReturns : Chars → Type 0
HasNoReturns = All (λ c. (c == "\r") ≡ false)

replace_cr-HasNoReturns : (text : Chars) → HasNoReturns (replace_cr text)
unfolding replace_cr
replace_cr-HasNoReturns [] = tt
replace_cr-HasNoReturns (c ∷ text) = (kept, replace_cr-HasNoReturns text)
  where
    kept : ((if c == "\r" then "\n" else c) == "\r") ≡ false
    kept = elim (Bool-cases (c == "\r")) [ inl h ↦ rw h refl | inr h ↦ rw (h, if◌then◌else◌) h ]

onto_first-IsLine :
    (c : Char) (lines : List Chars)
    → (c == "\n") ≡ false
    → (c == "\r") ≡ false
    → All IsLine lines
    → All IsLine (onto_first c lines)
onto_first-IsLine c [] h k all_lines = (((h, k), tt), tt)
onto_first-IsLine c (line ∷ lines) h k (first, rest) = (((h, k), first), rest)

split_lines-IsLine : (text : Chars) → HasNoReturns text → All IsLine (split_lines text)
unfolding split_lines
split_lines-IsLine [] h = (tt, tt)
split_lines-IsLine (c ∷ text) (k, h) = elim (Bool-cases (c == "\n")) [
  | inl newline ↦ rw newline (tt, split_lines-IsLine text h)
  | inr other ↦
      rw other (onto_first-IsLine c (split_lines text) other k (split_lines-IsLine text h))
]

abbrev starts_newline : Chars → Bool
starts_newline [] = false
starts_newline (c ∷ text) = c == "\n"

-- The lines of a text, read once from the left: a line ends at `\n`, at `\r\n`, or at a `\r` that no `\n`
-- follows.
pub data HasLines : Chars → List Chars → Type 0 where
  nothing_left : HasLines [] ([] ∷ [])
  newline :
      {text : Chars} {lines : List Chars}
      → HasLines text lines
      → HasLines ("\n" ∷ text) ([] ∷ lines)
  return_newline :
      {text : Chars} {lines : List Chars}
      → HasLines text lines
      → HasLines ("\r" ∷ ("\n" ∷ text)) ([] ∷ lines)
  return :
      {text : Chars} {lines : List Chars}
      → starts_newline text ≡ false
      → HasLines text lines
      → HasLines ("\r" ∷ text) ([] ∷ lines)
  character :
      {text line : Chars} {lines : List Chars} (c : Char)
      → (c == "\n") ≡ false
      → (c == "\r") ≡ false
      → HasLines text (line ∷ lines)
      → HasLines (c ∷ text) ((c ∷ line) ∷ lines)

onto_first-HasLines :
    (c : Char) (text : Chars) (lines : List Chars)
    → (c == "\n") ≡ false
    → (c == "\r") ≡ false
    → lines ≢ []
    → HasLines text lines
    → HasLines (c ∷ text) (onto_first c lines)
onto_first-HasLines c text [] n r some_line h = absurd (some_line refl)
onto_first-HasLines c text (line ∷ lines) n r some_line h = character c n r h

-- One character in front, where `tail` is what the text was made into.
in_front-HasLines :
    (c : Char) (text tail : Chars)
    → (((c == "\r") ≡ true) → starts_newline text ≡ false)
    → HasLines text (split_lines tail)
    → HasLines (c ∷ text) (split_lines ((if c == "\r" then "\n" else c) ∷ tail))
unfolding split_lines
in_front-HasLines c text tail alone h = elim (Bool-cases (c == "\r")) [
  | inl r ↦ rw r (
      subst (λ (d : Char). HasLines (d ∷ text) ([] ∷ split_lines tail))
        (sym ((char_beq_iff c "\r").0 r)) (return (alone r) h))
  | inr other ↦ elim (Bool-cases (c == "\n")) [
    | inl n ↦
        rw (other, n)
          (subst (λ (d : Char). HasLines (d ∷ text) ([] ∷ split_lines tail))
            (sym ((char_beq_iff c "\n").0 n)) (newline h))
    | inr plain ↦
        rw (other, plain)
          (onto_first-HasLines c text (split_lines tail) plain other (split_lines-ne_nil tail) h)
  ]
]

as_return_newline :
    (c d : Char) (text tail : Chars)
    → c ≡ "\r"
    → d ≡ "\n"
    → HasLines text (split_lines tail)
    → HasLines (c ∷ (d ∷ text)) (split_lines ("\n" ∷ tail))
unfolding split_lines
as_return_newline c d text tail e f h = rw (e, f) (return_newline h)

read_lines : (text : Chars) → HasLines text (split_lines (replace_cr (replace_crlf text)))
unfolding replace_cr replace_crlf
read_lines [] = unfold split_lines in nothing_left
read_lines (c ∷ []) = in_front-HasLines c [] [] (λ h. refl) (unfold split_lines in nothing_left)
read_lines (c ∷ (d ∷ text)) = elim (Bool-cases ((c == "\r") && (d == "\n"))) [
  | inl both ↦
      let (r, n) = and_true (c == "\r") (d == "\n") both in
      rw both (
        as_return_newline c d text (replace_cr (replace_crlf text)) ((char_beq_iff c "\r").0 r)
          ((char_beq_iff d "\n").0 n) (read_lines text))
  | inr other ↦ rw other (
      in_front-HasLines c (d ∷ text) (replace_cr (replace_crlf (d ∷ text))) (λ r. rw r at other)
        (read_lines (d ∷ text)))
]

-- The lines of every changelog are the lines of its text, where a line ends at a newline, at a carriage
-- return and a newline together, or at a carriage return alone. No line has a newline or a carriage return
-- in it, and joined by newlines they are the normalised text.
pub changelog_lines-HasLines :
    (changelog : String)
    → HasLines (chars changelog) (changelog_lines changelog)
      × All IsLine (changelog_lines changelog)
      × (join_lines (changelog_lines changelog) ≡ normalized changelog)
changelog_lines-HasLines changelog = (
  read_lines (chars changelog),
  split_lines-IsLine (normalized changelog)
      (replace_cr-HasNoReturns (replace_crlf (chars changelog))),
  join_lines-split_lines (normalized changelog),
)

-- ===== src/Release/Lines.antt =====
-- scripts/extract_release_notes.py: the changelog as lines, and parts of them.
use Prim.Native.Char.{Char}
use async_hyperliquid.Prelude.{
  ℕ, zero, suc, ◌-◌, Bool, ◌&&◌, ◌||◌, List, [], ◌∷◌, ◌++◌, if◌then◌else◌, string_eq, ◌==◌, nat_eq,
  is_empty, all, int_eq,
}
use async_hyperliquid.Text.{Chars, char_eq}
use async_hyperliquid.Release.{chars_eq}

-- `text.replace("\r\n", "\n")`
unfoldable pub replace_crlf : Chars → Chars
replace_crlf [] = []
replace_crlf (c ∷ []) = c ∷ []
replace_crlf (c ∷ (d ∷ text)) =
    let after_one = replace_crlf (d ∷ text) in
    let after_two = replace_crlf text in
    if (c == "\r") && (d == "\n") then "\n" ∷ after_two else c ∷ after_one

-- `text.replace("\r", "\n")`
unfoldable pub replace_cr : Chars → Chars
replace_cr [] = []
replace_cr (c ∷ text) = (if c == "\r" then "\n" else c) ∷ replace_cr text

abbrev pub onto_first : Char → List Chars → List Chars
onto_first c [] = (c ∷ []) ∷ []
onto_first c (line ∷ lines) = (c ∷ line) ∷ lines

-- `text.split("\n")`
unfoldable pub split_lines : Chars → List Chars
split_lines [] = [] ∷ []
split_lines (c ∷ text) =
    let rest = split_lines text in if c == "\n" then [] ∷ rest else onto_first c rest

-- `"\n".join(lines)`
unfoldable pub join_lines : List Chars → Chars
join_lines [] = []
join_lines (line ∷ []) = line
join_lines (line ∷ (next ∷ lines)) = line ++ ("\n" ∷ join_lines (next ∷ lines))

-- `not line.strip(" \t")`
abbrev pub is_blank : Chars → Bool
is_blank line = all (λ c. (c == " ") || (c == "\t")) line

-- `while section and not section[0].strip(" \t"): section.pop(0)`
unfoldable pub drop_first_blanks : List Chars → List Chars
drop_first_blanks [] = []
drop_first_blanks (line ∷ lines) =
    let rest = drop_first_blanks lines in if is_blank line then rest else line ∷ lines

-- `while section and not section[-1].strip(" \t"): section.pop()`
unfoldable pub drop_last_blanks : List Chars → List Chars
drop_last_blanks [] = []
drop_last_blanks (line ∷ lines) =
    let rest = drop_last_blanks lines in if is_empty rest && is_blank line then [] else line ∷ rest

-- `lines[start:end]`
abbrev pub from_line {ℓ} : {A : Type ℓ} → ℕ → List A → List A
from_line zero lines = lines
from_line (suc start) [] = []
from_line (suc start) (line ∷ lines) = from_line start lines

abbrev pub first_lines {ℓ} : {A : Type ℓ} → ℕ → List A → List A
first_lines zero lines = []
first_lines (suc count) [] = []
first_lines (suc count) (line ∷ lines) = line ∷ first_lines count lines

unfoldable pub slice {ℓ} : {A : Type ℓ} → ℕ → ℕ → List A → List A
slice start stop lines = first_lines (stop - start) (from_line start lines)

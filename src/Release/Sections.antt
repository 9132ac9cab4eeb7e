-- ===== src/Release/Sections.antt =====
-- scripts/extract_release_notes.py: what stands between the heading of a version and the next heading.

use async_hyperliquid.Prelude.{
  ℕ, zero, suc, ◌+◌, ◌-◌, ◌≤◌, ◌<◌, ◌≡◌, refl, ap, ◌∙◌, inl, inr, List, [], ◌∷◌, ◌++◌, arith, leb,
  leb→le, Bool-cases, length, All, length-append,
}
use async_hyperliquid.Release.Lines.{from_line, first_lines, slice}
use async_hyperliquid.Release.Extract.{next_heading}

-- The first heading from a line on, in the order of the headings, or the end of the text.
pub data IsStop (start : ℕ) (headings : List ℕ) (otherwise stop : ℕ) : Type 0 where
  at_heading :
      (before after : List ℕ)
      → headings ≡ before ++ (stop ∷ after)
      → All (λ k. k < start) before
      → start ≤ stop
      → IsStop start headings otherwise stop
  at_end : All (λ k. k < start) headings → stop ≡ otherwise → IsStop start headings otherwise stop

later-IsStop :
    (start k : ℕ) (headings : List ℕ) (otherwise stop : ℕ)
    → k < start
    → IsStop start headings otherwise stop
    → IsStop start (k ∷ headings) otherwise stop
later-IsStop start k headings otherwise stop h (at_heading earlier after e a le) =
    at_heading (k ∷ earlier) after (ap (λ (hs : List ℕ). k ∷ hs) e) (h, a) le
later-IsStop start k headings otherwise stop h (at_end a e) = at_end (h, a) e

pub next_heading-IsStop :
    (start : ℕ) (headings : List ℕ) (otherwise : ℕ)
    → IsStop start headings otherwise (next_heading start headings otherwise)
unfolding next_heading
next_heading-IsStop start [] otherwise = at_end tt refl
next_heading-IsStop start (k ∷ headings) otherwise = elim (Bool-cases (leb start k)) [
  | inl from_here ↦ rw from_here (at_heading [] headings refl tt (leb→le start k from_here))
  | inr above ↦ rw above (
      later-IsStop start k headings otherwise (next_heading start headings otherwise) (ground arith)
        (next_heading-IsStop start headings otherwise))
]

pub All-middle {ℓ κ} :
    {A : Type ℓ} (P : A → Type κ) (xs : List A) (y : A) (ys : List A) → All P (xs ++ (y ∷ ys)) → P y
All-middle P [] y ys h = h.0
All-middle P (x ∷ xs) y ys h = All-middle P xs y ys h.1

-- A stop of headings of the text is in the text.
pub IsStop-le :
    (start : ℕ) (headings : List ℕ) (otherwise stop : ℕ)
    → IsStop start headings otherwise stop
    → All (λ k. k < otherwise) headings
    → start ≤ otherwise
    → (start ≤ stop) × (stop ≤ otherwise)
IsStop-le start headings otherwise stop (at_heading earlier after e a le) within h =
    (le, omega (arith, All-middle (λ k. k < otherwise) earlier stop after (rw e at within)))
IsStop-le start headings otherwise stop (at_end a e) within h = (omega (arith, e), omega (arith, e))

module _ {ℓ} {A : Type ℓ} where
  from_line-split :
      (start : ℕ) (lines : List A)
      → start ≤ length lines
      → (front : List A) × (lines ≡ front ++ from_line start lines) × (length front ≡ start)
  from_line-split zero lines h = ([], refl, refl)
  from_line-split (suc start) [] h = absurd (omega arith)
  from_line-split (suc start) (line ∷ lines) h =
      let (front, e, n) = from_line-split start lines (omega arith) in
      (line ∷ front, ap (λ (ls : List A). line ∷ ls) e, ap suc n)

  first_lines-split :
      (count : ℕ) (lines : List A)
      → count ≤ length lines
      → (back : List A) × (lines ≡ first_lines count lines ++ back)
        × (length (first_lines count lines) ≡ count)
  first_lines-split zero lines h = (lines, refl, refl)
  first_lines-split (suc count) [] h = absurd (omega arith)
  first_lines-split (suc count) (line ∷ lines) h =
      let (back, e, n) = first_lines-split count lines (omega arith) in
      (back, ap (λ (ls : List A). line ∷ ls) e, ap suc n)

  -- A slice with what stands in front of it and behind it.
  pub slice-split :
      (start stop : ℕ) (lines : List A)
      → start ≤ stop
      → stop ≤ length lines
      → (front back : List A) × (lines ≡ front ++ (slice start stop lines ++ back))
        × (length front ≡ start)
        × (length front + length (slice start stop lines) ≡ stop)
  unfolding slice
  slice-split start stop lines h k =
      let (front, e, n) = from_line-split start lines (omega arith) in
      let total : length lines ≡ length front + length (from_line start lines) =
        ap length e ∙ length-append front (from_line start lines) in
      let (back, f, m) = first_lines-split (stop - start) (from_line start lines) (omega arith) in
      (front, back, e ∙ ap (λ (ls : List A). front ++ ls) f, n, omega arith)

-- ===== src/Release/Blanks.antt =====
-- scripts/extract_release_notes.py: the blank lines at both ends of a section.
use async_hyperliquid.Prelude.{
  ◌≡◌, refl, ap, ◌∙◌, ◌⊎◌, inl, inr, true, false, ◌&&◌, List, [], ◌∷◌, ◌++◌, Bool-cases, and_true,
  is_empty, All,
}
use async_hyperliquid.Text.{Chars, before}
use async_hyperliquid.Release.Lines.{is_blank, drop_first_blanks, drop_last_blanks}

-- Lines whose first and last are not blank.
pub record IsTrimmed (section : List Chars) : Type 0 where
  pub first : Chars
  pub others : List Chars
  pub starts : section ≡ first ∷ others
  pub first_is_text : is_blank first ≡ false
  pub init : List Chars
  pub last : Chars
  pub ends : section ≡ init ++ (last ∷ [])
  pub last_is_text : is_blank last ≡ false

abbrev pub AllBlank : List Chars → Type 0
AllBlank = All (λ line. is_blank line ≡ true)

pub drop_first_blanks-split :
    (lines : List Chars)
    → (blank : List Chars) × AllBlank blank × (lines ≡ blank ++ drop_first_blanks lines)
unfolding drop_first_blanks
drop_first_blanks-split [] = ([], tt, refl)
drop_first_blanks-split (line ∷ lines) = elim (Bool-cases (is_blank line)) [
  | inl h ↦
      let (blank, a, e) = drop_first_blanks-split lines in
      (line ∷ blank, (h, a), rw h (ap (λ (ls : List Chars). line ∷ ls) e))
  | inr h ↦ ([], tt, rw h refl)
]

-- What is left is empty or starts with a line that is not blank.
drop_first_blanks-starts :
    (lines : List Chars)
    → (drop_first_blanks lines ≡ [])
      ⊎ ((first : Chars) × (others : List Chars) × (drop_first_blanks lines ≡ first ∷ others)
          × (is_blank first ≡ false))
unfolding drop_first_blanks
drop_first_blanks-starts [] = inl refl
drop_first_blanks-starts (line ∷ lines) = elim (Bool-cases (is_blank line)) [
  | inl h ↦ rw h (drop_first_blanks-starts lines)
  | inr h ↦ rw h (inr (line, lines, refl, h))
]

is_empty_sound {ℓ} : {A : Type ℓ} (xs : List A) → is_empty xs ≡ true → xs ≡ []
is_empty_sound [] h = refl
is_empty_sound (x ∷ xs) h = cc

pub drop_last_blanks-split :
    (lines : List Chars)
    → (blank : List Chars) × AllBlank blank × (lines ≡ drop_last_blanks lines ++ blank)
unfolding drop_last_blanks
drop_last_blanks-split [] = ([], tt, refl)
drop_last_blanks-split (line ∷ lines) =
    let (blank, a, e) = drop_last_blanks-split lines in
    elim (Bool-cases (is_empty (drop_last_blanks lines) && is_blank line)) [
      | inl h ↦
          let (gone, b) = and_true (is_empty (drop_last_blanks lines)) (is_blank line) h in
          (
            line ∷ blank,
            (b, a),
            rw h (
                ap (λ (ls : List Chars). line ∷ ls)
                  (e
                    ∙ ap (λ (ls : List Chars). ls ++ blank)
                        (is_empty_sound (drop_last_blanks lines) gone))),
          )
      | inr h ↦ (blank, a, rw h (ap (λ (ls : List Chars). line ∷ ls) e))
    ]

drop_last_blanks-ends :
    (lines : List Chars)
    → (drop_last_blanks lines ≡ [])
      ⊎ ((init : List Chars) × (last : Chars) × (drop_last_blanks lines ≡ init ++ (last ∷ []))
          × (is_blank last ≡ false))
unfolding drop_last_blanks
drop_last_blanks-ends [] = inl refl
drop_last_blanks-ends (line ∷ lines) =
    elim (Bool-cases (is_empty (drop_last_blanks lines) && is_blank line)) [
      | inl h ↦ rw h (inl refl)
      | inr h ↦ elim (drop_last_blanks-ends lines) [
        | inl gone ↦ rw (h, gone) (inr ([], line, refl, rw gone at h))
        | inr (init, last, e, b) ↦
            rw h (inr (line ∷ init, last, ap (λ (ls : List Chars). line ∷ ls) e, b))
      ]
    ]

-- Both ends stripped: what is left is trimmed or nothing, between blank lines.
pub data Stripped (lines kept : List Chars) : Type 0 where
  around :
      (before after : List Chars)
      → AllBlank before
      → AllBlank after
      → lines ≡ before ++ (kept ++ after)
      → (kept ≡ []) ⊎ IsTrimmed kept
      → Stripped lines kept

-- The last lines that are dropped leave a first line that is not blank.
drop_last_blanks-starts :
    (first : Chars) (others : List Chars)
    → is_blank first ≡ false
    → drop_last_blanks (first ∷ others) ≡ first ∷ drop_last_blanks others
unfolding drop_last_blanks
drop_last_blanks-starts first others h = elim (Bool-cases (is_empty (drop_last_blanks others))) [
  | inl e ↦ rw (e, h) refl
  | inr e ↦ rw e refl
]

kept-IsTrimmed :
    (lines : List Chars)
    → (drop_last_blanks (drop_first_blanks lines) ≡ [])
      ⊎ IsTrimmed (drop_last_blanks (drop_first_blanks lines))
unfolding drop_last_blanks
kept-IsTrimmed lines = elim (drop_last_blanks-ends (drop_first_blanks lines)) [
  | inl gone ↦ inl gone
  | inr (init, last, e, b) ↦ elim (drop_first_blanks-starts lines) [
    | inl nothing_left ↦ inl (rw nothing_left refl)
    | inr (first, others, f, c) ↦ inr (record {
      first = first;
      others = drop_last_blanks others;
      starts = rw f (drop_last_blanks-starts first others c);
      first_is_text = c;
      init = init;
      last = last;
      ends = e;
      last_is_text = b;
    })
  ]
]

pub blanks-Stripped :
    (lines : List Chars) → Stripped lines (drop_last_blanks (drop_first_blanks lines))
blanks-Stripped lines =
    let (before, b, e) = drop_first_blanks-split lines in
    let (after, a, f) = drop_last_blanks-split (drop_first_blanks lines) in
    around before after b a (e ∙ ap (λ (ls : List Chars). before ++ ls) f) (kept-IsTrimmed lines)

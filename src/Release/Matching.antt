-- ===== src/Release/Matching.antt =====
-- scripts/extract_release_notes.py: which headings are chosen.
use mathlib.Core.Path.{subst}
use async_hyperliquid.Prelude.{
  ℕ, zero, suc, ◌<◌, String, ◌≡◌, refl, ap, inl, inr, true, false, some, List, [], ◌∷◌, ◌++◌, arith,
  Bool-cases, length, get_elem?, All,
}
use async_hyperliquid.Text.{Chars, before}
use async_hyperliquid.Release.Headings.{matches_version_heading}
use async_hyperliquid.Release.Extract.{matching_lines}
use async_hyperliquid.Release.Extracted.{is_version_line, NoneOf}

get_elem?-in {ℓ} :
    {A : Type ℓ} (xs : List A) (k : ℕ) → k < length xs → (x : A) × (get_elem? xs k ≡ some x)
get_elem?-in [] k h = absurd (omega arith)
get_elem?-in (x ∷ xs) zero h = (x, refl)
get_elem?-in (x ∷ xs) (suc k) h = get_elem?-in xs k (omega arith)

module _ (lines : List Chars) (version : String) where
  -- The headings of the version among the headings, in order.
  pub data Matches : List ℕ → List ℕ → Type 0 where
    nil : Matches [] []
    skip :
        (k : ℕ) (ks chosen : List ℕ)
        → is_version_line lines version k ≡ false
        → Matches ks chosen
        → Matches (k ∷ ks) chosen
    take :
        (k : ℕ) (ks chosen : List ℕ)
        → is_version_line lines version k ≡ true
        → Matches ks chosen
        → Matches (k ∷ ks) (k ∷ chosen)

  pub matching_lines-Matches :
      (ks : List ℕ)
      → All (λ k. k < length lines) ks
      → (chosen : List ℕ) × (matching_lines lines version ks ≡ some chosen) × Matches ks chosen
  unfolding matching_lines
  matching_lines-Matches [] h = ([], refl, nil)
  matching_lines-Matches (k ∷ ks) (h, hs) =
      let (chosen, e, m) = matching_lines-Matches ks hs in
      let (line, f) = get_elem?-in lines k h in
      elim (Bool-cases (matches_version_heading line version)) [
        | inl y ↦ (k ∷ chosen, rw (f, y, e) refl, take k ks chosen (rw (f, y) refl) m)
        | inr n ↦ (chosen, rw (f, n, e) refl, skip k ks chosen (rw (f, n) refl) m)
      ]

  pub Matches-none :
      (ks chosen : List ℕ) → Matches ks chosen → chosen ≡ [] → NoneOf lines version ks
  Matches-none _ _ nil e = tt
  Matches-none _ _ (skip k ks chosen n m) e = (n, Matches-none ks chosen m e)
  Matches-none _ _ (take k ks chosen y m) e = cc

  -- The first heading that is chosen, with those chosen after it.
  pub data First (ks : List ℕ) (k : ℕ) (rest : List ℕ) : Type 0 where
    first_at :
        (before after : List ℕ)
        → ks ≡ before ++ (k ∷ after)
        → NoneOf lines version before
        → is_version_line lines version k ≡ true
        → Matches after rest
        → First ks k rest

  pub Matches-First :
      (ks chosen : List ℕ) (k : ℕ) (rest : List ℕ)
      → Matches ks chosen
      → chosen ≡ k ∷ rest
      → First ks k rest
  Matches-First _ _ k rest nil e = cc
  Matches-First _ _ k rest (skip j ks chosen n m) e = later (Matches-First ks chosen k rest m e)
    where
      later : First ks k rest → First (j ∷ ks) k rest
      later (first_at before after f b y c) =
          first_at (j ∷ before) after (ap (λ (us : List ℕ). j ∷ us) f) (n, b) y c
  Matches-First _ _ k rest (take j ks chosen y m) e =
      let heads : j ≡ k = cc in
      let tails : chosen ≡ rest = cc in
      subst (λ (us : List ℕ). First (j ∷ ks) k us) tails
        (subst (λ (i : ℕ). First (j ∷ ks) i chosen) heads (first_at [] ks refl tt y m))

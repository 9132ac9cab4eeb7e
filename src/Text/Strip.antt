-- ===== src/Text/Strip.antt =====
-- `rstrip` against what stands in front of the characters that it removes.
use Prim.Native.Char.{Char}
use async_hyperliquid.Prelude.{
  ◌≡◌, refl, false, ◌&&◌, [], ◌∷◌, ◌++◌, arith, if◌then◌else◌, string_eq, ◌==◌, beq_refl, nat_eq,
  is_empty, All, int_eq,
}
use async_hyperliquid.Text.{Chars, char_eq, rstrip}

module _ (c : Char) where
  -- Nothing is removed up to a character that differs.
  pub rstrip-append_other :
      (s : Chars) (x : Char) (t : Chars)
      → (x == c) ≡ false
      → rstrip c (s ++ (x ∷ t)) ≡ s ++ (x ∷ rstrip c t)
  unfolding rstrip
  rstrip-append_other [] x t h = ground arith
  rstrip-append_other (y ∷ s) x t h = rw (rstrip-append_other s x t h) (nonempty s)
    where
      nonempty :
          (r : Chars)
          → (if is_empty (r ++ (x ∷ rstrip c t)) && (y == c)
              then []
              else y ∷ (r ++ (x ∷ rstrip c t)))
            ≡ y ∷ (r ++ (x ∷ rstrip c t))
      nonempty [] = refl
      nonempty (z ∷ r) = refl

  abbrev pub Differ : Chars → Type 0
  Differ = All (λ x. (x == c) ≡ false)

  pub rstrip_id : (s : Chars) → Differ s → rstrip c s ≡ s
  unfolding rstrip
  rstrip_id [] h = refl
  rstrip_id (x ∷ s) h = rw (rstrip_id s h.1, h.0) (kept s)
    where
      kept : (r : Chars) → (if is_empty r && false then [] else x ∷ r) ≡ x ∷ r
      kept [] = refl
      kept (y ∷ r) = refl

  -- One trailing `c` behind characters that differ.
  pub rstrip-last : (s : Chars) → Differ s → rstrip c (s ++ (c ∷ [])) ≡ s
  unfolding rstrip
  rstrip-last [] h = rw (beq_refl {B = Char} c) refl
  rstrip-last (x ∷ s) h = rw (rstrip-last s h.1, h.0) (kept s)
    where
      kept : (r : Chars) → (if is_empty r && false then [] else x ∷ r) ≡ x ∷ r
      kept [] = refl
      kept (y ∷ r) = refl

  -- Behind a `c` that is not the last character nothing is removed either.
  pub rstrip-inner :
      (s : Chars) (x : Char) (t : Chars)
      → Differ (x ∷ t)
      → rstrip c (s ++ (c ∷ (x ∷ t))) ≡ s ++ (c ∷ (x ∷ t))
  unfolding rstrip
  rstrip-inner [] x t h = rw (rstrip_id (x ∷ t) h, rstrip) refl
  rstrip-inner (y ∷ s) x t h = rw (rstrip-inner s x t h) (nonempty s)
    where
      nonempty :
          (r : Chars)
          → (if is_empty (r ++ (c ∷ (x ∷ t))) && (y == c) then [] else y ∷ (r ++ (c ∷ (x ∷ t))))
            ≡ y ∷ (r ++ (c ∷ (x ∷ t)))
      nonempty [] = refl
      nonempty (z ∷ r) = refl

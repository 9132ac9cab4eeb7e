-- ===== src/Info/Cache/Safety.antt =====
-- What every interleaving of the calls keeps: the lock is held by the one call that loads, published
-- snapshots only get newer, and a snapshot is replaced by a miss at most once.

use async_hyperliquid.Prelude.{
  ℕ, ◌+◌, ◌≤◌, ◌<◌, ◌≡◌, refl, sym, ap, ◌∙◌, ◌⊎◌, inl, inr, Bool, true, false, List, [], ◌∷◌, arith,
  all, All,
}
use async_hyperliquid.Info.Cache.{
  Cache, Phase, asked_for, cold_waiting, cold_loading, miss_waiting, miss_loading, refresh_asked,
  refresh_waiting, refresh_loading, returned, refreshed, raised, Step, by_first, by_later, Run,
  not_yet, and_then, is_loading, is_new,
}
use async_hyperliquid.Info.Cache.Phases.{latest, held, loads, Fits, IsSafe, ReplacesLatest}
use async_hyperliquid.Info.Cache.Moves.{advance-Moved}

-- A call that does not step keeps its place.
Fits-kept :
    (c c' : Cache) (q : Phase)
    → latest c ≤ latest c'
    → (is_loading q ≡ false) ⊎ (latest c' ≡ latest c)
    → Fits c q
    → Fits c' q
Fits-kept c c' (asked_for coins) g o f = tt
Fits-kept c c' cold_waiting g o f = tt
Fits-kept c c' cold_loading g (inl idle) f = cc
Fits-kept c c' cold_loading g (inr same) f = omega arith
Fits-kept c c' (miss_waiting stale) g o f = omega arith
Fits-kept c c' (miss_loading stale) g (inl idle) f = cc
Fits-kept c c' (miss_loading stale) g (inr same) f = omega arith
Fits-kept c c' refresh_asked g o f = tt
Fits-kept c c' refresh_waiting g o f = tt
Fits-kept c c' refresh_loading g o f = tt
Fits-kept c c' (returned found) g o f = (f.0, omega arith)
Fits-kept c c' refreshed g o f = tt
Fits-kept c c' (raised e) g o f = tt

-- The calls behind the one that steps: none of them loads if that one does.
rest-Fits :
    (c c' : Cache) (ps : List Phase)
    → latest c ≤ latest c'
    → (loads ps ≡ 0) ⊎ (latest c' ≡ latest c)
    → All (Fits c) ps
    → All (Fits c') ps
rest-Fits c c' [] g o f = tt
rest-Fits c c' (p ∷ ps) g (inr same) f =
    (Fits-kept c c' p g (inr same) f.0, rest-Fits c c' ps g (inr same) f.1)
rest-Fits c c' (p ∷ ps) g (inl none_loads) f =
    (Fits-kept c c' p g (inl (ground arith)) f.0, rest-Fits c c' ps g (inl (omega arith)) f.1)

-- What a step does to some of the calls while `k` of the others load.
record Stepped (k : ℕ) (c : Cache) (ps : List Phase) (ids : List ℕ) (c' : Cache) (ps' : List Phase)
    : Type 0 where
  fits : All (Fits c') ps'
  grows : latest c ≤ latest c'
  known_ids : latest c' ≤ c'.next_id
  one_load : k + loads ps' ≡ held c'.locked
  calm : (1 ≤ loads ps) ⊎ (latest c' ≡ latest c)
  replaced : ReplacesLatest c c' ids

held_at_most : (b : Bool) → held b ≤ 1
held_at_most true = omega arith
held_at_most false = omega arith

held_locked : (b : Bool) → 1 ≤ held b → b ≡ true
held_locked true h = refl
held_locked false h = grind arith

held_idle : (b : Bool) → held b ≡ 0 → b ≡ false
held_idle true h = grind arith
held_idle false h = refl

Step-Stepped :
    {c c' : Cache} {ps ps' : List Phase} {ids : List ℕ} (k : ℕ)
    → Step c ps ids c' ps'
    → All (Fits c) ps
    → latest c ≤ c.next_id
    → k + loads ps ≡ held c.locked
    → Stepped k c ps ids c' ps'
Step-Stepped {c} {c'} k (by_first {p} {p'} {ps} e h) f ids one =
    let m = advance-Moved p e f.0 ids (λ l. held_locked c.locked (omega (arith, ap held l))) h in
    record {
      fits = (
        m.fits,
        rest-Fits c c' ps m.grows
            (elim m.calm [
              | inl l ↦ inl (omega (arith, ap held l, held_at_most c.locked))
              | inr same ↦ inr same
            ])
            f.1,
      );
      grows = m.grows;
      known_ids = m.known_ids;
      one_load = omega (arith, m.balance);
      calm = elim m.calm [ inl l ↦ inl (omega (arith, ap held l)) | inr same ↦ inr same ];
      replaced = m.replaced;
    }
Step-Stepped {c} {c'} k (by_later {p} {ps} {ps'} s) f ids one =
    let m = Step-Stepped (k + held (is_loading p)) s f.1 ids (omega arith) in
    record {
      fits = (
        Fits-kept c c' p m.grows
            (elim m.calm [
              | inl l ↦ inl (held_idle (is_loading p) (omega (arith, held_at_most c.locked)))
              | inr same ↦ inr same
            ])
            f.0,
        m.fits,
      );
      grows = m.grows;
      known_ids = m.known_ids;
      one_load = omega (arith, m.one_load);
      calm = elim m.calm [ inl l ↦ inl (omega arith) | inr same ↦ inr same ];
      replaced = m.replaced;
    }

safe-Step-Stepped :
    {c c' : Cache} {ps ps' : List Phase} {ids : List ℕ}
    → IsSafe c ps
    → Step c ps ids c' ps'
    → Stepped 0 c ps ids c' ps'
safe-Step-Stepped safe s = Step-Stepped 0 s safe.fits safe.known_ids (omega (arith, safe.one_load))

-- Below a bound, and each below the one before it: none occurs twice.
abbrev pub IsFalling : ℕ → List ℕ → Type 0
IsFalling bound [] = Unit
IsFalling bound (i ∷ is) = (i < bound) × IsFalling i is

-- Whatever the calls do and however their steps interleave, from a safe state: the lock is held exactly
-- while one call loads, and at most one does; a call that loads for a cold cache has no snapshot
-- published, one that loads after a miss still has the snapshot that missed; and each call that
-- returned has a snapshot that was published.
pub Run-IsSafe :
    {c : Cache} {ps : List Phase} {n : ℕ} {ids : List ℕ} {c' : Cache} {ps' : List Phase}
    → IsSafe c ps
    → Run c ps n ids c' ps'
    → IsSafe c' ps'
Run-IsSafe safe not_yet = safe
Run-IsSafe safe (and_then r s) =
    let before = Run-IsSafe safe r in
    let m = safe-Step-Stepped before s in
    record { one_load = omega (arith, m.one_load); fits = m.fits; known_ids = m.known_ids }

new_idle : (p : Phase) → is_new p ≡ true → is_loading p ≡ false
new_idle (asked_for coins) h = refl
new_idle cold_waiting h = refl
new_idle cold_loading h = cc
new_idle (miss_waiting stale) h = refl
new_idle (miss_loading stale) h = cc
new_idle refresh_asked h = refl
new_idle refresh_waiting h = refl
new_idle refresh_loading h = cc
new_idle (returned found) h = refl
new_idle refreshed h = refl
new_idle (raised e) h = refl

new_loads_none : (ps : List Phase) → all is_new ps ≡ true → loads ps ≡ 0
new_loads_none [] h = refl
new_loads_none (p ∷ ps) h =
    let rest = new_loads_none ps (ground arith) in
    omega (arith, rest, ap held (new_idle p (ground arith)))

new-Fits : (c : Cache) (ps : List Phase) → all is_new ps ≡ true → All (Fits c) ps
new-Fits c [] h = tt
new-Fits c (asked_for coins ∷ ps) h = (tt, new-Fits c ps h)
new-Fits c (refresh_asked ∷ ps) h = (tt, new-Fits c ps h)
new-Fits c (cold_waiting ∷ ps) h = cc
new-Fits c (cold_loading ∷ ps) h = cc
new-Fits c (miss_waiting stale ∷ ps) h = cc
new-Fits c (miss_loading stale ∷ ps) h = cc
new-Fits c (refresh_waiting ∷ ps) h = cc
new-Fits c (refresh_loading ∷ ps) h = cc
new-Fits c (returned found ∷ ps) h = cc
new-Fits c (refreshed ∷ ps) h = cc
new-Fits c (raised e ∷ ps) h = cc

-- Calls that have not begun, with the lock free.
pub new-IsSafe :
    (c : Cache) (ps : List Phase)
    → c.locked ≡ false
    → latest c ≤ c.next_id
    → all is_new ps ≡ true
    → IsSafe c ps
new-IsSafe c ps free ids new = record {
  one_load = new_loads_none ps new ∙ ap held (sym free);
  fits = new-Fits c ps new;
  known_ids = ids;
}

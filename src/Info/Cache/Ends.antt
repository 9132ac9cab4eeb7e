-- ===== src/Info/Cache/Ends.antt =====
-- Calls over the metadata cache come to an end: every run is short, and none is stuck.
use async_hyperliquid.Prelude.{
  ℕ, zero, suc, ◌+◌, ◌*◌, ◌≤◌, String, ◌≡◌, refl, sym, ap, ◌∙◌, inl, inr, Bool, true, false, Option,
  none, some, List, [], ◌∷◌, arith, if◌then◌else◌, Bool-cases, length, all,
}
use async_hyperliquid.Result.{Error, Result, err, ok}
use async_hyperliquid.Metadata.{MetadataSnapshot}
use async_hyperliquid.Info.Cache.{
  Published, Cache, Phase, asked_for, cold_waiting, cold_loading, miss_waiting, miss_loading,
  refresh_asked, refresh_waiting, refresh_loading, returned, refreshed, raised, Event, goes_on,
  load_ends, is_cancelled, taken, asks, ensures, is_same, keeps_stale, advance, Step, by_first,
  by_later, Run, not_yet, and_then, is_finished,
}
use async_hyperliquid.Info.Cache.Phases.{held, loads, IsSafe}
use async_hyperliquid.Info.Cache.Moves.{when_free, either}
use async_hyperliquid.Info.Cache.Safety.{Run-IsSafe}

-- The steps that a call has left at most.
abbrev pub left : Phase → ℕ
left (asked_for coins) = 3
left refresh_asked = 3
left cold_waiting = 2
left (miss_waiting stale) = 2
left refresh_waiting = 2
left cold_loading = 1
left (miss_loading stale) = 1
left refresh_loading = 1
left (returned found) = 0
left refreshed = 0
left (raised e) = 0

abbrev pub all_left : List Phase → ℕ
all_left [] = 0
all_left (p ∷ ps) = left p + all_left ps

asks-left : (found : Option Published) (coins : List String) → left (asks found coins) ≤ 2
asks-left none coins = omega arith
asks-left (some p) coins = ground arith

ensures-left : (c : Cache) (found : Option Published) → left (ensures c found).1 ≤ 1
ensures-left c none = omega arith
ensures-left c (some p) = omega arith

keeps_stale-left : (stale : Published) (e : Error) → left (keeps_stale stale e) ≡ 0
keeps_stale-left stale e = ground arith

left_of :
    {a b : Cache} {p q : Phase}
    → ◌≡◌ {A = Option (Cache × Phase)} (some (a, p)) (some (b, q))
    → left q ≡ left p
left_of h = ap (λ (o : Option (Cache × Phase)). elim o [ none ↦ 0 | some (c, p) ↦ left p ]) (sym h)

advance-left :
    (c : Cache) {c' : Cache} {p' : Phase} (p : Phase) (e : Event)
    → advance c p e ≡ some (c', p')
    → suc (left p') ≤ left p
unfolding advance
advance-left c (asked_for coins) goes_on h = omega (arith, left_of h, asks-left c.published coins)
advance-left c refresh_asked goes_on h = omega (arith, left_of h)
advance-left c cold_waiting goes_on h =
    omega (arith, left_of (when_free c.locked _ h).1, ensures-left c c.published)
advance-left c refresh_waiting goes_on h = omega (arith, left_of (when_free c.locked _ h).1)
advance-left c (miss_waiting stale) goes_on h =
    elim (either (is_same c.published stale) _ _ (when_free c.locked _ h).1) [
      | inl (same, now) ↦ omega (arith, left_of now)
      | inr (different, now) ↦ omega (arith, left_of now)
    ]
advance-left c (miss_loading stale) (load_ends (err x)) h =
    omega (arith, left_of h, keeps_stale-left stale x)
advance-left c (miss_loading stale) (load_ends (ok s)) h = omega (arith, left_of h)
advance-left c cold_loading (load_ends (ok s)) h = omega (arith, left_of h)
advance-left c cold_loading (load_ends (err x)) h = omega (arith, left_of h)
advance-left c refresh_loading (load_ends (ok s)) h = omega (arith, left_of h)
advance-left c refresh_loading (load_ends (err x)) h = omega (arith, left_of h)
advance-left c (asked_for coins) is_cancelled h = omega (arith, left_of h)
advance-left c cold_waiting is_cancelled h = omega (arith, left_of h)
advance-left c (miss_waiting stale) is_cancelled h = omega (arith, left_of h)
advance-left c refresh_asked is_cancelled h = omega (arith, left_of h)
advance-left c refresh_waiting is_cancelled h = omega (arith, left_of h)
advance-left c cold_loading is_cancelled h = omega (arith, left_of h)
advance-left c (miss_loading stale) is_cancelled h = omega (arith, left_of h)
advance-left c refresh_loading is_cancelled h = omega (arith, left_of h)
advance-left c (asked_for coins) (load_ends r) h = cc
advance-left c cold_waiting (load_ends r) h = cc
advance-left c (miss_waiting stale) (load_ends r) h = cc
advance-left c refresh_asked (load_ends r) h = cc
advance-left c refresh_waiting (load_ends r) h = cc
advance-left c cold_loading goes_on h = cc
advance-left c (miss_loading stale) goes_on h = cc
advance-left c refresh_loading goes_on h = cc
advance-left c (returned found) e h = cc
advance-left c refreshed e h = cc
advance-left c (raised x) e h = cc

Step-left :
    {c c' : Cache} {ps ps' : List Phase} {ids : List ℕ}
    → Step c ps ids c' ps'
    → suc (all_left ps') ≤ all_left ps
Step-left {c} (by_first {p} e h) = omega (arith, advance-left c p e h)
Step-left (by_later s) = omega (arith, Step-left s)

left_at_most : (p : Phase) → left p ≤ 3
left_at_most p = ground arith

left-bound : (ps : List Phase) → all_left ps ≤ 3 * length ps
left-bound [] = omega arith
left-bound (p ∷ ps) = omega (arith, left-bound ps, left_at_most p)

Run-left :
    {c : Cache} {ps : List Phase} {n : ℕ} {ids : List ℕ} {c' : Cache} {ps' : List Phase}
    → Run c ps n ids c' ps'
    → n + all_left ps' ≤ all_left ps
Run-left not_yet = omega arith
Run-left (and_then r s) = omega (arith, Run-left r, Step-left s)

-- No run of some calls is longer than three steps for each of them.
pub Run-ends :
    {c : Cache} {ps : List Phase} {n : ℕ} {ids : List ℕ} {c' : Cache} {ps' : List Phase}
    → Run c ps n ids c' ps'
    → n ≤ 3 * length ps
Run-ends {c} {ps} r = omega (arith, Run-left r, left-bound ps)

-- A step without a cancellation; a load ends with `r`.
abbrev pub IsOwn :
    Result MetadataSnapshot
    → {c c' : Cache} {ps ps' : List Phase} {ids : List ℕ} → Step c ps ids c' ps'
    → Type 0
IsOwn r (by_first is_cancelled h) = ⊥
IsOwn r (by_first goes_on h) = Unit
IsOwn r (by_first (load_ends q) h) = q ≡ r
IsOwn r (by_later s) = IsOwn r s

abbrev pub IsOwnRun :
    Result MetadataSnapshot
    → {c : Cache} {ps : List Phase} {n : ℕ} {ids : List ℕ} {c' : Cache} {ps' : List Phase}
    → Run c ps n ids c' ps'
    → Type 0
IsOwnRun r not_yet = Unit
IsOwnRun r (and_then run s) = IsOwn r s × IsOwnRun r run

-- A step that some call can take by itself.
data Next (r : Result MetadataSnapshot) (c : Cache) (ps : List Phase) : Type 0 where
  next_by :
      {ids : List ℕ} {c' : Cache} {ps' : List Phase} (s : Step c ps ids c' ps')
      → IsOwn r s
      → Next r c ps

Next-goes_on :
    {r : Result MetadataSnapshot} {c c' : Cache} {p p' : Phase} {ps : List Phase}
    → advance c p goes_on ≡ some (c', p')
    → Next r c (p ∷ ps)
Next-goes_on h = next_by (by_first goes_on h) tt

Next-load_ends :
    {c c' : Cache} {p p' : Phase} {ps : List Phase} (r : Result MetadataSnapshot)
    → advance c p (load_ends r) ≡ some (c', p')
    → Next r c (p ∷ ps)
Next-load_ends r h = next_by (by_first (load_ends r) h) refl

Next-later :
    {r : Result MetadataSnapshot} {c : Cache} (p : Phase) {ps : List Phase}
    → Next r c ps
    → Next r c (p ∷ ps)
Next-later p (next_by s h) = next_by (by_later s) h

when_unlocked {ℓ} :
    {A : Type ℓ} (locked : Bool) (there : Option A)
    → locked ≡ false
    → (if locked then none else there) ≡ there
when_unlocked locked there free = rw free refl

missed-Next :
    {r : Result MetadataSnapshot} (c : Cache) (stale : Published) (ps : List Phase)
    → c.locked ≡ false
    → (same : Bool) → is_same c.published stale ≡ same
    → Next r c (miss_waiting stale ∷ ps)
unfolding advance
missed-Next c stale ps free true same =
    Next-goes_on {c' = taken c} {p' = miss_loading stale}
      (when_unlocked c.locked _ free ∙ rw same refl)
missed-Next c stale ps free false same =
    Next-goes_on {c' = c} {p' = returned c.published} (when_unlocked c.locked _ free ∙ rw same refl)

-- A run that has come to an end without a cancellation, each load with the result `r`.
pub data Ended (r : Result MetadataSnapshot) (c : Cache) (ps : List Phase) : Type 0 where
  ended :
      {n : ℕ} {ids : List ℕ} {c' : Cache} {ps' : List Phase} (run : Run c ps n ids c' ps')
      → IsOwnRun r run
      → all is_finished ps' ≡ true
      → Ended r c ps

module _ (r : Result MetadataSnapshot) where
  loading-Next : (c : Cache) (ps : List Phase) → 1 ≤ loads ps → Next r c ps
  unfolding advance
  loading-Next c [] h = grind arith
  loading-Next c (cold_loading ∷ ps) h = Next-load_ends r refl
  loading-Next c (miss_loading stale ∷ ps) h = Next-load_ends r refl
  loading-Next c (refresh_loading ∷ ps) h = Next-load_ends r refl
  loading-Next c (asked_for coins ∷ ps) h =
      Next-later (asked_for coins) (loading-Next c ps (omega arith))
  loading-Next c (cold_waiting ∷ ps) h = Next-later (cold_waiting) (loading-Next c ps (omega arith))
  loading-Next c (miss_waiting stale ∷ ps) h =
      Next-later (miss_waiting stale) (loading-Next c ps (omega arith))
  loading-Next c (refresh_asked ∷ ps) h =
      Next-later (refresh_asked) (loading-Next c ps (omega arith))
  loading-Next c (refresh_waiting ∷ ps) h =
      Next-later (refresh_waiting) (loading-Next c ps (omega arith))
  loading-Next c (returned found ∷ ps) h =
      Next-later (returned found) (loading-Next c ps (omega arith))
  loading-Next c (refreshed ∷ ps) h = Next-later (refreshed) (loading-Next c ps (omega arith))
  loading-Next c (raised e ∷ ps) h = Next-later (raised e) (loading-Next c ps (omega arith))

  free-Next :
      (c : Cache) (ps : List Phase) → c.locked ≡ false → all is_finished ps ≡ false → Next r c ps
  unfolding advance
  free-Next c [] free h = cc
  free-Next c (asked_for coins ∷ ps) free h = Next-goes_on refl
  free-Next c (refresh_asked ∷ ps) free h = Next-goes_on refl
  free-Next c (cold_waiting ∷ ps) free h = Next-goes_on (when_unlocked c.locked _ free)
  free-Next c (refresh_waiting ∷ ps) free h = Next-goes_on (when_unlocked c.locked _ free)
  free-Next c (miss_waiting stale ∷ ps) free h = missed-Next c stale ps free _ refl
  free-Next c (cold_loading ∷ ps) free h = Next-load_ends r refl
  free-Next c (miss_loading stale ∷ ps) free h = Next-load_ends r refl
  free-Next c (refresh_loading ∷ ps) free h = Next-load_ends r refl
  free-Next c (returned found ∷ ps) free h = Next-later (returned found) (free-Next c ps free h)
  free-Next c (refreshed ∷ ps) free h = Next-later (refreshed) (free-Next c ps free h)
  free-Next c (raised e ∷ ps) free h = Next-later (raised e) (free-Next c ps free h)

  -- No safe state is stuck: while a call is unfinished, one can go on, or its load can end.
  safe-Next : (c : Cache) (ps : List Phase) → IsSafe c ps → all is_finished ps ≡ false → Next r c ps
  safe-Next c ps safe h = elim (Bool-cases c.locked) [
    | inl busy ↦ loading-Next c ps (omega (arith, safe.one_load, ap held busy))
    | inr free ↦ free-Next c ps free h
  ]

  Run-on :
      (fuel : ℕ) {c : Cache} {ps : List Phase} {n : ℕ} {ids : List ℕ} {c' : Cache}
      {ps' : List Phase}
      → all_left ps' ≤ fuel
      → IsSafe c' ps'
      → (run : Run c ps n ids c' ps') → IsOwnRun r run
      → Ended r c ps
  Run-on zero {ps' = ps'} enough safe run own = elim (Bool-cases (all is_finished ps')) [
    | inl finished ↦ ended run own finished
    | inr more ↦ elim (safe-Next _ ps' safe more) [
      | next_by s h ↦ absurd (omega (arith, Step-left s))
    ]
  ]
  Run-on (suc fuel) {ps' = ps'} enough safe run own = elim (Bool-cases (all is_finished ps')) [
    | inl finished ↦ ended run own finished
    | inr more ↦ elim (safe-Next _ ps' safe more) [
      | next_by s h ↦
          Run-on fuel (omega (arith, Step-left s)) (Run-IsSafe safe (and_then not_yet s))
            (and_then run s) (h, own)
    ]
  ]

  -- From every safe state, and so from calls that have not begun, the calls can all come to an end by
  -- themselves, without a cancellation and whatever result every load ends with: no call waits for ever.
  pub all_end : {c : Cache} {ps : List Phase} → IsSafe c ps → Ended r c ps
  all_end {c} {ps} safe = Run-on (all_left ps) (omega arith) safe not_yet tt

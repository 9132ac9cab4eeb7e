-- ===== src/Info/Cache/Phases.antt =====
-- What is true of the calls and of the snapshot while they are under way.
use async_hyperliquid.Prelude.{
  ℕ, suc, ◌+◌, ◌≤◌, ◌<◌, ◌≡◌, Bool, true, false, Option, none, some, List, [], ◌∷◌, All,
}
use async_hyperliquid.Info.Cache.{
  Published, Cache, Phase, asked_for, cold_waiting, cold_loading, miss_waiting, miss_loading,
  refresh_asked, refresh_waiting, refresh_loading, returned, refreshed, raised, is_loading,
}

-- 0 for no snapshot, and one more than the identity of a snapshot.
abbrev pub age : Option Published → ℕ
age none = 0
age (some p) = suc p.id

abbrev pub latest : Cache → ℕ
latest c = age c.published

abbrev pub held : Bool → ℕ
held true = 1
held false = 0

-- The number of calls that load.
abbrev pub loads : List Phase → ℕ
loads [] = 0
loads (p ∷ ps) = held (is_loading p) + loads ps

-- What is known of a call by where it stands: a load of a cold call finds no snapshot, a load after a
-- miss still finds the snapshot that missed, and a call returns a snapshot that was published.
abbrev pub Fits : Cache → Phase → Type 0
Fits c cold_loading = latest c ≡ 0
Fits c (miss_waiting stale) = suc stale.id ≤ latest c
Fits c (miss_loading stale) = latest c ≡ suc stale.id
Fits c (returned found) = (1 ≤ age found) × (age found ≤ latest c)
Fits c (asked_for coins) = Unit
Fits c cold_waiting = Unit
Fits c refresh_asked = Unit
Fits c refresh_waiting = Unit
Fits c refresh_loading = Unit
Fits c refreshed = Unit
Fits c (raised e) = Unit

pub record IsSafe (c : Cache) (ps : List Phase) : Type 0 where
  pub one_load : loads ps ≡ held c.locked
  pub fits : All (Fits c) ps
  pub known_ids : latest c ≤ c.next_id

-- At most one snapshot is replaced, and it is the latest one.
abbrev pub ReplacesLatest : Cache → Cache → List ℕ → Type 0
ReplacesLatest c c' [] = Unit
ReplacesLatest c c' (i ∷ []) = (suc i ≡ latest c) × (latest c < latest c')
ReplacesLatest c c' (i ∷ (j ∷ is)) = ⊥

-- ===== src/Info/Cache.antt =====
-- src/async_hyperliquid/info.py: the metadata cache while several calls are under way. A call runs
-- without a break up to its next `await`, so the state of a call is where it waits, and one step takes
-- it to its next wait. A step may be taken by any call that is not waiting for a lock that is held;
-- asyncio picks one of them. A snapshot has an identity, which `is` compares.
pub mod Phases
pub mod Moves
pub mod Safety
pub mod Ends
pub mod Alone
use async_hyperliquid.Prelude.{
  ℕ, suc, String, ◌≡◌, Bool, true, false, Option, none, some, List, [], ◌∷◌, ◌++◌, if◌then◌else◌,
  string_eq, ◌==◌, nat_eq, all, int_eq,
}
use async_hyperliquid.Result.{Error, other, Result, err, ok}
use async_hyperliquid.Metadata.{MetadataSnapshot}
use async_hyperliquid.Metadata.Lookup.{is_known_coin}
use async_hyperliquid.Info.Metadata.{is_caught}

pub record Published : Type 0 where
  pub id : ℕ
  pub snapshot : MetadataSnapshot

-- `_metadata`, whether `_metadata_lock` is held, and the identity of the next snapshot.
pub record Cache : Type 0 where
  pub published : Option Published
  pub locked : Bool
  pub next_id : ℕ

-- Where a call of `_metadata_for` or `refresh_metadata` stands. One that waits with `cold` found no
-- snapshot; one that waits with a snapshot missed a coin in it.
pub data Phase : Type 0 where
  asked_for : List String → Phase
  cold_waiting cold_loading : Phase
  miss_waiting miss_loading : Published → Phase
  refresh_asked refresh_waiting refresh_loading : Phase
  returned : Option Published → Phase
  refreshed : Phase
  raised : Error → Phase

-- What happens to the call that takes the step: it goes on, its load ends, or it is cancelled.
pub data Event : Type 0 where
  goes_on : Event
  load_ends : Result MetadataSnapshot → Event
  is_cancelled : Event

abbrev pub released : Cache → Cache
released c = record c { locked = false }

abbrev pub taken : Cache → Cache
taken c = record c { locked = true }

-- A new snapshot is published and the lock released.
abbrev pub renewed : MetadataSnapshot → Cache → Cache
renewed snapshot c = record {
  published = some (record { id = c.next_id; snapshot = snapshot });
  locked = false;
  next_id = suc c.next_id;
}

-- `_metadata_for` up to its first wait.
abbrev pub asks : Option Published → List String → Phase
asks none coins = cold_waiting
asks (some p) coins =
    if all (is_known_coin p.snapshot) coins then returned (some p) else miss_waiting p

-- `_ensure_metadata` under the lock
abbrev pub ensures : Cache → Option Published → Cache × Phase
ensures c none = (taken c, cold_loading)
ensures c (some p) = (c, returned (some p))

-- `self._metadata is snapshot`
abbrev pub is_same : Option Published → Published → Bool
is_same none stale = false
is_same (some p) stale = p.id == stale.id

-- The end of a load, under the lock.
abbrev pub loaded_for :
    Cache → Result MetadataSnapshot → (Published → Phase) → (Error → Phase) → Cache × Phase
loaded_for c (ok s) returns fails = (renewed s c, returns (record { id = c.next_id; snapshot = s }))
loaded_for c (err e) returns fails = (released c, fails e)

abbrev pub keeps_stale : Published → Error → Phase
keeps_stale stale e = if is_caught e then returned (some stale) else raised e

-- One step of a call, none if it cannot take the step.
unfoldable pub advance : Cache → Phase → Event → Option (Cache × Phase)
advance c (asked_for coins) goes_on = some (c, asks c.published coins)
advance c cold_waiting goes_on = if c.locked then none else some (ensures c c.published)
advance c (miss_waiting stale) goes_on =
    if c.locked
    then none
    else if is_same c.published stale
    then some (taken c, miss_loading stale)
    else some (c, returned c.published)
advance c refresh_asked goes_on = some (c, refresh_waiting)
advance c refresh_waiting goes_on = if c.locked then none else some (taken c, refresh_loading)
advance c cold_loading (load_ends r) = some (loaded_for c r (λ p. returned (some p)) raised)
advance c (miss_loading stale) (load_ends r) =
    some (loaded_for c r (λ p. returned (some p)) (keeps_stale stale))
advance c refresh_loading (load_ends r) = some (loaded_for c r (λ p. refreshed) raised)
advance c (asked_for coins) is_cancelled = some (c, raised other)
advance c cold_waiting is_cancelled = some (c, raised other)
advance c (miss_waiting stale) is_cancelled = some (c, raised other)
advance c refresh_asked is_cancelled = some (c, raised other)
advance c refresh_waiting is_cancelled = some (c, raised other)
advance c cold_loading is_cancelled = some (released c, raised other)
advance c (miss_loading stale) is_cancelled = some (released c, raised other)
advance c refresh_loading is_cancelled = some (released c, raised other)
advance c p e = none

-- The snapshot that a miss replaces by the step, by its identity.
abbrev pub replaces : Phase → Event → List ℕ
replaces (miss_loading stale) (load_ends (ok s)) = stale.id ∷ []
replaces _ _ = []

-- A step of one of the calls, with what a miss replaces by it.
pub data Step (c : Cache) : List Phase → List ℕ → Cache → List Phase → Type 0 where
  by_first :
      {p p' : Phase} {ps : List Phase} {c' : Cache} (e : Event)
      → advance c p e ≡ some (c', p')
      → Step c (p ∷ ps) (replaces p e) c' (p' ∷ ps)
  by_later :
      {p : Phase} {ps ps' : List Phase} {ids : List ℕ} {c' : Cache}
      → Step c ps ids c' ps'
      → Step c (p ∷ ps) ids c' (p ∷ ps')

-- A run, with its number of steps and the snapshots that misses replaced, the last first.
pub data Run (c : Cache) (ps : List Phase) : ℕ → List ℕ → Cache → List Phase → Type 0 where
  not_yet : Run c ps 0 [] c ps
  and_then :
      {n : ℕ} {ids more : List ℕ} {c' c'' : Cache} {ps' ps'' : List Phase}
      → Run c ps n ids c' ps'
      → Step c' ps' more c'' ps''
      → Run c ps (suc n) (more ++ ids) c'' ps''

abbrev pub is_loading : Phase → Bool
is_loading cold_loading = true
is_loading (miss_loading stale) = true
is_loading refresh_loading = true
is_loading _ = false

abbrev pub is_finished : Phase → Bool
is_finished (returned p) = true
is_finished refreshed = true
is_finished (raised e) = true
is_finished _ = false

-- A call that has not begun.
abbrev pub is_new : Phase → Bool
is_new (asked_for coins) = true
is_new refresh_asked = true
is_new _ = false

-- ===== src/Info/Cache/Moves.antt =====
-- What one step does to the call that takes it, to the lock and to the snapshot.
use mathlib.Core.Path.{subst}
use async_hyperliquid.Metadata.Lookup.{is_known_coin}
use async_hyperliquid.Prelude.{
  suc, ◌+◌, ◌≤◌, String, ◌≡◌, refl, ap, ◌⊎◌, inl, inr, Bool, true, false, Option, none, some, List,
  [], arith, if◌then◌else◌, Bool-cases, nat_eq, all,
}
use async_hyperliquid.Result.{Error, err, ok}
use async_hyperliquid.Metadata.{MetadataSnapshot}
use async_hyperliquid.Info.Metadata.{is_caught}
use async_hyperliquid.Info.Cache.{
  Published, Cache, Phase, asked_for, cold_waiting, cold_loading, miss_waiting, miss_loading,
  refresh_asked, refresh_waiting, refresh_loading, returned, refreshed, raised, Event, goes_on,
  load_ends, is_cancelled, released, taken, renewed, asks, ensures, is_same, keeps_stale, advance,
  replaces, is_loading,
}
use async_hyperliquid.Info.Cache.Phases.{age, latest, held, Fits, ReplacesLatest}

-- What the step of one call does.
pub record Moved (c : Cache) (p : Phase) (e : Event) (c' : Cache) (p' : Phase) : Type 0 where
  pub fits : Fits c' p'
  pub grows : latest c ≤ latest c'
  pub known_ids : latest c' ≤ c'.next_id
  pub balance : held (is_loading p') + held c.locked ≡ held (is_loading p) + held c'.locked
  pub calm : (is_loading p ≡ true) ⊎ (latest c' ≡ latest c)
  pub replaced : ReplacesLatest c c' (replaces p e)

Moved-to :
    {c c' a : Cache} {p p' b : Phase} {e : Event}
    → Moved c p e a b
    → ◌≡◌ {A = Option (Cache × Phase)} (some (a, b)) (some (c', p'))
    → Moved c p e c' p'
Moved-to {c} {c'} {a} {p} {p'} {b} {e} m h =
    subst
      (λ (o : Option (Cache × Phase)). elim o [ none ↦ Unit {0} | some (d, q) ↦ Moved c p e d q ]) h
      m

stays :
    {c : Cache} {p p' : Phase} {e : Event}
    → latest c ≤ c.next_id
    → Fits c p'
    → is_loading p ≡ false
    → is_loading p' ≡ false
    → replaces p e ≡ []
    → Moved c p e c p'
stays {c} ids f n n' r = record {
  fits = f;
  grows = omega arith;
  known_ids = ids;
  balance = rw (n, n') refl;
  calm = inr refl;
  replaced = rw r tt;
}

takes :
    {c : Cache} {p p' : Phase} {e : Event}
    → latest c ≤ c.next_id
    → c.locked ≡ false
    → Fits (taken c) p'
    → is_loading p ≡ false
    → is_loading p' ≡ true
    → replaces p e ≡ []
    → Moved c p e (taken c) p'
takes {c} ids free f n n' r = record {
  fits = f;
  grows = omega arith;
  known_ids = ids;
  balance = rw (n, n', free) refl;
  calm = inr refl;
  replaced = rw r tt;
}

releases :
    {c : Cache} {p p' : Phase} {e : Event}
    → latest c ≤ c.next_id
    → c.locked ≡ true
    → Fits (released c) p'
    → is_loading p ≡ true
    → is_loading p' ≡ false
    → replaces p e ≡ []
    → Moved c p e (released c) p'
releases {c} ids busy f n n' r = record {
  fits = f;
  grows = omega arith;
  known_ids = ids;
  balance = rw (n, n', busy) refl;
  calm = inl n;
  replaced = rw r tt;
}

renews :
    {c : Cache} {p p' : Phase} {e : Event} (s : MetadataSnapshot)
    → latest c ≤ c.next_id
    → c.locked ≡ true
    → Fits (renewed s c) p'
    → is_loading p ≡ true
    → is_loading p' ≡ false
    → ReplacesLatest c (renewed s c) (replaces p e)
    → Moved c p e (renewed s c) p'
renews {c} {p} {p'} {e} s ids busy f n n' r = record {
  fits = f;
  grows = omega arith;
  known_ids = omega arith;
  balance = rw (n, n', busy) refl;
  calm = inl n;
  replaced = r;
}

-- A step under the lock is taken when the lock is free.
pub when_free {ℓ} :
    {A : Type ℓ} (locked : Bool) (there : Option A) {y : A}
    → (if locked then none else there) ≡ some y
    → (locked ≡ false) × (there ≡ some y)
when_free true there h = cc
when_free false there h = (refl, h)

pub either {ℓ} :
    {A : Type ℓ} (test : Bool) (x y : Option A) {z : A}
    → (if test then x else y) ≡ some z
    → ((test ≡ true) × (x ≡ some z)) ⊎ ((test ≡ false) × (y ≡ some z))
either true x y h = inl (refl, h)
either false x y h = inr (refl, h)

ensures-Moved :
    (c : Cache) (found : Option Published)
    → c.published ≡ found
    → c.locked ≡ false
    → latest c ≤ c.next_id
    → Moved c cold_waiting goes_on (ensures c found).0 (ensures c found).1
ensures-Moved c none same free ids = takes ids free (rw same refl) refl refl refl
ensures-Moved c (some p) same free ids =
    stays ids (omega arith, rw same (omega arith)) refl refl refl

asks-Fits :
    (c : Cache) (found : Option Published) (coins : List String)
    → c.published ≡ found
    → Fits c (asks found coins)
asks-Fits c none coins same = tt
asks-Fits c (some p) coins same = elim (Bool-cases (all (is_known_coin p.snapshot) coins)) [
  | inl k ↦ rw k (omega arith, rw same (omega arith))
  | inr k ↦ rw k (rw same (omega arith))
]

asks-idle : (found : Option Published) (coins : List String) → is_loading (asks found coins) ≡ false
asks-idle none coins = refl
asks-idle (some p) coins = ground arith

is_same-age :
    (found : Option Published) (stale : Published)
    → is_same found stale ≡ true
    → age found ≡ suc stale.id
is_same-age none stale h = cc
is_same-age (some p) stale h = ap suc ((nat_eq.is_same_iff p.id stale.id).0 h)

keeps_stale-Fits :
    (c : Cache) (stale : Published) (e : Error)
    → latest c ≡ suc stale.id
    → Fits c (keeps_stale stale e)
keeps_stale-Fits c stale e f = elim (Bool-cases (is_caught e)) [
  | inl k ↦ rw k (omega arith, omega arith)
  | inr k ↦ rw k tt
]

keeps_stale-idle : (stale : Published) (e : Error) → is_loading (keeps_stale stale e) ≡ false
keeps_stale-idle stale e = ground arith

pub advance-Moved :
    {c c' : Cache} {p' : Phase} (p : Phase) (e : Event)
    → Fits c p
    → latest c ≤ c.next_id
    → (is_loading p ≡ true → c.locked ≡ true)
    → advance c p e ≡ some (c', p')
    → Moved c p e c' p'
unfolding advance
advance-Moved {c} (asked_for coins) goes_on f ids busy h =
    Moved-to
      (stays ids (asks-Fits c c.published coins refl) refl (asks-idle c.published coins) refl) h
advance-Moved {c} cold_waiting goes_on f ids busy h =
    let (free, there) = when_free c.locked _ h in
    Moved-to (ensures-Moved c c.published refl free ids) there
advance-Moved {c} (miss_waiting stale) goes_on f ids busy h =
    let (free, there) = when_free c.locked _ h in
    elim (either (is_same c.published stale) _ _ there) [
      | inl (same, now) ↦
          Moved-to (takes ids free (is_same-age c.published stale same) refl refl refl) now
      | inr (different, now) ↦ Moved-to (stays ids (omega arith, omega arith) refl refl refl) now
    ]
advance-Moved refresh_asked goes_on f ids busy h = Moved-to (stays ids tt refl refl refl) h
advance-Moved {c} refresh_waiting goes_on f ids busy h =
    let (free, there) = when_free c.locked _ h in Moved-to (takes ids free tt refl refl refl) there
advance-Moved cold_loading (load_ends (ok s)) f ids busy h =
    Moved-to (renews s ids (busy refl) (omega arith, omega arith) refl refl tt) h
advance-Moved cold_loading (load_ends (err raised_)) f ids busy h =
    Moved-to (releases ids (busy refl) tt refl refl refl) h
advance-Moved (miss_loading stale) (load_ends (ok s)) f ids busy h =
    Moved-to
      (renews s ids (busy refl) (omega arith, omega arith) refl refl (omega arith, omega arith)) h
advance-Moved {c} (miss_loading stale) (load_ends (err raised_)) f ids busy h =
    Moved-to
      (releases ids (busy refl) (keeps_stale-Fits (released c) stale raised_ f) refl
        (keeps_stale-idle stale raised_) refl)
      h
advance-Moved refresh_loading (load_ends (ok s)) f ids busy h =
    Moved-to (renews s ids (busy refl) tt refl refl tt) h
advance-Moved refresh_loading (load_ends (err raised_)) f ids busy h =
    Moved-to (releases ids (busy refl) tt refl refl refl) h
advance-Moved (asked_for coins) is_cancelled f ids busy h = Moved-to (stays ids tt refl refl refl) h
advance-Moved cold_waiting is_cancelled f ids busy h = Moved-to (stays ids tt refl refl refl) h
advance-Moved (miss_waiting stale) is_cancelled f ids busy h =
    Moved-to (stays ids tt refl refl refl) h
advance-Moved refresh_asked is_cancelled f ids busy h = Moved-to (stays ids tt refl refl refl) h
advance-Moved refresh_waiting is_cancelled f ids busy h = Moved-to (stays ids tt refl refl refl) h
advance-Moved cold_loading is_cancelled f ids busy h =
    Moved-to (releases ids (busy refl) tt refl refl refl) h
advance-Moved (miss_loading stale) is_cancelled f ids busy h =
    Moved-to (releases ids (busy refl) tt refl refl refl) h
advance-Moved refresh_loading is_cancelled f ids busy h =
    Moved-to (releases ids (busy refl) tt refl refl refl) h
advance-Moved (asked_for coins) (load_ends r) f ids busy h = cc
advance-Moved cold_waiting (load_ends r) f ids busy h = cc
advance-Moved (miss_waiting stale) (load_ends r) f ids busy h = cc
advance-Moved refresh_asked (load_ends r) f ids busy h = cc
advance-Moved refresh_waiting (load_ends r) f ids busy h = cc
advance-Moved cold_loading goes_on f ids busy h = cc
advance-Moved (miss_loading stale) goes_on f ids busy h = cc
advance-Moved refresh_loading goes_on f ids busy h = cc
advance-Moved (returned found) e f ids busy h = cc
advance-Moved refreshed e f ids busy h = cc
advance-Moved (raised x) e f ids busy h = cc

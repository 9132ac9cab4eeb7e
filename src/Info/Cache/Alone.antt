-- ===== src/Info/Cache/Alone.antt =====
-- A call of `_metadata_for` that is not disturbed by others: the interleaved steps give what the method
-- gives when it runs to its end.
use async_hyperliquid.Prelude.{
  ℕ, String, ◌≡◌, refl, sym, ap, ◌∙◌, inl, inr, Bool, true, false, ◌||◌, Option, none, some, List,
  [], ◌∷◌, if◌then◌else◌, Bool-cases, nat_eq, all, All,
}
use async_hyperliquid.Result.{Error, Result, err, ok}
use async_hyperliquid.Json.{JsonValue}
use async_hyperliquid.Metadata.{MetadataSnapshot}
use async_hyperliquid.Metadata.Lookup.{is_known_coin}
use async_hyperliquid.World.{Externals, World}
use async_hyperliquid.World.Exec.{Exec, pure, raise, lift, gets, modify, continue, ◌>>=◌}
use async_hyperliquid.Transport.Lifecycle.{post_json-sends_iff_open}
use async_hyperliquid.Info.{expect_object, expect_list}
use async_hyperliquid.Info.Tasks.{run_tasks, wait_for_tasks}
use async_hyperliquid.Info.Client.{InfoClient, query, ask, ask_for}
use async_hyperliquid.Info.Market.{all_perp_metas, perp_dexes, spot_meta, perp_dex_names}
use async_hyperliquid.Info.Metadata.{
  is_caught, publish, is_cold, reloaded, loading_tasks, load_metadata, ensured, ensure_metadata,
  reload, metadata_for,
}
use async_hyperliquid.Info.Cache.{
  Published, Cache, Phase, asked_for, miss_waiting, miss_loading, returned, raised, goes_on,
  load_ends, taken, advance, by_first, Run, not_yet, and_then,
}

-- A method that leaves the cached metadata alone.
record IsReading {ℓ} {A : Type ℓ} (m : Exec A) : Type 0 where
  at : (w : World) → (m w).1.metadata ≡ w.metadata

IsReading-lift {ℓ} : {A : Type ℓ} (r : Result A) → IsReading (lift r)
unfolding lift
IsReading-lift r = record { at = λ w. refl }

IsReading-pure {ℓ} : {A : Type ℓ} (a : A) → IsReading (pure a)
unfolding pure
IsReading-pure a = record { at = λ w. refl }

continue-reading {ℓ κ} :
    {A : Type ℓ} {B : Type κ} (r : Result A) (f : A → Exec B) (v : World)
    → ((a : A) → IsReading (f a))
    → (continue r f v).1.metadata ≡ v.metadata
continue-reading (ok a) f v k = (k a).at v
continue-reading (err e) f v k = refl

IsReading-bind {ℓ κ} :
    {A : Type ℓ} {B : Type κ} (m : Exec A) (f : A → Exec B)
    → IsReading m
    → ((a : A) → IsReading (f a))
    → IsReading (m >>= f)
unfolding ◌>>=◌
IsReading-bind m f h k = record { at = λ w. continue-reading (m w).0 f (m w).1 k ∙ h.at w }

run_tasks-reading {ℓ} :
    {A : Type ℓ} (ms : List (Exec A)) (w : World)
    → All IsReading ms
    → (run_tasks ms w).1.metadata ≡ w.metadata
unfolding run_tasks
run_tasks-reading [] w h = refl
run_tasks-reading (m ∷ ms) w h = run_tasks-reading ms (m w).1 h.1 ∙ h.0.at w

-- The end of a call that found no snapshot.
abbrev cold_end : Result MetadataSnapshot → World → Result MetadataSnapshot × World
cold_end (ok s) v = (ok s, record v { metadata = some s })
cold_end (err e) v = (err e, v)

abbrev pub contents : Option Published → Option MetadataSnapshot
contents none = none
contents (some p) = some p.snapshot

-- What a call that has come to its end gives.
abbrev pub result_of : Phase → Option (Result MetadataSnapshot)
result_of (returned (some p)) = some (ok p.snapshot)
result_of (raised e) = some (err e)
result_of _ = none

abbrev pub unlocked_cache : Option Published → ℕ → Cache
unlocked_cache found n = record { published = found; locked = false; next_id = n }

-- A call can run alone, to a result, with the lock free again and the given snapshot published.
pub data RunsTo (c : Cache) (p : Phase) (r : Result MetadataSnapshot) (m : Option MetadataSnapshot)
    : Type 0 where
  runs_to :
      {n : ℕ} {ids : List ℕ} {c' : Cache} {p' : Phase}
      → Run c (p ∷ []) n ids c' (p' ∷ [])
      → result_of p' ≡ some r
      → contents c'.published ≡ m
      → c'.locked ≡ false
      → RunsTo c p r m

cold-RunsTo :
    (coins : List String) (n : ℕ) (r : Result MetadataSnapshot) (v : World)
    → v.metadata ≡ none
    → RunsTo (unlocked_cache none n) (asked_for coins) (cold_end r v).0 (cold_end r v).1.metadata
unfolding advance
cold-RunsTo coins n (ok s) v h =
    runs_to
      (and_then (and_then (and_then not_yet (by_first goes_on refl)) (by_first goes_on refl))
        (by_first (load_ends (ok s)) refl))
      refl refl refl
cold-RunsTo coins n (err e) v h =
    runs_to
      (and_then (and_then (and_then not_yet (by_first goes_on refl)) (by_first goes_on refl))
        (by_first (load_ends (err e)) refl))
      refl (sym h) refl

-- A call that misses, up to its load.
missed :
    (coins : List String) (n : ℕ) (p : Published)
    → all (is_known_coin p.snapshot) coins ≡ false
    → (ids : List ℕ) × Run
        (unlocked_cache (some p) n)
        (asked_for coins ∷ [])
        2
        ids
        (taken (unlocked_cache (some p) n))
        (miss_loading p ∷ [])
unfolding advance
missed coins n p unknown = (
  [],
  and_then
      (and_then {c' = unlocked_cache (some p) n} not_yet
        (by_first {p' = miss_waiting p} {c' = unlocked_cache (some p) n} goes_on (rw unknown refl)))
      (by_first {p' = miss_loading p} {c' = taken (unlocked_cache (some p) n)} goes_on
        (rw ((nat_eq.is_same_iff p.id p.id).1 refl) refl)),
)

failed-RunsTo :
    (coins : List String) (n : ℕ) (p : Published) (e : Error) (v : World)
    → v.metadata ≡ some p.snapshot
    → all (is_known_coin p.snapshot) coins ≡ false
    → (caught : Bool) → is_caught e ≡ caught
    → RunsTo
        (unlocked_cache (some p) n)
        (asked_for coins)
        ((if caught then pure p.snapshot else raise e) v).0
        ((if caught then pure p.snapshot else raise e) v).1.metadata
unfolding advance pure raise
failed-RunsTo coins n p e v h unknown true same =
    runs_to
      (and_then (missed coins n p unknown).1 (
        by_first {p' = returned (some p)} {c' = unlocked_cache (some p) n} (load_ends (err e))
          (rw same refl)))
      refl (sym h) refl
failed-RunsTo coins n p e v h unknown false same =
    runs_to
      (and_then (missed coins n p unknown).1 (
        by_first {p' = raised e} {c' = unlocked_cache (some p) n} (load_ends (err e))
          (rw same refl)))
      refl (sym h) refl

miss-RunsTo :
    (coins : List String) (n : ℕ) (p : Published) (r : Result MetadataSnapshot) (v : World)
    → v.metadata ≡ some p.snapshot
    → all (is_known_coin p.snapshot) coins ≡ false
    → RunsTo
        (unlocked_cache (some p) n)
        (asked_for coins)
        (reloaded p.snapshot r v).0
        (reloaded p.snapshot r v).1.metadata
unfolding advance ◌>>=◌ pure raise modify
miss-RunsTo coins n p (ok s) v h unknown =
    runs_to (and_then (missed coins n p unknown).1 (by_first (load_ends (ok s)) refl)) refl refl
      refl
miss-RunsTo coins n p (err e) v h unknown = failed-RunsTo coins n p e v h unknown (is_caught e) refl

hit-RunsTo :
    (coins : List String) (n : ℕ) (p : Published) (w : World)
    → some p.snapshot ≡ w.metadata
    → all (is_known_coin p.snapshot) coins ≡ true
    → RunsTo (unlocked_cache (some p) n) (asked_for coins) (ok p.snapshot) w.metadata
unfolding advance
hit-RunsTo coins n p w h known =
    runs_to
      (and_then not_yet (
        by_first {p' = returned (some p)} {c' = unlocked_cache (some p) n} goes_on (rw known refl)))
      refl h refl

module _ (x : Externals) (i : InfoClient) where
  ask_for-IsReading {ℓ} :
      {A : Type ℓ} (read : JsonValue → String → Result A) (t : String)
      (rest : List (String × JsonValue))
      → IsReading (ask_for x i read t rest)
  unfolding ask_for ask
  ask_for-IsReading read t rest =
      IsReading-bind _ _
        (record {
          at = λ w. elim (post_json-sends_iff_open x i.info_url (query t rest) w) [
            | inl (opened, moved) ↦ rw moved refl
            | inr (shut, still, message) ↦ rw still refl
          ];
        })
        (λ value. IsReading-lift (read value t))

  load_metadata-IsReading : IsReading (load_metadata x i)
  unfolding load_metadata loading_tasks wait_for_tasks perp_dex_names perp_dexes all_perp_metas
      spot_meta
  load_metadata-IsReading =
      IsReading-bind _ _
        (record {
          at = λ w. run_tasks-reading (loading_tasks x i) w (
            IsReading-bind _ _
                (IsReading-bind _ _ (ask_for-IsReading expect_list "perpDexs" [])
                  (λ d. IsReading-lift _))
                (λ ns. IsReading-pure _),
            (
              IsReading-bind _ _
                  (IsReading-bind _ _ (ask_for-IsReading expect_list "allPerpMetas" [])
                    (λ d. IsReading-lift _))
                  (λ ps. IsReading-pure _),
              (
                IsReading-bind _ _ (ask_for-IsReading expect_object "spotMeta" [])
                    (λ s. IsReading-pure _),
                tt,
              ),
            ),
          );
        })
        (λ results. IsReading-lift _)

  -- `_metadata_for` by the snapshot that it finds.
  found_end : List String → World → Option MetadataSnapshot → Result MetadataSnapshot × World
  found_end coins w found =
      let e = ensured x i found w in
      continue e.0
        (λ s. if is_cold found || all (is_known_coin s) coins then pure s else reload x i s) e.1

  publishes :
      (coins : List String) (r : Result MetadataSnapshot) (v : World)
      → (let e = continue r (λ s. publish s >>= λ u. pure s) v in
          continue e.0
            (λ s. if true || all (is_known_coin s) coins then pure s else reload x i s)
            e.1)
        ≡ cold_end r v
  unfolding ◌>>=◌ pure modify
  publishes coins (ok s) v = refl
  publishes coins (err e) v = refl

  metadata_for-cold :
      (coins : List String) (w : World)
      → w.metadata ≡ none
      → metadata_for x i coins w ≡ cold_end (load_metadata x i w).0 (load_metadata x i w).1
  unfolding metadata_for ensure_metadata ◌>>=◌ gets pure modify found_end
  metadata_for-cold coins w h =
      ap (found_end coins w) h ∙ publishes coins (load_metadata x i w).0 (load_metadata x i w).1

  metadata_for-hit :
      (coins : List String) (w : World) (s : MetadataSnapshot)
      → w.metadata ≡ some s
      → all (is_known_coin s) coins ≡ true
      → metadata_for x i coins w ≡ (ok s, w)
  unfolding metadata_for ensure_metadata ◌>>=◌ gets pure
  metadata_for-hit coins w s h known = rw (h, known) refl

  metadata_for-miss :
      (coins : List String) (w : World) (s : MetadataSnapshot)
      → w.metadata ≡ some s
      → all (is_known_coin s) coins ≡ false
      → metadata_for x i coins w ≡ reloaded s (load_metadata x i w).0 (load_metadata x i w).1
  unfolding metadata_for ensure_metadata ◌>>=◌ gets pure reload
  metadata_for-miss coins w s h known = rw (h, known) refl

  -- The method that runs to its end is refined by the interleaved steps: from a free lock and a cache
  -- with the same snapshot, a call that is not disturbed comes to the method's result, and leaves
  -- published the snapshot that the method leaves.
  pub metadata_for-RunsTo :
      (coins : List String) (w : World) (found : Option Published) (n : ℕ)
      → contents found ≡ w.metadata
      → RunsTo
          (unlocked_cache found n)
          (asked_for coins)
          (metadata_for x i coins w).0
          (metadata_for x i coins w).1.metadata
  metadata_for-RunsTo coins w none n h = rw (metadata_for-cold coins w (sym h)) (
      cold-RunsTo coins n (load_metadata x i w).0 (load_metadata x i w).1
        (load_metadata-IsReading.at w ∙ sym h))
  metadata_for-RunsTo coins w (some p) n h =
      elim (Bool-cases (all (is_known_coin p.snapshot) coins)) [
        | inl known ↦
            rw (metadata_for-hit coins w p.snapshot (sym h) known) (hit-RunsTo coins n p w h known)
        | inr unknown ↦ rw (metadata_for-miss coins w p.snapshot (sym h) unknown) (
            miss-RunsTo coins n p (load_metadata x i w).0 (load_metadata x i w).1
              (load_metadata-IsReading.at w ∙ sym h) unknown)
      ]

-- ===== src/Examples/Interleaving.antt =====
-- Two calls that miss one coin at once, in a cache that holds a snapshot; and a group of tasks.

use async_hyperliquid.Info.Settled.{IsSettled, run_group-IsSettled}
use async_hyperliquid.Info.Group.{
  ended, failed_with, Group, GroupMove, ends, end_task, cancel_all, run_group, start_group,
}
use async_hyperliquid.Prelude.{
  ℕ, ◌*◌, ◌≤◌, ◌≡◌, refl, false, none, some, List, [], ◌∷◌, arith, string_eq, nat_eq, length,
  int_eq,
}
use async_hyperliquid.Result.{timeout_error, other, err, ok}
use async_hyperliquid.Dict.{get, put}
use async_hyperliquid.Metadata.Lookup.{is_outcome_coin, is_known_coin}
use async_hyperliquid.World.{open_}
use async_hyperliquid.Info.Client.{InfoClient}
use async_hyperliquid.Info.Metadata.{metadata_for}
use async_hyperliquid.Info.Cache.{
  Published, Cache, Phase, asked_for, returned, goes_on, load_ends, advance, by_first, by_later,
  Run, not_yet, and_then,
}
use async_hyperliquid.Info.Cache.Phases.{IsSafe}
use async_hyperliquid.Info.Cache.Safety.{Run-IsSafe, new-IsSafe}
use async_hyperliquid.Info.Cache.Ends.{Run-ends, Ended, all_end}
use async_hyperliquid.Info.Cache.Alone.{unlocked_cache, RunsTo, metadata_for-RunsTo}
use async_hyperliquid.Examples.{example_externals, example_world}
use async_hyperliquid.Examples.Replies.{btc_snapshot}

abbrev old_one : Published
old_one = record { id = 0; snapshot = btc_snapshot }

abbrev new_one : Published
new_one = record { id = 1; snapshot = btc_snapshot }

abbrev warm_cache : Cache
warm_cache = unlocked_cache (some old_one) 1

abbrev two_calls : List Phase
two_calls = asked_for ("ETH" ∷ []) ∷ (asked_for ("ETH" ∷ []) ∷ [])

abbrev two_returned : List Phase
two_returned = returned (some new_one) ∷ (returned (some new_one) ∷ [])

-- Both miss, the first one reloads, and the second one finds the new snapshot.
two_misses : Run warm_cache two_calls 5 (0 ∷ []) (unlocked_cache (some new_one) 2) two_returned
unfolding advance is_known_coin is_outcome_coin get put
two_misses =
    and_then
      (and_then
        (and_then
          (and_then (and_then not_yet (by_first goes_on refl)) (by_later (by_first goes_on refl)))
          (by_first goes_on refl))
        (by_first (load_ends (ok btc_snapshot)) refl))
      (by_later (by_first goes_on refl))

warm_cache-IsSafe : IsSafe warm_cache two_calls
warm_cache-IsSafe = new-IsSafe warm_cache two_calls refl (omega arith) refl

Run-IsSafe_example : IsSafe (unlocked_cache (some new_one) 2) two_returned
Run-IsSafe_example = Run-IsSafe warm_cache-IsSafe two_misses

Run-ends_example : 5 ≤ 3 * length two_calls
Run-ends_example = Run-ends two_misses

all_end_example : Ended (err timeout_error) warm_cache two_calls
all_end_example = all_end (err timeout_error) warm_cache-IsSafe

abbrev example_info : InfoClient
example_info = record { info_url = "https://i"; owns_transport = false }

metadata_for-RunsTo_example :
    RunsTo
      (unlocked_cache none 0)
      (asked_for ("BTC" ∷ []))
      (metadata_for example_externals example_info ("BTC" ∷ []) (example_world open_)).0
      (metadata_for example_externals example_info ("BTC" ∷ []) (example_world open_)).1.metadata
metadata_for-RunsTo_example =
    metadata_for-RunsTo example_externals example_info ("BTC" ∷ []) (example_world open_) none 0
      refl

-- The second of two tasks fails, so the first is cancelled, and then ends.
abbrev failing_run : List (GroupMove ℕ)
failing_run = ends 1 (err timeout_error) ∷ (ends 0 (err other) ∷ [])

abbrev failed_group : Group ℕ
failed_group = record {
  tasks = ended (err other) ∷ (ended (err timeout_error) ∷ []);
  phase = failed_with timeout_error;
}

run_group_of_example : run_group failing_run (start_group 2) ≡ some failed_group
unfolding run_group start_group end_task cancel_all
run_group_of_example = refl

run_group-IsSettled_example : IsSettled failed_group × (length failed_group.tasks ≡ 2)
run_group-IsSettled_example = run_group-IsSettled 2 failing_run failed_group run_group_of_example

-- ===== src/Info/Group.antt =====
-- src/async_hyperliquid/_internal/info.py: `wait_for_tasks` while the tasks run, move by move. `Tasks` runs
-- the same tasks one after the other; here a task may end at any time, and is cancelled when another fails.
use async_hyperliquid.Prelude.{
  ℕ, zero, suc, Bool, true, false, Option, none, some, List, [], ◌∷◌, if◌then◌else◌, all,
}
use async_hyperliquid.Result.{Error, other, Result, err, ok}

-- A task: it runs, it runs and `task.cancel()` was called, or it has ended.
pub data TaskState {ℓ} (A : Type ℓ) : Type ℓ where
  running cancelling : TaskState A
  ended : Result A → TaskState A

-- Where the call waits: in the first `gather`, or in the second with the exception that it will raise; or
-- how it has ended.
pub data GroupPhase {ℓ} (A : Type ℓ) : Type ℓ where
  gathering : GroupPhase A
  draining : Error → GroupPhase A
  gave : List A → GroupPhase A
  failed_with : Error → GroupPhase A

pub record Group {ℓ} (A : Type ℓ) : Type ℓ where
  pub tasks : List (TaskState A)
  pub phase : GroupPhase A

-- A task ends, or the call itself is cancelled.
pub data GroupMove {ℓ} (A : Type ℓ) : Type ℓ where
  ends : ℕ → Result A → GroupMove A
  call_cancelled : GroupMove A

module _ {ℓ} {A : Type ℓ} where
  -- Task `i` ends, if it has not yet.
  unfoldable pub end_task : ℕ → Result A → List (TaskState A) → Option (List (TaskState A))
  end_task i r [] = none
  end_task zero r (running ∷ ts) = some (ended r ∷ ts)
  end_task zero r (cancelling ∷ ts) = some (ended r ∷ ts)
  end_task zero r (ended q ∷ ts) = none
  end_task (suc i) r (t ∷ ts) = elim (end_task i r ts) [ none ↦ none | some us ↦ some (t ∷ us) ]

  abbrev pub cancel : TaskState A → TaskState A
  cancel running = cancelling
  cancel cancelling = cancelling
  cancel (ended r) = ended r

  -- `for task in tasks: task.cancel()`
  unfoldable pub cancel_all : List (TaskState A) → List (TaskState A)
  cancel_all [] = []
  cancel_all (t ∷ ts) = cancel t ∷ cancel_all ts

  abbrev pub has_ended : TaskState A → Bool
  has_ended running = false
  has_ended cancelling = false
  has_ended (ended r) = true

  -- The results of the tasks that gave one.
  abbrev pub given : List (TaskState A) → List A
  given [] = []
  given (ended (ok a) ∷ ts) = a ∷ given ts
  given (_ ∷ ts) = given ts

  -- `gather(*tasks)` without a failure
  abbrev pub gather_on : List (TaskState A) → Group A
  gather_on ts = record {
    tasks = ts;
    phase = if all has_ended ts then gave (given ts) else gathering;
  }

  -- `gather(*tasks, return_exceptions=True)` and `raise`
  abbrev pub drain : Error → List (TaskState A) → Group A
  drain e ts = record { tasks = ts; phase = if all has_ended ts then failed_with e else draining e }

  abbrev pub after_end : Result A → List (TaskState A) → Group A
  after_end (ok a) ts = gather_on ts
  after_end (err e) ts = drain e (cancel_all ts)

  abbrev pub advance_in : GroupPhase A → List (TaskState A) → GroupMove A → Option (Group A)
  advance_in gathering ts (ends i r) = elim (end_task i r ts) [
    | none ↦ none
    | some us ↦ some (after_end r us)
  ]
  advance_in gathering ts call_cancelled = some (drain other (cancel_all ts))
  advance_in (draining e) ts (ends i r) = elim (end_task i r ts) [
    | none ↦ none
    | some us ↦ some (drain e us)
  ]
  advance_in (draining e) ts call_cancelled = none
  advance_in (gave vs) ts move = none
  advance_in (failed_with e) ts move = none

  -- One move of the group, if it is possible. A second cancellation, while the call drains, is left out.
  unfoldable pub advance_group : Group A → GroupMove A → Option (Group A)
  advance_group g move = advance_in g.phase g.tasks move

  abbrev pub all_running : ℕ → List (TaskState A)
  all_running zero = []
  all_running (suc n) = running ∷ all_running n

  unfoldable pub run_group : List (GroupMove A) → Group A → Option (Group A)
  unfolding advance_group
  run_group [] g = some g
  run_group (move ∷ moves) g = elim (advance_group g move) [
    | none ↦ none
    | some h ↦ run_group moves h
  ]

  -- A call for `n` tasks.
  unfoldable pub start_group : ℕ → Group A
  start_group n = gather_on (all_running n)

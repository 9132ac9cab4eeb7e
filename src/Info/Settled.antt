-- ===== src/Info/Settled.antt =====
-- What `wait_for_tasks` has done with its tasks, whatever they do and in whatever order they end.
use mathlib.Core.Path.{subst}
use async_hyperliquid.Prelude.{
  ℕ, zero, suc, ◌≡◌, refl, ap, ◌∙◌, ◌⊎◌, inl, inr, true, false, Option, some, List, [], ◌∷◌, map,
  Bool-cases, Option-cases, length, all, All,
}
use async_hyperliquid.Result.{Error, other, Result, err, ok}
use async_hyperliquid.Info.Group.{
  TaskState, running, cancelling, ended, GroupPhase, gathering, draining, gave, failed_with, Group,
  GroupMove, ends, call_cancelled, end_task, cancel_all, has_ended, given, gather_on, drain,
  after_end, advance_in, advance_group, all_running, run_group, start_group,
}

some_injective : {B : Type 0} {a b : B} → ◌≡◌ {A = Option B} (some a) (some b) → a ≡ b
some_injective h = cc

module _ {A : Type 0} where
  abbrev pub HasFailed : Error → List (TaskState A) → Type 0
  HasFailed e [] = ⊥
  HasFailed e (t ∷ ts) = (t ≡ ended (err e)) ⊎ HasFailed e ts

  -- A task that has not been cancelled and has not failed.
  abbrev pub IsUnfailed : TaskState A → Type 0
  IsUnfailed running = Unit
  IsUnfailed cancelling = ⊥
  IsUnfailed (ended (ok a)) = Unit
  IsUnfailed (ended (err e)) = ⊥

  -- A task that was cancelled if it still runs.
  abbrev pub IsStopped : TaskState A → Type 0
  IsStopped running = ⊥
  IsStopped cancelling = Unit
  IsStopped (ended r) = Unit

  -- The exception is that of a task, or the cancellation of the call.
  abbrev pub HasCause : Error → List (TaskState A) → Type 0
  HasCause e ts = (e ≡ other) ⊎ HasFailed e ts

  abbrev pub IsSettledIn : GroupPhase A → List (TaskState A) → Type 0
  IsSettledIn gathering ts = All IsUnfailed ts
  IsSettledIn (draining e) ts = All IsStopped ts × HasCause e ts
  IsSettledIn (gave vs) ts = ts ≡ map (λ (v : A). ended (ok v)) vs
  IsSettledIn (failed_with e) ts = (all has_ended ts ≡ true) × HasCause e ts

  abbrev pub IsSettled : Group A → Type 0
  IsSettled g = IsSettledIn g.phase g.tasks

  cancel_all-IsStopped : (ts : List (TaskState A)) → All IsStopped (cancel_all ts)
  unfolding cancel_all
  cancel_all-IsStopped [] = tt
  cancel_all-IsStopped (running ∷ ts) = (tt, cancel_all-IsStopped ts)
  cancel_all-IsStopped (cancelling ∷ ts) = (tt, cancel_all-IsStopped ts)
  cancel_all-IsStopped (ended r ∷ ts) = (tt, cancel_all-IsStopped ts)

  cancel_all-HasFailed :
      (e : Error) (ts : List (TaskState A)) → HasFailed e ts → HasFailed e (cancel_all ts)
  unfolding cancel_all
  cancel_all-HasFailed e [] h = h
  cancel_all-HasFailed e (t ∷ ts) (inl same) = inl (rw same refl)
  cancel_all-HasFailed e (t ∷ ts) (inr h) = inr (cancel_all-HasFailed e ts h)

  length-cancel_all : (ts : List (TaskState A)) → length (cancel_all ts) ≡ length ts
  unfolding cancel_all
  length-cancel_all [] = refl
  length-cancel_all (t ∷ ts) = ap suc (length-cancel_all ts)

  -- What the end of task `i` does to the others.
  data Ended (r : Result A) : List (TaskState A) → List (TaskState A) → Type 0 where
    here :
        {t : TaskState A} {ts : List (TaskState A)}
        → has_ended t ≡ false
        → Ended r (t ∷ ts) (ended r ∷ ts)
    there :
        {t : TaskState A} {ts us : List (TaskState A)} → Ended r ts us → Ended r (t ∷ ts) (t ∷ us)

  end_task-Ended :
      (i : ℕ) (r : Result A) (ts us : List (TaskState A))
      → end_task i r ts ≡ some us
      → Ended r ts us
  unfolding end_task
  end_task-Ended zero r [] us h = cc
  end_task-Ended (suc i) r [] us h = cc
  end_task-Ended zero r (running ∷ ts) us h =
      subst (Ended r (running ∷ ts)) (some_injective h) (here refl)
  end_task-Ended zero r (cancelling ∷ ts) us h =
      subst (Ended r (cancelling ∷ ts)) (some_injective h) (here refl)
  end_task-Ended zero r (ended q ∷ ts) us h = cc
  end_task-Ended (suc i) r (t ∷ ts) us h = elim (Option-cases (end_task i r ts)) [
    | inl e ↦ let bad = rw (e, end_task) at h in cc
    | inr (vs, e) ↦
        subst (Ended r (t ∷ ts)) (some_injective (rw (e, end_task) at h))
          (there (end_task-Ended i r ts vs e))
  ]

  Ended-All :
      (P : TaskState A → Type 0) (r : Result A) (ts us : List (TaskState A))
      → Ended r ts us
      → P (ended r)
      → All P ts
      → All P us
  Ended-All P r _ _ (here {t} {ts} h) p a = (p, a.1)
  Ended-All P r _ _ (there {t} {ts} {us} m) p a = (a.0, Ended-All P r ts us m p a.1)

  Ended-HasFailed :
      (e : Error) (r : Result A) (ts us : List (TaskState A))
      → Ended r ts us
      → HasFailed e ts
      → HasFailed e us
  Ended-HasFailed e r _ _ (here h) (inl same) = let bad = rw same at h in cc
  Ended-HasFailed e r _ _ (here h) (inr f) = inr f
  Ended-HasFailed e r _ _ (there m) (inl same) = inl same
  Ended-HasFailed e r _ _ (there {t} {ts} {us} m) (inr f) = inr (Ended-HasFailed e r ts us m f)

  failed_now : (e : Error) (ts us : List (TaskState A)) → Ended (err e) ts us → HasFailed e us
  failed_now e _ _ (here h) = inl refl
  failed_now e _ _ (there {t} {ts} {us} m) = inr (failed_now e ts us m)

  length-Ended : (r : Result A) (ts us : List (TaskState A)) → Ended r ts us → length us ≡ length ts
  length-Ended r _ _ (here h) = refl
  length-Ended r _ _ (there {t} {ts} {us} m) = ap suc (length-Ended r ts us m)

  -- When no task failed and all ended, each gave its value.
  all-given :
      (ts : List (TaskState A))
      → All IsUnfailed ts
      → all has_ended ts ≡ true
      → ts ≡ map (λ (v : A). ended (ok v)) (given ts)
  all-given [] a h = refl
  all-given (running ∷ ts) a h = cc
  all-given (cancelling ∷ ts) a h = cc
  all-given (ended (ok v) ∷ ts) (u, a) h =
      ap (λ (l : List (TaskState A)). ended (ok v) ∷ l) (all-given ts a h)
  all-given (ended (err e) ∷ ts) (u, a) h = absurd u

  gather_on-IsSettled : (ts : List (TaskState A)) → All IsUnfailed ts → IsSettled (gather_on ts)
  gather_on-IsSettled ts a = elim (Bool-cases (all has_ended ts)) [
    | inl h ↦ rw h (all-given ts a h)
    | inr h ↦ rw h a
  ]

  drain-IsSettled :
      (e : Error) (ts : List (TaskState A))
      → All IsStopped ts
      → HasCause e ts
      → IsSettled (drain e ts)
  drain-IsSettled e ts a c = elim (Bool-cases (all has_ended ts)) [
    | inl h ↦ rw h (h, c)
    | inr h ↦ rw h (a, c)
  ]

  -- Settled, with as many tasks as before.
  Keeps : List (TaskState A) → Group A → Type 0
  Keeps ts g = IsSettled g × (length g.tasks ≡ length ts)

  Ended-in_gather :
      (r : Result A) (ts us : List (TaskState A))
      → Ended r ts us
      → All IsUnfailed ts
      → Keeps ts (after_end r us)
  unfolding Keeps
  Ended-in_gather (ok a) ts us m u = (
    gather_on-IsSettled us (Ended-All IsUnfailed (ok a) ts us m tt u),
    length-Ended (ok a) ts us m,
  )
  Ended-in_gather (err e) ts us m u = (
    drain-IsSettled e (cancel_all us) (cancel_all-IsStopped us)
        (inr (cancel_all-HasFailed e us (failed_now e ts us m))),
    length-cancel_all us ∙ length-Ended (err e) ts us m,
  )

  Ended-in_drain :
      (e : Error) (r : Result A) (ts us : List (TaskState A))
      → Ended r ts us
      → All IsStopped ts
      → HasCause e ts
      → Keeps ts (drain e us)
  unfolding Keeps
  Ended-in_drain e r ts us m a c = (
    drain-IsSettled e us (Ended-All IsStopped r ts us m tt a)
        (elim c [ inl call ↦ inl call | inr task ↦ inr (Ended-HasFailed e r ts us m task) ]),
    length-Ended r ts us m,
  )

  advance_in-Keeps :
      (p : GroupPhase A) (ts : List (TaskState A)) (move : GroupMove A) (g : Group A)
      → advance_in p ts move ≡ some g
      → IsSettledIn p ts
      → Keeps ts g
  advance_in-Keeps gathering ts (ends i r) g h s = elim (Option-cases (end_task i r ts)) [
    | inl e ↦ let bad = rw (e, advance_in) at h in cc
    | inr (us, e) ↦
        subst (Keeps ts) (some_injective (rw (e, advance_in) at h))
          (Ended-in_gather r ts us (end_task-Ended i r ts us e) s)
  ]
  advance_in-Keeps gathering ts call_cancelled g h s = subst (Keeps ts) (some_injective h) (
      unfold Keeps in
      (
        drain-IsSettled other (cancel_all ts) (cancel_all-IsStopped ts) (inl refl),
        length-cancel_all ts,
      ))
  advance_in-Keeps (draining f) ts (ends i r) g h (a, c) = elim (Option-cases (end_task i r ts)) [
    | inl e ↦ let bad = rw (e, advance_in) at h in cc
    | inr (us, e) ↦
        subst (Keeps ts) (some_injective (rw (e, advance_in) at h))
          (Ended-in_drain f r ts us (end_task-Ended i r ts us e) a c)
  ]
  advance_in-Keeps (draining f) ts call_cancelled g h s = cc
  advance_in-Keeps (gave vs) ts move g h s = cc
  advance_in-Keeps (failed_with f) ts move g h s = cc

  run_group-Keeps :
      (moves : List (GroupMove A)) (g h : Group A)
      → run_group moves g ≡ some h
      → IsSettled g
      → IsSettled h × (length h.tasks ≡ length g.tasks)
  unfolding run_group advance_group Keeps
  run_group-Keeps [] g h e s =
      subst (λ (k : Group A). IsSettled k × (length k.tasks ≡ length g.tasks)) (some_injective e)
        (s, refl)
  run_group-Keeps (move ∷ moves) g h e s = elim (Option-cases (advance_group g move)) [
    | inl stuck ↦ let bad = rw (stuck, run_group) at e in cc
    | inr (k, moved) ↦
        let (settled, same) = advance_in-Keeps g.phase g.tasks move k moved s in
        let (last, more) = run_group-Keeps moves k h (rw (moved, run_group) at e) settled in
        (last, more ∙ same)
  ]

all_running-IsUnfailed : (A : Type 0) (n : ℕ) → All IsUnfailed (all_running {A = A} n)
all_running-IsUnfailed A zero = tt
all_running-IsUnfailed A (suc n) = (tt, all_running-IsUnfailed A n)

length-all_running : (A : Type 0) (n : ℕ) → length (all_running {A = A} n) ≡ n
length-all_running A zero = refl
length-all_running A (suc n) = ap suc (length-all_running A n)

module _ {A : Type 0} where
  -- In every run of `wait_for_tasks` on `n` tasks, in whatever order they end and whether or not the call
  -- is cancelled while it gathers: it gives values only when each of the `n` tasks has given its own, in
  -- order; it raises only when every task has ended, and then the exception of a task or its own
  -- cancellation; while it waits to raise, every task that still runs has been cancelled; and before, no
  -- task has failed and none was cancelled. (A second cancellation is left out.)
  pub run_group-IsSettled :
      (n : ℕ) (moves : List (GroupMove A)) (g : Group A)
      → run_group moves (start_group n) ≡ some g
      → IsSettled g × (length g.tasks ≡ n)
  unfolding start_group
  run_group-IsSettled n moves g h =
      let (settled, same) =
        run_group-Keeps moves (start_group n) g h
          (gather_on-IsSettled (all_running n) (all_running-IsUnfailed A n)) in
      (settled, same ∙ length-all_running A n)

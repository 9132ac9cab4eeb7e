-- ===== src/Info/Tasks.antt =====
-- `wait_for_tasks` of src/async_hyperliquid/_internal/info.py: tasks that run at once. Each task posts
-- at its first step, before a reply arrives, so the requests go out in the order of the tasks. When
-- tasks fail, the first failure in time is raised; `first_failure` of the world says which.
use async_hyperliquid.Prelude.{ℕ, zero, suc, List, [], ◌∷◌, length}
use async_hyperliquid.Result.{Error, Result, err, ok}
use async_hyperliquid.World.{Externals, World}
use async_hyperliquid.World.Exec.{Exec}

-- The first step of every task, with how each ends.
unfoldable pub run_tasks {ℓ} : {A : Type ℓ} → List (Exec A) → World → List (Result A) × World
run_tasks [] w = ([], w)
run_tasks (m ∷ ms) w =
    let first = m w in let rest = run_tasks ms first.1 in (first.0 ∷ rest.0, rest.1)

-- The values, or the failures in the order of the tasks.
unfoldable pub values {ℓ} : {A : Type ℓ} → List (Result A) → List A
values [] = []
values (ok a ∷ rs) = a ∷ values rs
values (err e ∷ rs) = values rs

unfoldable pub failures {ℓ} : {A : Type ℓ} → List (Result A) → List Error
failures [] = []
failures (ok a ∷ rs) = failures rs
failures (err e ∷ rs) = e ∷ failures rs

-- The k-th failure, or the last one.
abbrev pub pick : ℕ → Error → List Error → Error
pick k e [] = e
pick zero e (f ∷ fs) = e
pick (suc k) e (f ∷ fs) = pick k f fs

abbrev pub settle_as {ℓ} : {A : Type ℓ} → ℕ → List Error → List A → Result (List A)
settle_as k [] vs = ok vs
settle_as k (e ∷ es) vs = err (pick k e es)

unfoldable pub settle {ℓ} : {A : Type ℓ} → ℕ → List (Result A) → Result (List A)
unfolding values failures
settle k rs = settle_as k (failures rs) (values rs)

unfoldable pub wait_for_tasks {ℓ} : {A : Type ℓ} → Externals → List (Exec A) → Exec (List A)
unfolding run_tasks settle
wait_for_tasks x ms w =
    let ended = run_tasks ms w in (settle (x.first_failure (length ended.1.sent)) ended.0, ended.1)

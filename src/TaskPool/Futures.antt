-- ===== src/TaskPool/Futures.antt =====
-- The futures of the task library's pool.
use cpp_code.Prelude.{
  ℕ, ◌<◌, ◌≡◌, true, Option, some, List, [], ◌∷◌, ◌==◌, ◌+◌, ◌≤◌, Bool, none, ltb, if◌then◌else◌,
}
use cpp_code.TaskPool.{Outcome, done, TaskPool, pending, Shared, no_state}

abbrev AllGiven : ℕ → (ℕ → Option Outcome) → List (ℕ × Outcome) → Type 0
AllGiven next given [] = Unit {0}
AllGiven next given ((id, job) ∷ jobs) =
    (id < next) × (given id ≡ some job) × AllGiven next given jobs

-- What a future gives, where it is set.
abbrev pub result : Shared → Option Outcome
result no_state = none
result pending = none
result (done job) = some job

abbrev queued : ℕ → List (ℕ × Outcome) → ℕ
queued asked [] = 0
queued asked ((id, job) ∷ jobs) = (if asked == id then 1 else 0) + queued asked jobs

-- How often a future's job stands in the two queues.
abbrev pub times_queued : TaskPool → ℕ → ℕ
times_queued p id = queued id p.normal_queued + queued id p.coroutine_queued

abbrev pub is_queued : TaskPool → ℕ → Bool
is_queued p id = ltb 0 (times_queued p id)

-- Each job in a queue is the one of its future, and stands there once. A future that was returned
-- has the result of its job unless the job is queued.
record Inv (p : TaskPool) : Type 0 where
  normal : AllGiven p.next p.given p.normal_queued
  coroutine : AllGiven p.next p.given p.coroutine_queued
  once : (id : ℕ) → times_queued p id ≤ 1
  fresh : (id : ℕ) → p.next ≤ id → (result (p.futures id) ≡ none) × (p.given id ≡ none)
  settles : (id : ℕ) → result (p.futures id) ≡ (if is_queued p id then none else p.given id)

record IsStopped (p : TaskPool) : Type 0 where
  normal_stopped : p.normal_stopped ≡ true
  coroutine_stopped : p.coroutine_stopped ≡ true

-- ===== src/TaskPool.antt =====
-- behaviortree_test/task/thread_pool.hpp: ThreadPool of the task library, with a pool for functions
-- and one for coroutines. Of boost's io_context it sees that what is posted is run in order by the
-- pool's threads until it is stopped. A job is what it will return or throw, and runs in one step;
-- the futures are numbered in the order of the calls that return them.
pub mod Futures
mod Tests
use cpp_code.Prelude.{
  ℕ, zero, suc, ◌+◌, ◌-◌, ◌*◌, ◌/◌, ◌%◌, ◌^◌, ◌≤◌, ◌<◌, ◌≡◌, refl, sym, ap, ap₂, ◌∙◌, subst, ◌≢◌,
  ◌↔◌, ◌⊎◌, inl, inr, Bool, true, false, not, ◌&&◌, ◌||◌, Option, none, some, List, [], ◌∷◌, ◌++◌,
  arith, ltb, leb, ◌==◌, if◌then◌else◌, Bool-cases, Option-cases,
}

pub data Outcome : Type 0 where
  returns throws : ℕ → Outcome

-- The state behind a future.
pub data Shared : Type 0 where
  no_state pending : Shared
  done : Outcome → Shared

-- `given` are the jobs of the futures that were returned.
pub record TaskPool : Type 0 where
  pub normal_stopped : Bool
  pub coroutine_stopped : Bool
  pub normal_threads : ℕ
  pub coroutine_threads : ℕ
  pub normal_queued : List (ℕ × Outcome)
  pub coroutine_queued : List (ℕ × Outcome)
  pub next : ℕ
  pub futures : ℕ → Shared
  pub given : ℕ → Option Outcome

abbrev pub set_at : {A : Type 0} → (ℕ → A) → ℕ → A → ℕ → A
set_at f id v asked = if asked == id then v else f asked

abbrev pub new : ℕ → ℕ → TaskPool
new normal coroutine = record {
  normal_stopped = false;
  coroutine_stopped = false;
  normal_threads = normal;
  coroutine_threads = coroutine;
  normal_queued = [];
  coroutine_queued = [];
  next = 0;
  futures = λ id. no_state;
  given = λ id. none;
}

-- The promise and its future.
promised : TaskPool → Outcome → TaskPool
promised p job = record p {
  next = suc p.next;
  futures = set_at p.futures p.next pending;
  given = set_at p.given p.next (some job);
}

unfoldable pub post : TaskPool → Outcome → TaskPool
unfolding promised
post p job = record (promised p job) { normal_queued = p.normal_queued ++ (p.next, job) ∷ [] }

unfoldable pub post_coroutine : TaskPool → Outcome → TaskPool
unfolding promised
post_coroutine p job = record (promised p job) {
  coroutine_queued = p.coroutine_queued ++ (p.next, job) ∷ [];
}

unfoldable pub stop : TaskPool → TaskPool
stop p = record p {
  normal_stopped = true;
  coroutine_stopped = true;
  normal_threads = 0;
  coroutine_threads = 0;
}

-- set_value or set_exception.
take_normal : TaskPool → List (ℕ × Outcome) → TaskPool
take_normal p [] = p
take_normal p ((id, job) ∷ jobs) = record p {
  normal_queued = jobs;
  futures = set_at p.futures id (done job);
}

take_coroutine : TaskPool → List (ℕ × Outcome) → TaskPool
take_coroutine p [] = p
take_coroutine p ((id, job) ∷ jobs) = record p {
  coroutine_queued = jobs;
  futures = set_at p.futures id (done job);
}

-- A thread of either pool in io_context::run.
unfoldable pub run_normal : TaskPool → TaskPool
unfolding take_normal
run_normal p =
    if p.normal_stopped || p.normal_threads == 0 then p else take_normal p p.normal_queued

unfoldable pub run_coroutine : TaskPool → TaskPool
unfolding take_coroutine
run_coroutine p =
    if p.coroutine_stopped || p.coroutine_threads == 0
    then p
    else take_coroutine p p.coroutine_queued

pub data Action : Type 0 where
  posts posts_coroutine : Outcome → Action
  stops runs_normal runs_coroutine : Action

unfoldable pub act : TaskPool → Action → TaskPool
unfolding post post_coroutine stop run_normal run_coroutine
act p (posts job) = post p job
act p (posts_coroutine job) = post_coroutine p job
act p stops = stop p
act p runs_normal = run_normal p
act p runs_coroutine = run_coroutine p

unfoldable pub history : TaskPool → List Action → TaskPool
unfolding act
history p [] = p
history p (a ∷ actions) = history (act p a) actions

-- ===== src/Pool.antt =====
-- utils/thread_pool/thread_pool.hpp: ThreadPool. Of boost's io_context the pool sees that what is
-- posted is run in order by the pool's threads until it is stopped; jobs and long-running tasks are
-- numbers. `stop` is one step, since it holds the flag from its exchange on; addLongRunningTask
-- is two, the test of the flag and what it does under the mutex.
pub mod Stopped
pub mod Coroutine
mod Tests
use cpp_code.Prelude.{
  ℕ, zero, suc, ◌+◌, ◌-◌, ◌*◌, ◌/◌, ◌%◌, ◌^◌, ◌≤◌, ◌<◌, ◌≡◌, refl, sym, ap, ap₂, ◌∙◌, subst, ◌≢◌,
  ◌↔◌, ◌⊎◌, inl, inr, Bool, true, false, not, ◌&&◌, ◌||◌, Option, none, some, List, [], ◌∷◌, ◌++◌,
  arith, ltb, leb, ◌==◌, if◌then◌else◌, Bool-cases, Option-cases,
}

-- `finished` are the long-running tasks that stop has asked to stop and joined.
pub record ThreadPool : Type 0 where
  pub is_running : Bool
  pub small_task_workers : ℕ
  pub io_stopped : Bool
  pub queued : List ℕ
  pub executed : List ℕ
  pub long_running_workers : List ℕ
  pub finished : List ℕ

-- none: Expects(thread_count > 0) fails.
unfoldable pub new : ℕ → Option ThreadPool
new zero = none
new (suc n) = some (record {
  is_running = true;
  small_task_workers = suc n;
  io_stopped = false;
  queued = [];
  executed = [];
  long_running_workers = [];
  finished = [];
})

-- What addLongRunningTask does when it has seen the flag set.
unfoldable pub emplace_worker : ThreadPool → ℕ → ThreadPool
emplace_worker p task = record p { long_running_workers = p.long_running_workers ++ task ∷ [] }

unfoldable pub add_long_running_task : ThreadPool → ℕ → ThreadPool × Bool
unfolding emplace_worker
add_long_running_task p task = if p.is_running then (emplace_worker p task, true) else (p, false)

-- Whether a future is returned.
unfoldable pub post : ThreadPool → ℕ → ThreadPool × Bool
post p job = if p.is_running then (record p { queued = p.queued ++ job ∷ [] }, true) else (p, false)

unfoldable pub stop : ThreadPool → ThreadPool
stop p =
    if p.is_running
    then record p {
      is_running = false;
      io_stopped = true;
      small_task_workers = 0;
      long_running_workers = [];
      finished = p.finished ++ p.long_running_workers;
    }
    else p

take_job : ThreadPool → List ℕ → ThreadPool
take_job p [] = p
take_job p (job ∷ jobs) = record p { queued = jobs; executed = p.executed ++ job ∷ [] }

-- A thread in io_context::run.
unfoldable pub run_one : ThreadPool → ThreadPool
unfolding take_job
run_one p = if p.io_stopped || p.small_task_workers == 0 then p else take_job p p.queued

pub data Action : Type 0 where
  adds posts : ℕ → Action
  stops runs : Action

unfoldable pub act : ThreadPool → Action → ThreadPool
unfolding add_long_running_task post stop run_one
act p (adds task) = (add_long_running_task p task).0
act p (posts job) = (post p job).0
act p stops = stop p
act p runs = run_one p

unfoldable pub history : ThreadPool → List Action → ThreadPool
unfolding act
history p [] = p
history p (a ∷ actions) = history (act p a) actions

-- The jobs, and the tasks, for which the calls of a history returned true.
unfoldable pub posted : ThreadPool → List Action → List ℕ
unfolding act post
posted p [] = []
posted p (posts job ∷ actions) =
    (if (post p job).1 then job ∷ [] else []) ++ posted (act p (posts job)) actions
posted p (a ∷ actions) = posted (act p a) actions

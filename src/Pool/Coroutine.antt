-- ===== src/Pool/Coroutine.antt =====
-- utils/thread_pool/thread_pool.hpp: post_coro beside post, on the pool's one io_context. What
-- post_coro posts spawns the coroutine on that context and blocks its thread in fut.get(). Of the
-- coroutine the model keeps how often a thread of the context still has to take it up. boost's
-- io_context and co_spawn are seen as in Pool: what is ready is taken in order, by a free thread.
pub mod Settling
pub mod Spare
use cpp_code.Prelude.{
  ℕ, zero, suc, ◌+◌, ◌-◌, ◌*◌, ◌/◌, ◌%◌, ◌^◌, ◌≤◌, ◌<◌, ◌≡◌, refl, sym, ap, ap₂, ◌∙◌, subst, ◌≢◌,
  ◌↔◌, ◌⊎◌, inl, inr, Bool, true, false, not, ◌&&◌, ◌||◌, Option, none, some, List, [], ◌∷◌, ◌++◌,
  arith, ltb, leb, ◌==◌, if◌then◌else◌, Bool-cases, Option-cases,
}

-- A function, what post_coro posts, and a coroutine that is ready. The first number is that of the
-- promise, the second how often the coroutine has to be taken up once co_spawn has returned, and
-- after the turn that is ready.
pub data Ready : Type 0 where
  call : ℕ → Ready
  spawn resume : ℕ → ℕ → Ready

-- `waiting` are the threads in fut.get(), `settled` the promises with a value or an exception.
pub record CoroPool : Type 0 where
  pub is_running : Bool
  pub threads : ℕ
  pub io_stopped : Bool
  pub ready : List Ready
  pub waiting : ℕ
  pub settled : List ℕ

unfoldable pub new_pool : ℕ → CoroPool
new_pool n = record {
  is_running = true;
  threads = n;
  io_stopped = false;
  ready = [];
  waiting = 0;
  settled = [];
}

-- post and post_coro, where a future is returned only while the pool runs.
unfoldable pub post_ready : CoroPool → Ready → CoroPool
post_ready p job = if p.is_running then record p { ready = p.ready ++ job ∷ [] } else p

unfoldable pub post_call : CoroPool → ℕ → CoroPool
unfolding post_ready
post_call p id = post_ready p (call id)

unfoldable pub post_coro : CoroPool → ℕ → ℕ → CoroPool
unfolding post_ready
post_coro p id turns = post_ready p (spawn id turns)

unfoldable pub take_ready : CoroPool → List Ready → CoroPool
take_ready p [] = p
take_ready p (call id ∷ jobs) = record p { ready = jobs; settled = id ∷ p.settled }
take_ready p (spawn id zero ∷ jobs) = record p { ready = jobs; settled = id ∷ p.settled }
take_ready p (spawn id (suc turns) ∷ jobs) = record p {
  ready = jobs ++ resume id turns ∷ [];
  waiting = suc p.waiting;
}
take_ready p (resume id zero ∷ jobs) = record p {
  ready = jobs;
  waiting = p.waiting - 1;
  settled = id ∷ p.settled;
}
take_ready p (resume id (suc turns) ∷ jobs) = record p { ready = jobs ++ resume id turns ∷ [] }

-- A free thread in io_context::run.
unfoldable pub run_ready : CoroPool → CoroPool
unfolding take_ready
run_ready p = if p.io_stopped || leb p.threads p.waiting then p else take_ready p p.ready

-- stop up to its joins, which return only where no thread waits.
unfoldable pub stop_io : CoroPool → CoroPool
stop_io p = record p { is_running = false; io_stopped = true }

abbrev pub joins : CoroPool → Bool
joins p = p.waiting == 0

pub data CoroAction : Type 0 where
  call_posted : ℕ → CoroAction
  coro_posted : ℕ → ℕ → CoroAction
  io_stops thread_runs : CoroAction

unfoldable pub coro_act : CoroPool → CoroAction → CoroPool
unfolding post_call post_coro stop_io run_ready
coro_act p (call_posted id) = post_call p id
coro_act p (coro_posted id turns) = post_coro p id turns
coro_act p io_stops = stop_io p
coro_act p thread_runs = run_ready p

unfoldable pub coro_history : CoroPool → List CoroAction → CoroPool
unfolding coro_act
coro_history p [] = p
coro_history p (a ∷ actions) = coro_history (coro_act p a) actions

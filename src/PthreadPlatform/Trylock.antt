-- ===== src/PthreadPlatform/Trylock.antt =====
-- demo_trylock and holderFunc of cpp_test/iceoryx/004.pthread_platform/004.pthread_platform.cpp: the
-- two threads, each step one access of shared state or one call of the mutex. Thread 0 is main.
pub mod Steps
pub mod Asserting
use cpp_code.Prelude.{
  ℕ, zero, suc, ◌+◌, ◌-◌, ◌≡◌, Bool, true, false, Option, none, some, List, [], ◌∷◌, if◌then◌else◌,
  ◌*◌, ◌/◌, ◌%◌, ◌^◌, ◌≤◌, ◌<◌, refl, sym, ap, ap₂, ◌∙◌, subst, ◌≢◌, ◌↔◌, ◌⊎◌, inl, inr, not, ◌&&◌,
  ◌||◌, ◌++◌, arith, ltb, leb, ◌==◌, Bool-cases, Option-cases,
}
use cpp_code.PthreadPlatform.{Mutex}

-- Where the threads are: before their next access, or in a loop.
pub data MainAt : Type 0 where
  polls tries tells joins retries unlocks ended : MainAt

pub data HolderAt : Type 0 where
  locking reporting spinning unlocking over : HolderAt

-- `failed`: an assert or a CHECK has failed.
pub record Trying (M : Type 0) : Type 0 where
  pub mtx : M
  pub holder_ready : Bool
  pub done : Bool
  pub main : MainAt
  pub holder : HolderAt
  pub failed : Bool

unfoldable pub demo_trylock : {M : Type 0} → M → Trying M
demo_trylock m = record {
  mtx = m;
  holder_ready = false;
  done = false;
  main = polls;
  holder = locking;
  failed = false;
}

module _ {M : Type 0} (mutex : Mutex M) where
  held_by : Trying M → Option M → Trying M
  held_by s none = s
  held_by s (some m) = record s { mtx = m; holder = reporting }

  let_go : Trying M → Option M → Trying M
  let_go s none = record s { failed = true }
  let_go s (some m) = record s { mtx = m; holder = over }

  holder_at : Trying M → HolderAt → Trying M
  unfolding held_by let_go
  holder_at s locking = held_by s (mutex.lock s.mtx 1)
  holder_at s reporting = record s { holder_ready = true; holder = spinning }
  holder_at s spinning = if s.done then record s { holder = unlocking } else s
  holder_at s unlocking = let_go s (mutex.unlock s.mtx 1)
  holder_at s over = s

  unfoldable pub holder_func : Trying M → Trying M
  unfolding holder_at
  holder_func s = holder_at s s.holder

  -- A trylock that takes the mutex is a lock that does not wait; EBUSY is none.
  busy : Trying M → Option M → Trying M
  busy s none = record s { main = tells }
  busy s (some m) = record s { failed = true }

  free_again : Trying M → Option M → Trying M
  free_again s none = record s { failed = true }
  free_again s (some m) = record s { mtx = m; main = unlocks }

  unlocked : Trying M → Option M → Trying M
  unlocked s none = record s { failed = true }
  unlocked s (some m) = record s { mtx = m; main = ended }

  joined : Trying M → HolderAt → Trying M
  joined s over = record s { main = retries }
  joined s locking = s
  joined s reporting = s
  joined s spinning = s
  joined s unlocking = s

  main_at : Trying M → MainAt → Trying M
  unfolding busy free_again unlocked joined
  main_at s polls = if s.holder_ready then record s { main = tries } else s
  main_at s tries = busy s (mutex.lock s.mtx 0)
  main_at s tells = record s { done = true; main = joins }
  main_at s joins = joined s s.holder
  main_at s retries = free_again s (mutex.lock s.mtx 0)
  main_at s unlocks = unlocked s (mutex.unlock s.mtx 0)
  main_at s ended = s

  unfoldable pub main_thread : Trying M → Trying M
  unfolding main_at
  main_thread s = main_at s s.main

  -- Thread 0 is main, every other number the holder; after a failure the process has ended.
  unfoldable pub try_turn : Trying M → ℕ → Trying M
  unfolding main_thread holder_func
  try_turn s zero = if s.failed then s else main_thread s
  try_turn s (suc k) = if s.failed then s else holder_func s

-- ===== src/PthreadPlatform.antt =====
-- cpp_test/iceoryx/004.pthread_platform/004.pthread_platform.cpp: the threads of demo_normal_mutex,
-- which share a counter under a mutex, each step one access of shared state; the increment is a
-- load and a store. The mutex is a parameter. CHECK is the macro of the file, which exits.
pub mod Steps
pub mod Exact
pub mod Ending
pub mod Trylock
mod Tests
use cpp_code.Prelude.{
  ℕ, zero, suc, ◌+◌, ◌-◌, ◌*◌, ◌/◌, ◌%◌, ◌^◌, ◌≤◌, ◌<◌, ◌≡◌, refl, sym, ap, ap₂, ◌∙◌, subst, ◌≢◌,
  ◌↔◌, ◌⊎◌, inl, inr, Bool, true, false, not, ◌&&◌, ◌||◌, Option, none, some, List, [], ◌∷◌, ◌++◌,
  arith, ltb, leb, ◌==◌, if◌then◌else◌, Bool-cases, Option-cases,
}

-- What the code relies on of a normal mutex: a lock is taken exactly where nobody has the mutex, and
-- the caller waits otherwise (none); its owner can unlock it. A thread is its number.
pub record Mutex (M : Type 0) : Type 0 where
  pub owner : M → Option ℕ
  pub lock : M → ℕ → Option M
  pub unlock : M → ℕ → Option M
  pub lock_free : (m m' : M) (t : ℕ) → lock m t ≡ some m' → owner m ≡ none
  pub owner-lock : (m m' : M) (t : ℕ) → lock m t ≡ some m' → owner m' ≡ some t
  pub lock-none : (m : M) (t : ℕ) → lock m t ≡ none → owner m ≢ none
  pub unlock_done :
      (m : M) (t : ℕ) → owner m ≡ some t → (m' : M) × (unlock m t ≡ some m') × (owner m' ≡ none)

-- Where a thread is in its round: before the lock, after it, with the loaded counter, and before
-- the unlock.
pub data Phase : Type 0 where
  outside locked : Phase
  loaded : ℕ → Phase
  stored : Phase

-- `iters` are the rounds that are left, with the one that is under way.
pub record CounterThread : Type 0 where
  pub iters : ℕ
  pub phase : Phase

pub record Process (M : Type 0) : Type 0 where
  pub mtx : M
  pub counter : ℕ
  pub threads : List CounterThread
  pub exited : Bool

abbrev pub thread_count : ℕ
thread_count = 4

abbrev pub iters_each : ℕ
iters_each = 100000

created : ℕ → List CounterThread
created zero = []
created (suc n) = record { iters = iters_each; phase = outside } ∷ created n

unfoldable pub demo_normal_mutex : {M : Type 0} → M → Process M
unfolding created
demo_normal_mutex m = record {
  mtx = m;
  counter = 0;
  threads = created thread_count;
  exited = false;
}

module _ {M : Type 0} (mutex : Mutex M) where
  took : M → ℕ → CounterThread → Option M → M × ℕ × CounterThread × Bool
  took m counter w none = (m, counter, w, false)
  took m counter w (some m') = (m', counter, record w { phase = locked }, false)

  gave : M → ℕ → CounterThread → Option M → M × ℕ × CounterThread × Bool
  gave m counter w none = (m, counter, w, true)
  gave m counter w (some m') = (m', counter, record { iters = w.iters - 1; phase = outside }, false)

  in_phase : M → ℕ → ℕ → CounterThread → Phase → M × ℕ × CounterThread × Bool
  unfolding took gave
  in_phase m counter t w outside =
      if w.iters == 0 then (m, counter, w, false) else took m counter w (mutex.lock m t)
  in_phase m counter t w locked = (m, counter, record w { phase = loaded counter }, false)
  in_phase m counter t w (loaded v) = (m, suc v, record w { phase = stored }, false)
  in_phase m counter t w stored = gave m counter w (mutex.unlock m t)

  -- The next access of a thread; last, whether a CHECK exits.
  unfoldable pub counter_func : M → ℕ → ℕ → CounterThread → M × ℕ × CounterThread × Bool
  unfolding in_phase
  counter_func m counter t w = in_phase m counter t w w.phase

  -- The thread with an index goes on; the first of the list has the number t.
  unfoldable pub thread_at : M → ℕ → ℕ → List CounterThread → ℕ → M × ℕ × List CounterThread × Bool
  unfolding counter_func
  thread_at m counter t [] k = (m, counter, [], false)
  thread_at m counter t (w ∷ ws) zero =
      let (m', counter', w', exits) = counter_func m counter t w in (m', counter', w' ∷ ws, exits)
  thread_at m counter t (w ∷ ws) (suc k) =
      let (m', counter', ws', exits) = thread_at m counter (suc t) ws k in
      (m', counter', w ∷ ws', exits)

  unfoldable pub turn : Process M → ℕ → Process M
  unfolding thread_at
  turn s k =
      if s.exited
      then s
      else let (m, counter, ws, exits) = thread_at s.mtx s.counter 0 s.threads k in
        record { mtx = m; counter = counter; threads = ws; exited = exits }

  unfoldable pub turns : Process M → List ℕ → Process M
  unfolding turn
  turns s [] = s
  turns s (k ∷ ks) = turns (turn s k) ks

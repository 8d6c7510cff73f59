-- ===== src/WaitSet.antt =====
-- cpp_test/iceoryx/007.inproc_waitset/007.inproc_waitset.cpp: MiniWaitSet, fireEvent and MiniListener.
-- Sources are numbers. Each step is one access of shared state, and memory is taken as sequentially
-- consistent; the mutex of the set is held from the first to the last exchange of a collection.
-- iox::UnnamedSemaphore is a parameter, and its calls are taken to succeed.
pub mod Waking
pub mod Counting
pub mod Listener
mod Tests
use cpp_code.Prelude.{
  ℕ, zero, suc, ◌+◌, ◌-◌, ◌*◌, ◌/◌, ◌%◌, ◌^◌, ◌≤◌, ◌<◌, ◌≡◌, refl, sym, ap, ap₂, ◌∙◌, subst, ◌≢◌,
  ◌↔◌, ◌⊎◌, inl, inr, Bool, true, false, not, ◌&&◌, ◌||◌, Option, none, some, List, [], ◌∷◌, ◌++◌,
  arith, ltb, leb, ◌==◌, if◌then◌else◌, Bool-cases, Option-cases,
}

-- What the code relies on of iox::UnnamedSemaphore: post adds one, and wait returns only where
-- there is one to take. `try_wait` is none where wait blocks.
pub record Semaphore (S : Type 0) : Type 0 where
  pub value : S → ℕ
  pub post : S → S
  pub try_wait : S → Option S
  pub value-post : (s : S) → value (post s) ≡ suc (value s)
  pub value-try_wait : (s s' : S) → try_wait s ≡ some s' → value s ≡ suc (value s')
  pub try_wait_some : (s : S) → 0 < value s → try_wait s ≢ none

-- Where the waiting thread is: outside of a call, between the semaphore and the mutex, or in the
-- loop, with the sources left and those found.
pub data Place : Type 0 where
  outside entering : Place
  collecting : List ℕ → List ℕ → Place

-- `owed` counts the calls of fireEvent between the store and the post, `fired` are the sources of
-- the stores, `delivered` those that an exchange has consumed, and `returned` what the calls of
-- wait and timedWait returned.
pub record WaitSet (S : Type 0) : Type 0 where
  pub sem : S
  pub attached : List ℕ
  pub triggered : ℕ → Bool
  pub owed : ℕ
  pub place : Place
  pub fired : List ℕ
  pub delivered : List ℕ
  pub returned : List (List ℕ)

abbrev pub set_flag : (ℕ → Bool) → ℕ → Bool → ℕ → Bool
set_flag flags source b asked = if asked == source then b else flags asked

module _ {S : Type 0} where
  abbrev pub new : S → WaitSet S
  new sem = record {
    sem = sem;
    attached = [];
    triggered = λ source. false;
    owed = 0;
    place = outside;
    fired = [];
    delivered = [];
    returned = [];
  }

  -- attach waits for the mutex while a collection runs.
  attach_at : Place → WaitSet S → ℕ → WaitSet S
  attach_at (collecting left found) w source = w
  attach_at place w source = record w { attached = w.attached ++ source ∷ [] }

  unfoldable pub attach : WaitSet S → ℕ → WaitSet S
  unfolding attach_at
  attach w source = attach_at w.place w source

  -- fireEvent: the store, and then the post.
  unfoldable pub fire_store : WaitSet S → ℕ → WaitSet S
  fire_store w source = record w {
    triggered = set_flag w.triggered source true;
    owed = suc w.owed;
    fired = w.fired ++ source ∷ [];
  }

  -- compare_exchange_strong from true to false.
  exchange : WaitSet S → ℕ → List ℕ → List ℕ → WaitSet S
  exchange w source left found =
      if w.triggered source
      then record w {
        triggered = set_flag w.triggered source false;
        delivered = w.delivered ++ source ∷ [];
        place = collecting left (found ++ source ∷ []);
      }
      else record w { place = collecting left found }

  unfoldable pub collect_at : Place → WaitSet S → WaitSet S
  unfolding exchange
  collect_at outside w = w
  collect_at entering w = record w { place = collecting w.attached [] }
  collect_at (collecting [] found) w = record w {
    place = outside;
    returned = w.returned ++ found ∷ [];
  }
  collect_at (collecting (source ∷ left) found) w = exchange w source left found

  time_out_at : Place → WaitSet S → WaitSet S
  time_out_at outside w = record w { returned = w.returned ++ [] ∷ [] }
  time_out_at place w = w

pub data Action : Type 0 where
  attaches stores : ℕ → Action
  posts waits times_out collects : Action

module _ {S : Type 0} (semaphore : Semaphore S) where
  fire_post : ℕ → WaitSet S → WaitSet S
  fire_post zero w = w
  fire_post (suc n) w = record w { sem = semaphore.post w.sem; owed = n }

  passed : WaitSet S → Option S → WaitSet S
  passed w none = w
  passed w (some sem) = record w { sem = sem; place = entering }

  wait_at : Place → WaitSet S → WaitSet S
  unfolding passed
  wait_at outside w = passed w (semaphore.try_wait w.sem)
  wait_at place w = w

  unfoldable pub act : WaitSet S → Action → WaitSet S
  unfolding attach fire_store fire_post wait_at time_out_at collect_at
  act w (attaches source) = attach w source
  act w (stores source) = fire_store w source
  act w posts = fire_post w.owed w
  act w waits = wait_at w.place w
  act w times_out = time_out_at w.place w
  act w collects = collect_at w.place w

  unfoldable pub run : WaitSet S → List Action → WaitSet S
  unfolding act
  run w [] = w
  run w (a ∷ actions) = run (act w a) actions

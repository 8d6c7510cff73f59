-- ===== src/PthreadPlatform/Tests.antt =====
-- The theorems at a mutex that is its owner.
use cpp_code.Prelude.{
  ℕ, zero, suc, ◌+◌, ◌*◌, ◌≤◌, ◌≡◌, refl, ◌≢◌, inl, inr, false, Option, none, some, List, [], ◌∷◌,
  arith, ◌==◌, if◌then◌else◌, length,
}
use cpp_code.Prelude.Rounds.{AllRounds, IsRound, concat, steps}
use cpp_code.PthreadPlatform.{
  Mutex, thread_count, iters_each, demo_normal_mutex, turns, turn, counter_func,
}
use cpp_code.PthreadPlatform.Trylock.{ended, over, demo_trylock, try_turn}
use cpp_code.PthreadPlatform.Trylock.Asserting.{trylock_asserts}
use cpp_code.PthreadPlatform.Steps.{todo, inside}
use cpp_code.PthreadPlatform.Exact.{no_lost_update}
use cpp_code.PthreadPlatform.Ending.{all_counted}

abbrev lock_owner : Option ℕ → ℕ → Option (Option ℕ)
lock_owner none t = some (some t)
lock_owner (some u) t = none

abbrev unlock_owner : Option ℕ → ℕ → Option (Option ℕ)
unlock_owner none t = none
unlock_owner (some u) t = if u == t then some none else none

lock_free : (m m' : Option ℕ) (t : ℕ) → lock_owner m t ≡ some m' → m ≡ none
lock_free none m' t e = refl
lock_free (some u) m' t e = cc

lock_owned : (m m' : Option ℕ) (t : ℕ) → lock_owner m t ≡ some m' → m' ≡ some t
lock_owned none m' t e = cc
lock_owned (some u) m' t e = cc

lock_refused : (m : Option ℕ) (t : ℕ) → lock_owner m t ≡ none → m ≢ none
lock_refused none t e = cc
lock_refused (some u) t e = λ h. cc

unlock_owned : (m : Option ℕ) (t : ℕ) → m ≡ some t → unlock_owner m t ≡ some none
unlock_owned none t e = cc
unlock_owned (some u) t e = ground arith

abbrev owned : Mutex (Option ℕ)
owned = record {
  owner = λ m. m;
  lock = lock_owner;
  unlock = unlock_owner;
  lock_free = lock_free;
  owner-lock = lock_owned;
  lock-none = lock_refused;
  unlock_done = λ m t e. (none, unlock_owned m t e, refl);
}

-- The second thread waits while the first has the mutex.
abbrev some_turns : List ℕ
some_turns = 0 ∷ 1 ∷ 0 ∷ 1 ∷ 0 ∷ 0 ∷ 1 ∷ []

no_lost_update_example :
    let s = turns owned (demo_normal_mutex none) some_turns in
    (s.counter + todo s.threads ≡ thread_count * iters_each)
    × (inside s.threads ≤ 1)
    × (s.exited ≡ false)
no_lost_update_example = no_lost_update owned none some_turns refl

some_turns_end : (turns owned (demo_normal_mutex none) some_turns).mtx ≡ some 1
unfolding turns turn demo_normal_mutex counter_func
some_turns_end = refl

repeat : ℕ → List ℕ → List (List ℕ)
repeat zero is = []
repeat (suc n) is = is ∷ repeat n is

length-repeat : (n : ℕ) (is : List ℕ) → length (repeat n is) ≡ n
unfolding repeat
length-repeat zero is = refl
length-repeat (suc n) is = omega (arith, length-repeat n is)

AllRounds-repeat : (k n : ℕ) (is : List ℕ) → IsRound k is → AllRounds k (repeat n is)
unfolding repeat
AllRounds-repeat k zero is v = tt
AllRounds-repeat k (suc n) is v = (v, AllRounds-repeat k n is v)

abbrev each_once : List ℕ
each_once = 0 ∷ 1 ∷ 2 ∷ 3 ∷ []

each_once-IsRound : IsRound 4 each_once
each_once-IsRound zero h = inl refl
each_once-IsRound (suc zero) h = inr (inl refl)
each_once-IsRound (suc (suc zero)) h = inr (inr (inl refl))
each_once-IsRound (suc (suc (suc zero))) h = inr (inr (inr (inl refl)))
each_once-IsRound (suc (suc (suc (suc i)))) h = absurd (omega (arith, h))

all_counted_example :
    let s = turns owned (demo_normal_mutex none) (concat (repeat 1600000 each_once)) in
    (s.counter ≡ thread_count * iters_each) × (todo s.threads ≡ 0) × (owned.owner s.mtx ≡ none)
all_counted_example =
    all_counted owned none (repeat 1600000 each_once) refl
      (AllRounds-repeat 4 1600000 each_once each_once-IsRound)
      (omega (arith, length-repeat 1600000 each_once))

-- Both threads in turn, and a schedule in which main polls for long.
abbrev ten_rounds : List (List ℕ)
ten_rounds = repeat 10 (0 ∷ 1 ∷ [])

two-IsRound : IsRound 2 (0 ∷ 1 ∷ [])
two-IsRound zero h = inl refl
two-IsRound (suc zero) h = inr (inl refl)
two-IsRound (suc (suc i)) h = absurd (omega (arith, h))

trylock_asserts_example :
    let s = steps (try_turn owned) (demo_trylock none) (concat ten_rounds) in
    ((steps (try_turn owned) (demo_trylock none) (0 ∷ 0 ∷ 1 ∷ 0 ∷ 1 ∷ 0 ∷ 0 ∷ [])).failed ≡ false)
    × (s.main ≡ ended)
    × (s.holder ≡ over)
    × (owned.owner s.mtx ≡ none)
trylock_asserts_example =
    trylock_asserts owned none (0 ∷ 0 ∷ 1 ∷ 0 ∷ 1 ∷ 0 ∷ 0 ∷ []) ten_rounds refl
      (AllRounds-repeat 2 10 (0 ∷ 1 ∷ []) two-IsRound)
      (omega (arith, length-repeat 10 (0 ∷ 1 ∷ [])))

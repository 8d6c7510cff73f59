-- ===== src/ObjectPool/Tests.antt =====
-- The theorems at a list of free indices.
use cpp_code.Prelude.{
  ℕ, zero, suc, ◌+◌, ◌≤◌, ◌<◌, ◌≡◌, refl, ap, ◌&&◌, Option, none, some, List, [], ◌∷◌, ◌++◌, arith,
  ltb, ◌==◌, if◌then◌else◌, length,
}
use cpp_code.Prelude.Count.{times}
use cpp_code.ObjectPool.{pool_size, MpmcLoffli, new, turn, turns, recovered, worker, allocate}
use cpp_code.ObjectPool.Held.{held, held_count, EachWritten}
use cpp_code.ObjectPool.Exclusive.{lost, exclusive}
use cpp_code.ObjectPool.Recovered.{pool_recovered}

abbrev pop_first : List ℕ → Option (ℕ × List ℕ)
pop_first [] = none
pop_first (idx ∷ f) = some (idx, f)

pop_first-some : (f f' : List ℕ) (idx : ℕ) → pop_first f ≡ some (idx, f') → f ≡ idx ∷ f'
pop_first-some [] f' idx e = cc
pop_first-some (x ∷ f) f' idx e = cc

pop_first-none : (f : List ℕ) → pop_first f ≡ none → length f ≡ 0
pop_first-none [] e = refl
pop_first-none (x ∷ f) e = cc

-- push puts a valid index that is not there in front.
abbrev push_first : List ℕ → ℕ → Option (List ℕ)
push_first f idx = if ltb idx 8 && times idx f == 0 then some (idx ∷ f) else none

push_first-some : (f f' : List ℕ) (idx : ℕ) → push_first f idx ≡ some f' → f' ≡ idx ∷ f
push_first-some f f' idx e = ground arith

push_first_done :
    (f : List ℕ) (idx : ℕ) → idx < 8 → times idx f ≡ 0 → push_first f idx ≡ some (idx ∷ f)
push_first_done f idx below unused = ground arith

abbrev stack : MpmcLoffli (List ℕ)
stack = record {
  free = λ f slot. times slot f;
  size = λ f. length f;
  pop = pop_first;
  push = push_first;
  free-pop = λ f f' idx asked e. omega (arith, ap (times asked) (pop_first-some f f' idx e));
  size-pop = λ f f' idx e. ap length (pop_first-some f f' idx e);
  pop-none = pop_first-none;
  free-push = λ f f' idx asked e. omega (arith, ap (times asked) (push_first-some f f' idx e));
  size-push = λ f f' idx e. ap length (push_first-some f f' idx e);
  push_done = λ f idx below unused. (idx ∷ f, push_first_done f idx below unused);
}

abbrev all_slots : List ℕ
all_slots = 0 ∷ 1 ∷ 2 ∷ 3 ∷ 4 ∷ 5 ∷ 6 ∷ 7 ∷ []

all_slots_free : (slot : ℕ) → times slot all_slots ≡ (if ltb slot 8 then 1 else 0)
all_slots_free slot = ground arith

abbrev times_of : ℕ → List ℕ → List ℕ
times_of zero ks = []
times_of (suc n) ks = ks ++ times_of n ks

-- The workers take turns; the pool is exhausted in the third round.
abbrev schedule : List ℕ
schedule = times_of 12 (0 ∷ 1 ∷ 2 ∷ 3 ∷ [])

exclusive_example :
    let s = turns stack (new all_slots) schedule in
    ((slot : ℕ)
      → stack.free s.loffli slot + held slot s.workers ≡ (if ltb slot pool_size then 1 else 0))
    × EachWritten 0 s.sensors s.workers
    × (lost s.workers ≡ 0)
exclusive_example = exclusive stack all_slots schedule all_slots_free refl

schedule_enough : (k : ℕ) → k < 4 → 12 ≤ times k schedule
schedule_enough zero h = omega arith
schedule_enough (suc zero) h = omega arith
schedule_enough (suc (suc zero)) h = omega arith
schedule_enough (suc (suc (suc zero))) h = omega arith
schedule_enough (suc (suc (suc (suc k)))) h = absurd (omega (arith, h))

pool_recovered_example :
    let s = turns stack (new all_slots) schedule in
    (held_count s.workers ≡ 0) × (recovered stack 9 s.loffli 0 ≡ some pool_size)
pool_recovered_example =
    pool_recovered stack all_slots schedule 9 all_slots_free refl schedule_enough (omega arith)

three_rounds_held :
    held_count (turns stack (new all_slots) (times_of 3 (0 ∷ 1 ∷ 2 ∷ 3 ∷ []))).workers ≡ 8
unfolding turns turn worker allocate
three_rounds_held = refl

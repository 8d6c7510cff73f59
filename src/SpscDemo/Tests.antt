-- ===== src/SpscDemo/Tests.antt =====
-- The theorem on the two threads, with a list of at most 64 items for the queue.
use cpp_code.Prelude.{
  ℕ, zero, suc, ◌+◌, ◌-◌, ◌*◌, ◌/◌, ◌≡◌, refl, ◌≢◌, Bool, true, false, Option, none, some, List, [],
  ◌∷◌, ◌++◌, arith, ltb, if◌then◌else◌, length,
}
use cpp_code.SpscDemo.{Fifo, item_count, new, rounds}
use cpp_code.SpscDemo.Ending.{spsc_ends}

abbrev push_last : List ℕ → ℕ → Option (List ℕ)
push_last xs v = if ltb (length xs) 64 then some (xs ++ v ∷ []) else none

abbrev pop_first : List ℕ → Option (ℕ × List ℕ)
pop_first [] = none
pop_first (x ∷ xs) = some (x, xs)

contents-push_last : (f f' : List ℕ) (v : ℕ) → push_last f v ≡ some f' → f' ≡ f ++ v ∷ []
contents-push_last f f' v e = ground arith

push_last-none : (f : List ℕ) (v : ℕ) → push_last f v ≡ none → f ≢ []
push_last-none [] v e = ground arith
push_last-none (x ∷ xs) v e = λ h. cc

contents-pop_first : (f f' : List ℕ) (v : ℕ) → pop_first f ≡ some (v, f') → f ≡ v ∷ f'
contents-pop_first [] f' v e = ground arith
contents-pop_first (x ∷ xs) f' v e = ground arith

pop_first-none : (f : List ℕ) → pop_first f ≡ none → f ≡ []
pop_first-none [] e = refl
pop_first-none (x ∷ xs) e = ground arith

abbrev items : Fifo (List ℕ)
items = record {
  contents = λ f. f;
  push = push_last;
  pop = pop_first;
  contents-push = contents-push_last;
  push-none = push_last-none;
  contents-pop = contents-pop_first;
  pop-none = pop_first-none;
}

-- The producer goes first in every other round.
abbrev turns : ℕ → List Bool
turns zero = []
turns (suc n) = false ∷ true ∷ turns n

length-turns : (n : ℕ) → length (turns n) ≡ n + n
length-turns zero = omega arith
length-turns (suc n) = omega (arith, length-turns n)

spsc_ends_example :
    let s = rounds items (new []) (turns 51) in
    (s.done ≡ true) × (s.count ≡ item_count) × (s.consumer_sum ≡ item_count * (item_count - 1) / 2)
spsc_ends_example = spsc_ends items [] (turns 51) refl (omega (arith, length-turns 51))

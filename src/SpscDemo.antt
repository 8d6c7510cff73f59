-- ===== src/SpscDemo.antt =====
-- cpp_test/iceoryx/009.concurrent/009.concurrent.cpp: the two threads of demo_spsc_fifo, each step
-- one turn of a thread's loop. iox::concurrent::SpscFifo is a parameter.
pub mod Order
pub mod Ending
mod Tests
use cpp_code.Prelude.{
  ℕ, zero, suc, ◌+◌, ◌-◌, ◌*◌, ◌/◌, ◌%◌, ◌^◌, ◌≤◌, ◌<◌, ◌≡◌, refl, sym, ap, ap₂, ◌∙◌, subst, ◌≢◌,
  ◌↔◌, ◌⊎◌, inl, inr, Bool, true, false, not, ◌&&◌, ◌||◌, Option, none, some, List, [], ◌∷◌, ◌++◌,
  arith, ltb, leb, ◌==◌, if◌then◌else◌, Bool-cases, Option-cases,
}

-- What the code relies on of SpscFifo: push puts at the end, and fails only where something is in
-- the queue; pop takes the first, and fails only where nothing is.
pub record Fifo (F : Type 0) : Type 0 where
  pub contents : F → List ℕ
  pub push : F → ℕ → Option F
  pub pop : F → Option (ℕ × F)
  pub contents-push : (f f' : F) (v : ℕ) → push f v ≡ some f' → contents f' ≡ contents f ++ v ∷ []
  pub push-none : (f : F) (v : ℕ) → push f v ≡ none → contents f ≢ []
  pub contents-pop : (f f' : F) (v : ℕ) → pop f ≡ some (v, f') → contents f ≡ v ∷ contents f'
  pub pop-none : (f : F) → pop f ≡ none → contents f ≡ []

abbrev pub item_count : ℕ
item_count = 50

-- `next` is the producer's i.
pub record Threads (F : Type 0) : Type 0 where
  pub fifo : F
  pub next : ℕ
  pub done : Bool
  pub count : ℕ
  pub consumer_sum : ℕ

abbrev pub new : {F : Type 0} → F → Threads F
new fifo = record { fifo = fifo; next = 0; done = false; count = 0; consumer_sum = 0 }

module _ {F : Type 0} (queue : Fifo F) where
  pushed : Threads F → Option F → Threads F
  pushed s none = s
  pushed s (some fifo) = record s { fifo = fifo; next = suc s.next }

  unfoldable pub produce : Threads F → Threads F
  unfolding pushed
  produce s =
      if ltb s.next item_count
      then pushed s (queue.push s.fifo s.next)
      else record s { done = true }

  popped : Threads F → Option (ℕ × F) → Threads F
  popped s none = s
  popped s (some (v, fifo)) = record s {
    fifo = fifo;
    consumer_sum = s.consumer_sum + v;
    count = suc s.count;
  }

  unfoldable pub consume : Threads F → Threads F
  unfolding popped
  consume s = if ltb s.count item_count then popped s (queue.pop s.fifo) else s

  -- Each thread takes a turn; the producer is the first where the choice is true.
  unfoldable pub round : Threads F → Bool → Threads F
  round s true = consume (produce s)
  round s false = produce (consume s)

  unfoldable pub rounds : Threads F → List Bool → Threads F
  rounds s [] = s
  rounds s (choice ∷ choices) = rounds (round s choice) choices

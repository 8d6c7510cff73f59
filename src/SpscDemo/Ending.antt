-- ===== src/SpscDemo/Ending.antt =====
-- The end of the two threads.
use cpp_code.Prelude.{
  ℕ, ◌+◌, ◌-◌, ◌*◌, ◌/◌, ◌≤◌, ◌<◌, ◌≡◌, refl, sym, ap, ◌∙◌, ◌≢◌, ◌⊎◌, inl, inr, Bool, true, false,
  Option, none, some, List, [], ◌∷◌, arith, ltb, if◌then◌else◌, Bool-cases, ltb→lt, length,
}
use cpp_code.SpscDemo.{
  Fifo, item_count, Threads, new, pushed, produce, popped, consume, round, rounds,
}
use cpp_code.SpscDemo.Order.{
  range, range-empty, range-none, sum_below, Inv, produce-Inv, consume-Inv,
}

module _ {F : Type 0} (queue : Fifo F) where
  -- The turns that are left, of both threads.
  left : Threads F → ℕ
  left s = (item_count - s.next) + (item_count - s.count) + (if s.done then 0 else 1)

  -- The producer can do nothing only where the queue is not empty, or after its end.
  abbrev Stays : Threads F → Type 0
  Stays s = (queue.contents s.fifo ≢ []) ⊎ ((s.next ≡ item_count) × (s.done ≡ true))

  pushed-left :
      (s : Threads F) (r : Option F)
      → queue.push s.fifo s.next ≡ r
      → s.next < item_count
      → (left (pushed queue s r) < left s) ⊎ ((pushed queue s r ≡ s) × Stays s)
  unfolding pushed left
  pushed-left s none e h = inr (refl, inl (queue.push-none s.fifo s.next e))
  pushed-left s (some f) e h = inl (omega (arith, h))

  ended-left :
      (s : Threads F)
      → s.next ≡ item_count
      → (left (record s { done = true }) < left s) ⊎ ((record s { done = true } ≡ s) × Stays s)
  unfolding left
  ended-left s h = elim (Bool-cases s.done) [
    | inl e ↦ inr (ap (λ d. record s { done = d }) (sym e), inr (h, e))
    | inr e ↦ inl (rw e (omega arith))
  ]

  produce-left :
      (s : Threads F)
      → Inv queue s
      → (left (produce queue s) < left s) ⊎ ((produce queue s ≡ s) × Stays s)
  unfolding produce
  produce-left s v = elim (Bool-cases (ltb s.next item_count)) [
    | inl e ↦ rw e (pushed-left s _ refl (ltb→lt s.next item_count e))
    | inr e ↦ rw e (ended-left s (ground (arith, v.bounded)))
  ]

  -- The consumer can do nothing only where the queue is empty, or after its end.
  abbrev Waits : Threads F → Type 0
  Waits s = (queue.contents s.fifo ≡ []) ⊎ (s.count ≡ item_count)

  popped-left :
      (s : Threads F) (r : Option (ℕ × F))
      → queue.pop s.fifo ≡ r
      → s.count < item_count
      → (left (popped queue s r) < left s) ⊎ ((popped queue s r ≡ s) × Waits s)
  unfolding popped left
  popped-left s none e h = inr (refl, inl (queue.pop-none s.fifo e))
  popped-left s (some (x, f)) e h = inl (omega (arith, h))

  consume-left :
      (s : Threads F)
      → Inv queue s
      → (left (consume queue s) < left s) ⊎ ((consume queue s ≡ s) × Waits s)
  unfolding consume
  consume-left s v = elim (Bool-cases (ltb s.count item_count)) [
    | inl e ↦ rw e (popped-left s _ refl (ltb→lt s.count item_count e))
    | inr e ↦ rw e (inr (refl, inr (ground (arith, v.ahead, v.bounded))))
  ]

  -- Where neither thread can do anything, both have ended.
  over : (s : Threads F) → Inv queue s → Stays s → Waits s → left s ≡ 0
  unfolding left
  over s v (inl full) (inl empty) = absurd (full empty)
  over s v (inl full) (inr all) =
      absurd (full (v.contents ∙ range-none s.count v.held (omega (arith, v.ahead, v.bounded))))
  over s v (inr (last, e)) (inl empty) =
      let none_held = range-empty s.count v.held (sym v.contents ∙ empty) in
      rw e (omega (arith, v.ahead, none_held))
  over s v (inr (last, e)) (inr all) = rw e (omega arith)

  produce-le : (s : Threads F) → Inv queue s → left (produce queue s) ≤ left s
  produce-le s v = elim (produce-left s v) [
    | inl less ↦ omega arith
    | inr (same, stays) ↦ rw same (omega arith)
  ]

  consume-le : (s : Threads F) → Inv queue s → left (consume queue s) ≤ left s
  consume-le s v = elim (consume-left s v) [
    | inl less ↦ omega arith
    | inr (same, waits) ↦ rw same (omega arith)
  ]

  round-left :
      (s : Threads F) (choice : Bool) → Inv queue s → left (round queue s choice) ≤ left s - 1
  unfolding round
  round-left s true v = elim (produce-left s v) [
    | inl less ↦ omega (arith, consume-le (produce queue s) (produce-Inv queue s v))
    | inr (same, stays) ↦ rw same (elim (consume-left s v) [
      | inl less ↦ omega arith
      | inr (same', waits) ↦ rw same' (omega (arith, over s v stays waits))
    ])
  ]
  round-left s false v = elim (consume-left s v) [
    | inl less ↦ omega (arith, produce-le (consume queue s) (consume-Inv queue s v))
    | inr (same, waits) ↦ rw same (elim (produce-left s v) [
      | inl less ↦ omega arith
      | inr (same', stays) ↦ rw same' (omega (arith, over s v stays waits))
    ])
  ]

  round-Inv : (s : Threads F) (choice : Bool) → Inv queue s → Inv queue (round queue s choice)
  unfolding round
  round-Inv s true v = consume-Inv queue (produce queue s) (produce-Inv queue s v)
  round-Inv s false v = produce-Inv queue (consume queue s) (consume-Inv queue s v)

  rounds-Inv :
      (s : Threads F) (choices : List Bool) → Inv queue s → Inv queue (rounds queue s choices)
  unfolding rounds
  rounds-Inv s [] v = v
  rounds-Inv s (choice ∷ choices) v =
      rounds-Inv (round queue s choice) choices (round-Inv s choice v)

  rounds-left :
      (s : Threads F) (choices : List Bool)
      → Inv queue s
      → left (rounds queue s choices) ≤ left s - length choices
  unfolding rounds
  rounds-left s [] v = omega arith
  rounds-left s (choice ∷ choices) v = omega (
    arith,
    round-left s choice v,
    rounds-left (round queue s choice) choices (round-Inv s choice v),
  )

  finished :
      (s : Threads F)
      → Inv queue s
      → left s ≡ 0
      → (s.done ≡ true) × (s.count ≡ item_count) × (s.consumer_sum ≡ 1225)
  unfolding left sum_below
  finished s v e =
      let all : s.count ≡ item_count = omega (arith, e, v.ahead, v.bounded) in
      (ground (arith, e), all, v.sum ∙ ap sum_below all)

  -- Both threads of the demonstration end, with the sum that it expects: from an empty queue, after
  -- 101 rounds in which each thread takes a turn of its loop, in either order, the producer has set
  -- done, the consumer has taken all 50 items, and their sum is 50 * 49 / 2.
  pub spsc_ends :
      (fifo : F) (choices : List Bool)
      → queue.contents fifo ≡ []
      → 101 ≤ length choices
      → let s = rounds queue (new fifo) choices in
        (s.done ≡ true)
        × (s.count ≡ item_count)
        × (s.consumer_sum ≡ item_count * (item_count - 1) / 2)
  unfolding left range sum_below
  spsc_ends fifo choices empty enough =
      let v : Inv queue (new fifo) = record {
        held = 0;
        contents = empty;
        ahead = refl;
        bounded = omega arith;
        sum = refl;
      } in
      finished _ (rounds-Inv (new fifo) choices v) (omega (arith, rounds-left (new fifo) choices v))

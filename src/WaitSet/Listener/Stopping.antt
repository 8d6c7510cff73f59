-- ===== src/WaitSet/Listener/Stopping.antt =====
-- The listener's loop ends, and what it calls.
use cpp_code.Prelude.{
  ℕ, ◌+◌, ◌-◌, ◌≤◌, ◌<◌, ◌≡◌, refl, Bool, true, false, List, [], ◌∷◌, arith, length,
}
use cpp_code.WaitSet.{
  Semaphore, Place, outside, entering, collecting, WaitSet, act, collect_at, wait_at, time_out_at,
}
use cpp_code.WaitSet.Listener.{
  LoopPlace, testing, in_wait, exited, calling, Listener, stop, in_wait_at, loop_at, loop,
}

module _ {S : Type 0} (semaphore : Semaphore S) where
  -- The steps that the thread has left at most, when it is to stop.
  abbrev pub left_in_wait : Place → WaitSet S → ℕ
  left_in_wait outside w = 5 + length w.attached
  left_in_wait entering w = 4 + length w.attached
  left_in_wait (collecting left found) w = 3 + length left

  abbrev pub steps_left : LoopPlace → Listener S → ℕ
  steps_left testing l = 1
  steps_left in_wait l = left_in_wait l.set.place l.set
  steps_left (calling found) l = 2
  steps_left exited l = 0

  -- A thread in the semaphore's wait finds the stop's post there.
  record IsStopping (l : Listener S) : Type 0 where
    down : l.running ≡ false
    awake : l.set.place ≡ outside → l.at ≡ in_wait → 0 < semaphore.value l.set.sem

  in_wait-step :
      (place : Place) (l : Listener S) (late : Bool)
      → l.set.place ≡ place
      → l.at ≡ in_wait
      → IsStopping l
      → let l' = in_wait_at semaphore place l late in
        IsStopping l' × (steps_left l'.at l' < left_in_wait place l.set)
  unfolding in_wait_at act collect_at wait_at time_out_at
  in_wait-step outside l true e i v = ground (arith, v.down)
  in_wait-step outside l false e i v =
      ground (arith, v.down, v.awake e i, semaphore.try_wait_some l.set.sem)
  in_wait-step entering l late e i v = ground (arith, v.down)
  in_wait-step (collecting [] found) l late e i v = ground (arith, v.down)
  in_wait-step (collecting (x ∷ left) found) l late e i v = ground (arith, v.down)

  loop-step :
      (p : LoopPlace) (l : Listener S) (late : Bool)
      → l.at ≡ p
      → IsStopping l
      → let l' = loop_at semaphore p l late in
        IsStopping l' × (steps_left l'.at l' ≤ steps_left p l - 1)
  unfolding loop_at
  loop-step testing l late e v = ground (arith, v.down)
  loop-step in_wait l late e v =
      let (v', less) = in_wait-step l.set.place l late refl e v in (v', omega arith)
  loop-step (calling found) l late e v = ground (arith, v.down)
  loop-step exited l late e v = (v, ground arith)

  loop_ends :
      (l : Listener S) (choices : List Bool)
      → IsStopping l
      → steps_left l.at l ≤ length choices
      → (loop semaphore l choices).at ≡ exited
  unfolding loop
  loop_ends l [] v h = ground arith
  loop_ends l (late ∷ choices) v h =
      let (v', less) = loop-step l.at l late refl v in
      loop_ends (loop_at semaphore l.at l late) choices v' (omega arith)

  stop-IsStopping : (l : Listener S) → IsStopping (stop semaphore l)
  unfolding stop
  stop-IsStopping l = record {
    down = refl;
    awake = λ e i. omega (arith, semaphore.value-post l.set.sem);
  }

  -- After stop the thread ends, so that the join returns: wherever it stands, and whether its
  -- timedWait finds the post or runs out of time, it takes at most the steps that are left to its
  -- place, which are five and one for each attached source where it waits for the semaphore.
  pub stop_ends :
      (l : Listener S) (choices : List Bool)
      → steps_left l.at (stop semaphore l) ≤ length choices
      → (loop semaphore (stop semaphore l) choices).at ≡ exited
  unfolding stop
  stop_ends l choices h = loop_ends (stop semaphore l) choices (stop-IsStopping l) h

-- ===== src/ObjectPool/Recovered.antt =====
-- The end of the workers, and the count after it.
use cpp_code.Prelude.{
  ℕ, zero, suc, ◌+◌, ◌-◌, ◌*◌, ◌≤◌, ◌<◌, ◌≡◌, refl, ap, ◌∙◌, inl, inr, Option, none, some, List, [],
  ◌∷◌, arith, ltb, if◌then◌else◌, Bool-cases, Option-cases, length, length-append, ltb→lt,
}
use cpp_code.Prelude.Count.{times, one_of}
use cpp_code.ObjectPool.{
  pool_size, ops_per_thread, num_threads, MpmcLoffli, Sensor, Worker, Demo, idle, new, worker,
  worker_at, turn, turns, recovered, filled, give_back, released, allocate,
}
use cpp_code.ObjectPool.Held.{held_count}
use cpp_code.ObjectPool.Exclusive.{turns-Inv, new-Inv}

-- The turns that a worker has left.
abbrev left : Worker → ℕ
left w = 2 * (ops_per_thread - w.i) + length w.acquired

abbrev left_at : List Worker → ℕ → ℕ
left_at [] k = 0
left_at (w ∷ ws) zero = left w
left_at (w ∷ ws) (suc k) = left_at ws k

idle_left : (k : ℕ) → left_at (idle ∷ idle ∷ idle ∷ idle ∷ []) k ≤ 12
idle_left zero = omega arith
idle_left (suc zero) = omega arith
idle_left (suc (suc zero)) = omega arith
idle_left (suc (suc (suc zero))) = omega arith
idle_left (suc (suc (suc (suc k)))) = omega arith

module _ {F : Type 0} (queue : MpmcLoffli F) where
  fill_left :
      (t : ℕ) (w : Worker) (r : F × (ℕ → Sensor) × Option ℕ)
      → w.i < ops_per_thread
      → left (filled queue t w r).2 ≤ left w - 1
  unfolding filled
  fill_left t w (f, sensors, none) more = omega arith
  fill_left t w (f, sensors, some slot) more = omega (arith, length-append w.acquired (slot ∷ []))

  left-give_back :
      (f : F) (w : Worker) (slots : List ℕ)
      → w.acquired ≡ slots
      → ops_per_thread ≤ w.i
      → left (give_back queue f w slots).1 ≤ left w - 1
  unfolding give_back released
  left-give_back f w [] e last = omega (arith, ap length e)
  left-give_back f w (slot ∷ rest) e last = omega (arith, ap length e)

  left-worker :
      (t : ℕ) (f : F) (sensors : ℕ → Sensor) (w : Worker)
      → left (worker queue t f sensors w).2 ≤ left w - 1
  unfolding worker
  left-worker t f sensors w = elim (Bool-cases (ltb w.i ops_per_thread)) [
    | inl more ↦ rw more (fill_left t w (allocate queue f sensors) (ltb→lt _ _ more))
    | inr last ↦ rw last (left-give_back f w w.acquired refl (ground arith))
  ]

  worker_at_left :
      (t : ℕ) (f : F) (sensors : ℕ → Sensor) (ws : List Worker) (k asked : ℕ)
      → left_at (worker_at queue t f sensors ws k).2 asked ≤ left_at ws asked - one_of asked k
  unfolding worker_at
  worker_at_left t f sensors [] k asked = omega arith
  worker_at_left t f sensors (w ∷ ws) zero zero = left-worker t f sensors w
  worker_at_left t f sensors (w ∷ ws) zero (suc asked) = ground arith
  worker_at_left t f sensors (w ∷ ws) (suc k) zero = ground arith
  worker_at_left t f sensors (w ∷ ws) (suc k) (suc asked) =
      ground (arith, worker_at_left (suc t) f sensors ws k asked)

  turns_left :
      (s : Demo F) (ks : List ℕ) (asked : ℕ)
      → left_at (turns queue s ks).workers asked ≤ left_at s.workers asked - times asked ks
  unfolding turns turn
  turns_left s [] asked = omega arith
  turns_left s (k ∷ ks) asked = ground (
    arith,
    turns_left (turn queue s k) ks asked,
    worker_at_left 0 s.loffli s.sensors s.workers k asked,
  )

  length-worker_at :
      (t : ℕ) (f : F) (sensors : ℕ → Sensor) (ws : List Worker) (k : ℕ)
      → length (worker_at queue t f sensors ws k).2 ≡ length ws
  unfolding worker_at
  length-worker_at t f sensors [] k = refl
  length-worker_at t f sensors (w ∷ ws) zero = refl
  length-worker_at t f sensors (w ∷ ws) (suc k) =
      omega (arith, length-worker_at (suc t) f sensors ws k)

  length-turns : (s : Demo F) (ks : List ℕ) → length (turns queue s ks).workers ≡ length s.workers
  unfolding turns turn
  length-turns s [] = refl
  length-turns s (k ∷ ks) =
      length-turns (turn queue s k) ks ∙ length-worker_at 0 s.loffli s.sensors s.workers k

  none_held : (ws : List Worker) → ((k : ℕ) → k < length ws → left_at ws k ≡ 0) → held_count ws ≡ 0
  none_held [] h = refl
  none_held (w ∷ ws) h =
      omega (arith, h 0 (omega arith), none_held ws (λ k below. h (suc k) (omega (arith, below))))

  recovered_lem :
      (fuel : ℕ) (f : F) (count : ℕ)
      → queue.size f < fuel
      → recovered queue fuel f count ≡ some (count + queue.size f)
  unfolding recovered
  recovered_lem zero f count h = absurd (omega arith)
  recovered_lem (suc fuel) f count h = elim (Option-cases (queue.pop f)) [
    | inl e ↦ rw (e, recovered) (ap (λ n. some n) (omega (arith, queue.pop-none f e)))
    | inr ((idx, f'), e) ↦
        let less = queue.size-pop f f' idx e in
        rw (e, recovered)
          (recovered_lem fuel f' (suc count) (omega (arith, less, h))
            ∙ ap (λ n. some n) (omega (arith, less)))
  ]

  -- From a list of all slots of the pool, once each of the four workers has had 12 turns, in any
  -- order, no slot is held, and the loop at the end counts all 8 of them.
  pub pool_recovered :
      (f : F) (ks : List ℕ) (fuel : ℕ)
      → ((slot : ℕ) → queue.free f slot ≡ (if ltb slot pool_size then 1 else 0))
      → queue.size f ≡ pool_size
      → ((k : ℕ) → k < num_threads → 12 ≤ times k ks)
      → pool_size < fuel
      → let s = turns queue (new f) ks in
        (held_count s.workers ≡ 0) × (recovered queue fuel s.loffli 0 ≡ some pool_size)
  pool_recovered f ks fuel all size enough h =
      let s = turns queue (new f) ks in
      let v = turns-Inv queue (new f) ks (new-Inv queue f all size) in
      let over : held_count s.workers ≡ 0 = none_held s.workers (λ k below. omega (
        arith,
        turns_left (new f) ks k,
        idle_left k,
        enough k (omega (arith, below, length-turns (new f) ks)),
      )) in
      let full : queue.size s.loffli ≡ pool_size = omega (arith, v.size, over) in
      (
        over,
        recovered_lem fuel s.loffli 0 (omega (arith, full, h))
            ∙ ap (λ n. some n) (omega (arith, full)),
      )

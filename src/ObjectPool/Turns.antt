-- ===== src/ObjectPool/Turns.antt =====
-- What one turn of a worker does.
use cpp_code.Prelude.{
  ℕ, suc, ◌+◌, ◌≤◌, ◌<◌, ◌≡◌, refl, ap, ◌∙◌, subst, ◌≢◌, inl, inr, Option, none, some, List, [],
  ◌∷◌, arith, ltb, Bool-cases, length, length-append, ltb→lt,
}
use cpp_code.Prelude.Count.{times, times-append}
use cpp_code.ObjectPool.{
  pool_size, ops_per_thread, MpmcLoffli, Sensor, Worker, set_sensor, sensor_of, popped, allocate,
  pushed, deallocate, filled, released, give_back, worker,
}
use cpp_code.ObjectPool.Held.{
  AllWritten, set_sensor-same, set_sensor-other, AllWritten-append, times_here, AllWritten-kept,
}

module _ {F : Type 0} (queue : MpmcLoffli F) where
  -- What a worker can rely on: what it holds is a slot of the pool, and not in the list.
  abbrev pub Owns : F → List ℕ → Type 0
  Owns f slots = (slot : ℕ) → 1 ≤ times slot slots → (queue.free f slot ≡ 0) × (slot < pool_size)

  -- What a worker's turn leaves.
  pub record Moved (t : ℕ) (f f' : F) (sensors sensors' : ℕ → Sensor) (w w' : Worker) : Type 0 where
    pub free :
        (slot : ℕ)
        → queue.free f' slot + times slot w'.acquired ≡ queue.free f slot + times slot w.acquired
    pub size : queue.size f' + length w'.acquired ≡ queue.size f + length w.acquired
    pub kept : (slot : ℕ) → queue.free f slot ≡ 0 → sensors' slot ≡ sensors slot
    pub written : AllWritten t sensors w.acquired → AllWritten t sensors' w'.acquired
    pub unfreed : w'.unfreed ≡ w.unfreed

  none-Moved :
      (t : ℕ) (f : F) (sensors : ℕ → Sensor) (w : Worker)
      → Moved t f f sensors sensors w (record w { i = suc w.i })
  none-Moved t f sensors w = record {
    free = λ slot. refl;
    size = refl;
    kept = λ slot h. refl;
    written = λ v. v;
    unfreed = refl;
  }

  -- A slot of the list is not one that is held.
  taken_free : (f f' : F) (idx : ℕ) → queue.pop f ≡ some (idx, f') → 1 ≤ queue.free f idx
  taken_free f f' idx e = ground (arith, queue.free-pop f f' idx idx e)

  twice_set :
      (sensors : ℕ → Sensor) (idx slot : ℕ) (s s' : Sensor)
      → slot ≢ idx
      → set_sensor (set_sensor sensors idx s) idx s' slot ≡ sensors slot
  twice_set sensors idx slot s s' h =
      set_sensor-other (set_sensor sensors idx s) idx slot s' h
      ∙ set_sensor-other sensors idx slot s h

  other_slot :
      (f f' : F) (idx slot : ℕ) → queue.pop f ≡ some (idx, f') → queue.free f slot ≡ 0 → slot ≢ idx
  other_slot f f' idx slot e free same =
      omega (arith, taken_free f f' idx e, ap (queue.free f) same, free)

  fill-Moved :
      (t : ℕ) (f : F) (sensors : ℕ → Sensor) (w : Worker) (o : Option (ℕ × F))
      → queue.pop f ≡ o
      → w.i < ops_per_thread
      → Owns f w.acquired
      → let (f', sensors', w') = filled queue t w (popped queue f sensors o) in
        Moved t f f' sensors sensors' w w'
  unfolding filled popped
  fill-Moved t f sensors w none e more owns = none-Moved t f sensors w
  fill-Moved t f sensors w (some (idx, f')) e more owns =
      let blank : Sensor = record { id = 0; value = 0 } in
      let s = sensor_of t w.i in
      let cleared = set_sensor sensors idx blank in
      record {
        free = λ slot.
            ground (arith, queue.free-pop f f' idx slot e, times-append slot w.acquired (idx ∷ []));
        size = omega (arith, queue.size-pop f f' idx e, length-append w.acquired (idx ∷ []));
        kept = λ slot h. twice_set sensors idx slot blank s (other_slot f f' idx slot e h);
        written = λ v.
            AllWritten-append t (set_sensor cleared idx s) w.acquired idx
              (AllWritten-kept t sensors (set_sensor cleared idx s) w.acquired
                (λ slot h.
                  twice_set sensors idx slot blank s (other_slot f f' idx slot e (owns slot h).0))
                v)
              (w.i, more, set_sensor-same cleared idx s);
        unfreed = refl;
      }

  push-Moved :
      (t : ℕ) (f : F) (sensors : ℕ → Sensor) (w : Worker) (slot : ℕ) (rest : List ℕ)
      → w.acquired ≡ slot ∷ rest
      → Owns f w.acquired
      → let (f', w') = released queue w rest (deallocate queue f slot) in
        Moved t f f' sensors sensors w w'
  unfolding released deallocate pushed
  push-Moved t f sensors w slot rest e owns =
      let (unused, below) = owns slot (rw e (times_here slot rest)) in
      let (f', done) = queue.push_done f slot below unused in
      rw done (record {
        free = λ asked. ground (arith, queue.free-push f f' slot asked done);
        size = omega (arith, queue.size-push f f' slot done, ap length e);
        kept = λ asked h. refl;
        written = λ v. (subst (AllWritten t sensors) e v).1;
        unfreed = refl;
      })

  give_back-Moved :
      (t : ℕ) (f : F) (sensors : ℕ → Sensor) (w : Worker) (slots : List ℕ)
      → w.acquired ≡ slots
      → Owns f w.acquired
      → let (f', w') = give_back queue f w slots in Moved t f f' sensors sensors w w'
  unfolding give_back
  give_back-Moved t f sensors w [] e owns = record {
    free = λ slot. refl;
    size = refl;
    kept = λ slot h. refl;
    written = λ v. v;
    unfreed = refl;
  }
  give_back-Moved t f sensors w (slot ∷ rest) e owns = push-Moved t f sensors w slot rest e owns

  pub worker-Moved :
      (t : ℕ) (f : F) (sensors : ℕ → Sensor) (w : Worker)
      → Owns f w.acquired
      → let (f', sensors', w') = worker queue t f sensors w in Moved t f f' sensors sensors' w w'
  unfolding worker allocate
  worker-Moved t f sensors w owns = elim (Bool-cases (ltb w.i ops_per_thread)) [
    | inl more ↦ rw more (fill-Moved t f sensors w (queue.pop f) refl (ltb→lt _ _ more) owns)
    | inr last ↦ rw last (give_back-Moved t f sensors w w.acquired refl owns)
  ]

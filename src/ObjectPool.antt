-- ===== src/ObjectPool.antt =====
-- cpp_test/iceoryx/001.cmake/001.cmake.cpp: the object pool of demo_mpmc_loffli, its four workers
-- and the count at the end. Each step is one turn of a worker's loops. iox::concurrent::MpmcLoFFLi
-- is a parameter; a sensor's value is in tenths.
pub mod Held
pub mod Turns
pub mod Exclusive
pub mod Recovered
mod Tests
use cpp_code.Prelude.Count.{one_of}
use cpp_code.Prelude.{
  ℕ, zero, suc, ◌+◌, ◌-◌, ◌*◌, ◌/◌, ◌%◌, ◌^◌, ◌≤◌, ◌<◌, ◌≡◌, refl, sym, ap, ap₂, ◌∙◌, subst, ◌≢◌,
  ◌↔◌, ◌⊎◌, inl, inr, Bool, true, false, not, ◌&&◌, ◌||◌, Option, none, some, List, [], ◌∷◌, ◌++◌,
  arith, ltb, leb, ◌==◌, if◌then◌else◌, Bool-cases, Option-cases,
}

abbrev pub pool_size : ℕ
pool_size = 8

abbrev pub num_threads : ℕ
num_threads = 4

abbrev pub ops_per_thread : ℕ
ops_per_thread = 6

-- What the code relies on of MpmcLoFFLi: `free` says how often an index is in the list, `size` how
-- many are. pop takes one out, and fails only where none is; push puts one back, and does so for
-- each index of the list's range that is not in it.
pub record MpmcLoffli (F : Type 0) : Type 0 where
  pub free : F → ℕ → ℕ
  pub size : F → ℕ
  pub pop : F → Option (ℕ × F)
  pub push : F → ℕ → Option F
  pub free-pop :
      (f f' : F) (idx asked : ℕ)
      → pop f ≡ some (idx, f')
      → free f asked ≡ free f' asked + one_of asked idx
  pub size-pop : (f f' : F) (idx : ℕ) → pop f ≡ some (idx, f') → size f ≡ suc (size f')
  pub pop-none : (f : F) → pop f ≡ none → size f ≡ 0
  pub free-push :
      (f f' : F) (idx asked : ℕ)
      → push f idx ≡ some f'
      → free f' asked ≡ free f asked + one_of asked idx
  pub size-push : (f f' : F) (idx : ℕ) → push f idx ≡ some f' → size f' ≡ suc (size f)
  pub push_done :
      (f : F) (idx : ℕ) → idx < pool_size → free f idx ≡ 0 → (f' : F) × (push f idx ≡ some f')

pub record Sensor : Type 0 where
  pub id : ℕ
  pub value : ℕ

-- A worker's i, its acquired slots, and how many of these it could not free.
pub record Worker : Type 0 where
  pub i : ℕ
  pub acquired : List ℕ
  pub unfreed : ℕ

pub record Demo (F : Type 0) : Type 0 where
  pub loffli : F
  pub sensors : ℕ → Sensor
  pub workers : List Worker

abbrev pub idle : Worker
idle = record { i = 0; acquired = []; unfreed = 0 }

-- The list after init, and the four workers.
abbrev pub new : {F : Type 0} → F → Demo F
new f = record {
  loffli = f;
  sensors = λ slot. record { id = 0; value = 0 };
  workers = idle ∷ idle ∷ idle ∷ idle ∷ [];
}

unfoldable pub set_sensor : (ℕ → Sensor) → ℕ → Sensor → ℕ → Sensor
set_sensor sensors idx s slot = if slot == idx then s else sensors slot

-- What a worker writes into its sensor.
unfoldable pub sensor_of : ℕ → ℕ → Sensor
sensor_of thread_id i = record { id = thread_id * 100 + i; value = thread_id * 10 + i }

module _ {F : Type 0} (queue : MpmcLoffli F) where
  popped : F → (ℕ → Sensor) → Option (ℕ × F) → F × (ℕ → Sensor) × Option ℕ
  popped f sensors none = (f, sensors, none)
  popped f sensors (some (idx, f')) =
      (f', set_sensor sensors idx (record { id = 0; value = 0 }), some idx)

  -- The slot of the sensor that is handed out, if any.
  unfoldable pub allocate : F → (ℕ → Sensor) → F × (ℕ → Sensor) × Option ℕ
  unfolding popped
  allocate f sensors = popped f sensors (queue.pop f)

  pushed : F → Option F → F × Bool
  pushed f none = (f, false)
  pushed f (some f') = (f', true)

  unfoldable pub deallocate : F → ℕ → F × Bool
  unfolding pushed
  deallocate f slot = pushed f (queue.push f slot)

  filled : ℕ → Worker → F × (ℕ → Sensor) × Option ℕ → F × (ℕ → Sensor) × Worker
  filled thread_id w (f, sensors, none) = (f, sensors, record w { i = suc w.i })
  filled thread_id w (f, sensors, some slot) = (
    f,
    set_sensor sensors slot (sensor_of thread_id w.i),
    record w { i = suc w.i; acquired = w.acquired ++ slot ∷ [] },
  )

  released : Worker → List ℕ → F × Bool → F × Worker
  released w rest (f, done) =
      (f, record w { acquired = rest; unfreed = if done then w.unfreed else suc w.unfreed })

  give_back : F → Worker → List ℕ → F × Worker
  unfolding released
  give_back f w [] = (f, w)
  give_back f w (slot ∷ rest) = released w rest (deallocate f slot)

  -- A turn of one of a worker's loops; `acquired` are the slots that it still has to free.
  unfoldable pub worker : ℕ → F → (ℕ → Sensor) → Worker → F × (ℕ → Sensor) × Worker
  unfolding filled give_back
  worker thread_id f sensors w =
      if ltb w.i ops_per_thread
      then filled thread_id w (allocate f sensors)
      else let (f', w') = give_back f w w.acquired in (f', sensors, w')

  -- The worker with an index takes a turn; the first of the list has the thread id.
  unfoldable pub worker_at : ℕ → F → (ℕ → Sensor) → List Worker → ℕ → F × (ℕ → Sensor) × List Worker
  worker_at thread_id f sensors [] k = (f, sensors, [])
  worker_at thread_id f sensors (w ∷ ws) zero =
      let (f', sensors', w') = worker thread_id f sensors w in (f', sensors', w' ∷ ws)
  worker_at thread_id f sensors (w ∷ ws) (suc k) =
      let (f', sensors', ws') = worker_at (suc thread_id) f sensors ws k in (f', sensors', w ∷ ws')

  unfoldable pub turn : Demo F → ℕ → Demo F
  unfolding worker_at
  turn s k =
      let (f, sensors, ws) = worker_at 0 s.loffli s.sensors s.workers k in
      record { loffli = f; sensors = sensors; workers = ws }

  unfoldable pub turns : Demo F → List ℕ → Demo F
  unfolding turn
  turns s [] = s
  turns s (k ∷ ks) = turns (turn s k) ks

  -- The loop that counts the recovered slots; none: the fuel has run out.
  unfoldable pub recovered : ℕ → F → ℕ → Option ℕ
  recovered zero f count = none
  recovered (suc fuel) f count = elim (queue.pop f) [
    | none ↦ some count
    | some (idx, f') ↦ recovered fuel f' (suc count)
  ]

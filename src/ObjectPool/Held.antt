-- ===== src/ObjectPool/Held.antt =====
-- The slots that the workers hold, and what these say of the sensors.
use cpp_code.Prelude.{ℕ, suc, ◌+◌, ◌≤◌, ◌<◌, ◌≡◌, ◌≢◌, List, [], ◌∷◌, ◌++◌, arith, length}
use cpp_code.Prelude.Count.{times}
use cpp_code.ObjectPool.{ops_per_thread, Sensor, Worker, set_sensor, sensor_of}

-- How often the workers hold a slot, and how many slots they hold.
abbrev pub held : ℕ → List Worker → ℕ
held slot [] = 0
held slot (w ∷ ws) = times slot w.acquired + held slot ws

abbrev pub held_count : List Worker → ℕ
held_count [] = 0
held_count (w ∷ ws) = length w.acquired + held_count ws

-- A sensor has what the thread wrote into it, on one of its rounds.
abbrev pub Written : ℕ → Sensor → Type 0
Written thread_id s = (i : ℕ) × (i < ops_per_thread) × (s ≡ sensor_of thread_id i)

abbrev pub AllWritten : ℕ → (ℕ → Sensor) → List ℕ → Type 0
AllWritten thread_id sensors [] = Unit {0}
AllWritten thread_id sensors (slot ∷ slots) =
    Written thread_id (sensors slot) × AllWritten thread_id sensors slots

abbrev pub EachWritten : ℕ → (ℕ → Sensor) → List Worker → Type 0
EachWritten thread_id sensors [] = Unit {0}
EachWritten thread_id sensors (w ∷ ws) =
    AllWritten thread_id sensors w.acquired × EachWritten (suc thread_id) sensors ws

pub set_sensor-same :
    (sensors : ℕ → Sensor) (idx : ℕ) (s : Sensor) → set_sensor sensors idx s idx ≡ s
unfolding set_sensor
set_sensor-same sensors idx s = ground arith

pub set_sensor-other :
    (sensors : ℕ → Sensor) (idx slot : ℕ) (s : Sensor)
    → slot ≢ idx
    → set_sensor sensors idx s slot ≡ sensors slot
unfolding set_sensor
set_sensor-other sensors idx slot s h = ground arith

pub AllWritten-append :
    (thread_id : ℕ) (sensors : ℕ → Sensor) (xs : List ℕ) (slot : ℕ)
    → AllWritten thread_id sensors xs
    → Written thread_id (sensors slot)
    → AllWritten thread_id sensors (xs ++ slot ∷ [])
AllWritten-append thread_id sensors [] slot v w = (w, tt)
AllWritten-append thread_id sensors (x ∷ xs) slot (v, rest) w =
    (v, AllWritten-append thread_id sensors xs slot rest w)

pub times_here : (slot : ℕ) (slots : List ℕ) → 1 ≤ times slot (slot ∷ slots)
times_here slot slots = ground arith

-- Sensors that agree on the slots of a list.
pub AllWritten-kept :
    (thread_id : ℕ) (sensors sensors' : ℕ → Sensor) (slots : List ℕ)
    → ((slot : ℕ) → 1 ≤ times slot slots → sensors' slot ≡ sensors slot)
    → AllWritten thread_id sensors slots
    → AllWritten thread_id sensors' slots
AllWritten-kept thread_id sensors sensors' [] same v = tt
AllWritten-kept thread_id sensors sensors' (slot ∷ slots) same (v, rest) = (
  rw (same slot (times_here slot slots)) v,
  AllWritten-kept thread_id sensors sensors' slots (λ asked h. same asked (omega (arith, h))) rest,
)

pub EachWritten-kept :
    (thread_id : ℕ) (sensors sensors' : ℕ → Sensor) (ws : List Worker)
    → ((slot : ℕ) → 1 ≤ held slot ws → sensors' slot ≡ sensors slot)
    → EachWritten thread_id sensors ws
    → EachWritten thread_id sensors' ws
EachWritten-kept thread_id sensors sensors' [] same v = tt
EachWritten-kept thread_id sensors sensors' (w ∷ ws) same (v, rest) = (
  AllWritten-kept thread_id sensors sensors' w.acquired (λ slot h. same slot (omega (arith, h))) v,
  EachWritten-kept (suc thread_id) sensors sensors' ws (λ slot h. same slot (omega (arith, h)))
      rest,
)

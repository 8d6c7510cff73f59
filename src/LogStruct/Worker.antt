-- ===== src/LogStruct/Worker.antt =====
-- log_struct.cpp: writeToFile, one step at a time, and the whole system.
use cpp_code.Prelude.{
  ℕ, ◌+◌, Bool, true, false, not, ◌&&◌, ◌||◌, Option, none, some, List, [], ◌∷◌, ◌++◌, ltb,
  if◌then◌else◌, drop,
}
use cpp_code.LogStruct.{
  LogStruct, Buffer, contents, fill, flush, write, destroy_flush, destroy_close, take, length, ℤ,
}

-- Where the thread stands: at the loop's condition, in the wait, in the loop of ::write calls, and
-- before the store to is_writing_, the clear of has_data_to_write and the test to leave.
pub data Place : Type 0 where
  checking waiting releasing clearing leaving exited : Place
  writing : Buffer → ℕ → ℕ → Place

pub record System (A : Type 0) : Type 0 where
  pub log : LogStruct A
  pub place : Place
  pub stop_requested : Bool
  pub file : List A

abbrev os_result : Bool → Option ℕ → Option ℕ
os_result true result = result
os_result false result = none

module _ {A : Type 0} where
  abbrev is_empty : List A → Bool
  is_empty [] = true
  is_empty (x ∷ xs) = false

  -- One call of ::write, with the result that the system gives, none for an error, and the
  -- loop's test before it; a closed descriptor is an error.
  write_call : System A → Buffer → ℕ → ℕ → Option ℕ → System A
  write_call s target need written none = record s { log = fill s.log target []; place = releasing }
  write_call s target need written (some n) = record s {
    file = s.file ++ take n (drop written (contents s.log target));
    place = writing target need (written + n);
  }

  loaded : System A → Buffer → System A
  loaded s target =
      if is_empty (contents s.log target)
      then record s { place = releasing }
      else record s { place = writing target (length (contents s.log target)) 0 }

  unfoldable pub work_at : Place → System A → Option ℕ → System A
  unfolding write_call loaded
  work_at checking s result =
      if not s.stop_requested || s.log.has_data_to_write
      then record s { place = waiting }
      else record s { place = exited }
  work_at waiting s result = if s.log.has_data_to_write then loaded s s.log.next_vector else s
  work_at (writing target need written) s result =
      if ltb written need
      then write_call s target need written (os_result s.log.fd_open result)
      else record s { log = fill s.log target []; place = releasing }
  work_at releasing s result = record s {
    log = record s.log { is_writing = false };
    place = clearing;
  }
  work_at clearing s result = record s {
    log = record s.log { has_data_to_write = false };
    place = leaving;
  }
  work_at leaving s result =
      if not s.log.is_running && is_empty (contents s.log s.log.current_vector)
      then record s { place = exited }
      else record s { place = checking }
  work_at exited s result = s

  -- The thread's next step; in the wait it may be none.
  unfoldable pub work : System A → Option ℕ → System A
  unfolding work_at
  work s result = work_at s.place s result

-- What may happen next.
pub data Action (A : Type 0) : Type 0 where
  writes : Option (List A) → ℤ → Action A
  flushes destroys closes stops : Action A
  works : Option ℕ → Action A

module _ {A : Type 0} where
  unfoldable pub act : System A → Action A → System A
  unfolding work
  act s (writes bytes now) = record s { log = (write s.log bytes now).0 }
  act s flushes = record s { log = (flush s.log).0 }
  act s destroys = record s { log = destroy_flush s.log }
  act s closes = record s { log = destroy_close s.log }
  act s stops = record s { stop_requested = true }
  act s (works result) = work s result

  unfoldable pub run : System A → List (Action A) → System A
  run s [] = s
  run s (a ∷ actions) = run (act s a) actions

  -- The bytes that an action adds to a buffer: those of a write that returned true.
  unfoldable pub accepted : System A → Action A → List A
  accepted s (writes (some bytes) now) =
      if (write s.log (some bytes) now).1 then take s.log.struct_size bytes else []
  accepted s other = []

  unfoldable pub all_accepted : System A → List (Action A) → List A
  all_accepted s [] = []
  all_accepted s (a ∷ actions) = accepted s a ++ all_accepted (act s a) actions

  -- A system as the constructor leaves it, with the file's contents.
  abbrev pub start : LogStruct A → List A → System A
  start log file = record { log = log; place = checking; stop_requested = false; file = file }

-- ===== src/LogStruct.antt =====
-- utils/log_struct/log_struct.cpp and log_struct.hpp: LogStruct, a logger of fixed-size records with
-- two buffers that are swapped, and its writing thread. Memory is taken as sequentially consistent.
-- One thread calls write, flush and the destructor's body, each one step; the writing thread
-- goes from one access of shared state to the next. Bytes are of any type; the clock is an argument.
mod Tests
pub mod Worker
pub mod Accounting
pub mod Bounds
pub mod Lost
pub mod Grown
pub mod Drained
pub mod Closing
use cpp_code.Prelude.{
  ℕ, zero, suc, ◌+◌, ◌-◌, ◌*◌, ◌/◌, ◌%◌, ◌^◌, ◌≤◌, ◌<◌, ◌≡◌, refl, sym, ap, ap₂, ◌∙◌, subst, ◌≢◌,
  ◌↔◌, ◌⊎◌, inl, inr, Bool, true, false, not, ◌&&◌, ◌||◌, Option, none, some, List, [], ◌∷◌, ◌++◌,
  arith, ltb, leb, ◌==◌, if◌then◌else◌, Bool-cases, Option-cases, length, take,
}
use cpp_code.Prelude.Int.{ℤ, pos, ◌-ℤ◌, leb_ℤ}

pub data Buffer : Type 0 where
  first second : Buffer

abbrev pub other : Buffer → Buffer
other first = second
other second = first

pub record LogStruct (A : Type 0) : Type 0 where
  pub struct_size : ℕ
  pub byte_size : ℕ
  pub polling_interval : ℕ
  pub fd_open : Bool
  pub is_running : Bool
  pub is_writing : Bool
  pub has_data_to_write : Bool
  pub last_write_time : ℤ
  pub vector1 : List A
  pub vector2 : List A
  pub current_vector : Buffer
  pub next_vector : Buffer

module _ {A : Type 0} where
  -- The constructor, where open succeeds; `now` is the clock.
  unfoldable pub new : ℕ → ℕ → ℕ → ℤ → LogStruct A
  new struct_size reverse_size polling_interval now = record {
    struct_size = struct_size;
    byte_size = struct_size * reverse_size % 2 ^ 64;
    polling_interval = polling_interval;
    fd_open = true;
    is_running = true;
    is_writing = false;
    has_data_to_write = false;
    last_write_time = now;
    vector1 = [];
    vector2 = [];
    current_vector = first;
    next_vector = second;
  }

  abbrev pub contents : LogStruct A → Buffer → List A
  contents l first = l.vector1
  contents l second = l.vector2

  abbrev pub fill : LogStruct A → Buffer → List A → LogStruct A
  fill l first bytes = record l { vector1 = bytes }
  fill l second bytes = record l { vector2 = bytes }

  unfoldable pub flush : LogStruct A → LogStruct A × Bool
  flush l = if l.is_writing then (l, false) else (
    record l {
      is_writing = true;
      current_vector = l.next_vector;
      next_vector = l.current_vector;
      has_data_to_write = true;
    },
    true,
  )

  is_due : LogStruct A → ℤ → Bool
  is_due l now =
      leb_ℤ (pos (l.polling_interval * 1000000)) (now -ℤ l.last_write_time)
      || leb l.byte_size (length (contents l l.current_vector))

  -- The check of time and size at the end of write.
  poll : LogStruct A → ℤ → LogStruct A
  unfolding flush is_due
  poll l now =
      if is_due l now
      then (let (l', done) = flush l in if done then record l' { last_write_time = now } else l')
      else l

  append : LogStruct A → List A → LogStruct A
  append l bytes = fill l l.current_vector (contents l l.current_vector ++ take l.struct_size bytes)

  is_full : LogStruct A → Bool
  is_full l = ltb l.byte_size ((length (contents l l.current_vector) + l.struct_size) % 2 ^ 64)

  -- `bytes` is what `data` points to, none for a null pointer.
  unfoldable pub write : LogStruct A → Option (List A) → ℤ → LogStruct A × Bool
  unfolding poll append is_full
  write l none now = (poll l now, true)
  write l (some bytes) now = if is_full l then (l, false) else (poll (append l bytes) now, true)

  -- The destructor's body in two steps, since the thread may run between its flush and its close;
  -- the members' destructors, which end the thread, come after both.
  unfoldable pub destroy_flush : LogStruct A → LogStruct A
  unfolding flush
  destroy_flush l = (flush (record l { is_running = false })).0

  unfoldable pub destroy_close : LogStruct A → LogStruct A
  destroy_close l = record l { fd_open = false }

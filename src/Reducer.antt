-- ===== src/Reducer.antt =====
-- cpp_test/stand_cpp/018.check_state/018.check_state.cpp: the class StateReducer.
-- The clock is an argument of each call, in nanoseconds; states and times are integers, and the
-- counter is a 64-bit word.
mod Tests
pub mod Window
pub mod Invariant
use cpp_code.Prelude.Int.{ℤ, pos, ◌-ℤ◌, leb_ℤ, eq_ℤ}
use cpp_code.Prelude.{
  ℕ, ◌+◌, ◌*◌, ◌%◌, ◌^◌, Bool, true, false, ◌&&◌, List, [], ◌∷◌, Option, none, some, leb,
  if◌then◌else◌,
}

pub record StateReducer : Type 0 where
  pub confirm_window : ℤ
  pub business_threshold : ℕ
  pub window_start : Option ℤ
  pub business_count : ℕ
  pub last_business_state : Option ℤ

-- The constructor: `confirm_window` counts milliseconds, and is kept in the clock's nanoseconds.
unfoldable pub new : ℕ → ℕ → StateReducer
new confirm_ms threshold = record {
  confirm_window = pos (confirm_ms * 1000000);
  business_threshold = threshold;
  window_start = none;
  business_count = 0;
  last_business_state = none;
}

pub is_business : ℤ → Bool
is_business state = leb_ℤ (pos 1) state && leb_ℤ state (pos 4)

open_window : Option ℤ → ℤ → Option ℤ
open_window none now = some now
open_window (some start) now = some start

pub append_pending : StateReducer → ℤ → ℤ → StateReducer
unfolding is_business open_window
append_pending r state now =
    let opened = record r { window_start = open_window r.window_start now } in
    if is_business state
    then record opened {
      business_count = (r.business_count + 1) % 2 ^ 64;
      last_business_state = some state;
    }
    else opened

expired_since : Option ℤ → ℤ → ℤ → Bool
expired_since none window now = false
expired_since (some start) window now = leb_ℤ window (now -ℤ start)

pub is_expired : StateReducer → ℤ → Bool
unfolding expired_since
is_expired r now = expired_since r.window_start r.confirm_window now

value_or : Option ℤ → ℤ → ℤ
value_or none d = d
value_or (some v) d = v

pub fold_pending : StateReducer → ℤ
unfolding value_or
fold_pending r = value_or r.last_business_state (pos 0)

pub clear_pending : StateReducer → StateReducer
clear_pending r = record r { window_start = none; business_count = 0; last_business_state = none }

confirm : StateReducer → StateReducer × ℤ
unfolding clear_pending
confirm r =
    if leb r.business_threshold r.business_count then (clear_pending r, pos 5) else (r, pos 0)

-- The value returned stands behind the new state; `expired` is false where it is read last.
unfoldable pub push : StateReducer → ℤ → ℤ → StateReducer × ℤ
unfolding clear_pending is_expired fold_pending append_pending confirm
push r now state =
    if leb_ℤ (pos 6) state
    then (clear_pending r, state)
    else if is_expired r now
    then (clear_pending r, (if eq_ℤ state (pos 0) then fold_pending r else state))
    else confirm (append_pending r state now)

-- A history of calls, each with the clock's value and the state; the outputs in order.
pub run : StateReducer → List (ℤ × ℤ) → StateReducer × List ℤ
run r [] = (r, [])
run r ((now, state) ∷ calls) =
    let (r', out) = push r now state in let (last, outs) = run r' calls in (last, out ∷ outs)

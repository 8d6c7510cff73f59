-- ===== src/Task/Slot.antt =====
-- A channel of one message on which no receive is pending, as a value that is there or not: it has the laws that the theorems on
-- waits take of boost's channels.
use cpp_code.Prelude.{◌≡◌, refl, Option, none, some, arith}
use cpp_code.Task.Object.{Channel, message, Received}
use cpp_code.Task.Waiting.Round.{BufferOfOne, RefusesSecond}

abbrev take_message : {A : Type 0} → Option A → Option (Received A × Option A)
take_message none = none
take_message (some m) = some (message m, none)

abbrev put_message : {A : Type 0} → Option A → A → Option (Option A)
put_message none m = some (some m)
put_message (some kept) m = none

abbrev pub one_slot : {A : Type 0} → Channel (Option A) A
one_slot = record { try_send = put_message; receive = take_message; close = λ c. c }

abbrev pub one_slot_laws : {A : Type 0} → BufferOfOne (one_slot {A = A})
one_slot_laws = record {
  empty = none;
  full = λ m. some m;
  send-empty = λ a. refl;
  receive-empty = refl;
  receive-full = λ a. refl;
}

abbrev pub one_slot_refuses : {A : Type 0} → RefusesSecond (one_slot {A = A}) one_slot_laws
one_slot_refuses = record { send-full = λ a b. refl }

pub one_slot_once :
    {A : Type 0} (c c' : Option A) (m m' : A)
    → one_slot.try_send c m ≡ some c'
    → one_slot.try_send c' m' ≡ none
one_slot_once c c' m m' h = ground arith

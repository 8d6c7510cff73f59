-- ===== src/Ota/Tests.antt =====
-- The theorems on the OTA task and its node at concrete tasks and channels.
use cpp_code.Prelude.{◌≡◌, refl, inl, Option, none, some, List, [], ◌∷◌, arith}
use cpp_code.Task.Status.{TaskCommand, TaskStatus, TaskResult, running}
use cpp_code.Task.Object.{Task, pending, run, new, is_paused}
use cpp_code.Task.Slot.{one_slot, one_slot_laws}
use cpp_code.Task.Waiting.{Wake, input_side, returned}
use cpp_code.Ota.Coroutine.{OtaState, downloading, run_coroutine}
use cpp_code.Ota.Total.{Ends, run_coroutine-Ends}
use cpp_code.Ota.Cancel.{cancel_wake, run_coroutine_cancelled}
use cpp_code.Ota.Race.{race_wake, run_coroutine_raced}
use cpp_code.Ota.Node.{node_running, OtaNode, on_start}

abbrev Slots : Type 0
Slots = Task (Option OtaState) (Option TaskCommand)

abbrev at_status : TaskStatus → Slots
at_status s = record {
  status = s;
  result = pending;
  cached_result = none;
  inputs = none;
  controls = none;
}

abbrev wakes : List (Wake OtaState)
wakes = cancel_wake ∷ record { before = []; side = input_side } ∷ []

-- A running task, whose input is there when the cancel is received.
abbrev given_input : Slots
given_input = record (at_status running) { inputs = some downloading }

run_coroutine_cancelled_example :
    run_coroutine one_slot one_slot 2 wakes given_input
    ≡ some (
      record given_input { status = TaskStatus.cancelled; controls = none; inputs = none },
      returned TaskResult.cancelled (record { before = []; side = input_side } ∷ []),
    )
unfolding is_paused
run_coroutine_cancelled_example =
    run_coroutine_cancelled one_slot one_slot one_slot_laws 0
      (record { before = []; side = input_side } ∷ []) given_input (inl refl) refl

abbrev race_wakes : List (Wake OtaState)
race_wakes = race_wake ∷ []

run_coroutine_raced_example :
    run_coroutine one_slot one_slot 2 race_wakes given_input
    ≡ some (
      record given_input { status = TaskStatus.cancelled; controls = none; inputs = none },
      returned TaskResult.cancelled [],
    )
run_coroutine_raced_example =
    run_coroutine_raced one_slot one_slot one_slot_laws 0 [] given_input downloading none refl refl
      refl

run_coroutine-Ends_example : Ends (run_coroutine one_slot one_slot 3 wakes (at_status running))
run_coroutine-Ends_example =
    run_coroutine-Ends one_slot one_slot 3 wakes (at_status running) (omega arith)

abbrev no_task : OtaNode (Option OtaState) (Option TaskCommand)
no_task = none

started_lem : (on_start none none no_task (some downloading)).1 ≡ node_running
unfolding on_start run new
started_lem = refl

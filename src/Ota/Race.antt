-- ===== src/Ota/Race.antt =====
-- OtaTask::run_coroutine: a cancel and an input that arrive together.
use cpp_code.Prelude.{ℕ, suc, ◌≡◌, refl, inl, some, List, [], ◌∷◌}
use cpp_code.Task.Status.{TaskCommand, TaskStatus, TaskResult, running, cancel, success, failure}
use cpp_code.Task.Object.{Channel, Task, cancels, message}
use cpp_code.Task.Waiting.{
  Wake, input_side, returned, value, raced, try_side, completed_by, wait_for_input_parameters,
}
use cpp_code.Task.Waiting.Round.{BufferOfOne}
use cpp_code.Ota.Coroutine.{
  OtaState, idle, downloading, verifying, updating, completed, failed, got_parameters, waited,
  run_coroutine,
}
use cpp_code.Ota.Cancel.{cancels_slot, still_live, running_wait, cancelled_turn}

abbrev pub race_wake : Wake OtaState
race_wake = record { before = cancels ∷ []; side = input_side }

-- What the coroutine returns where the input is received first.
abbrev pub raced_result : OtaState → TaskResult
raced_result idle = success
raced_result downloading = TaskResult.cancelled
raced_result verifying = TaskResult.cancelled
raced_result updating = TaskResult.cancelled
raced_result completed = success
raced_result failed = failure

module _ {In Ctl : Type 0} (ins : Channel In OtaState) (ctls : Channel Ctl TaskCommand)
    (one : BufferOfOne ctls) where
  abbrev after : Task In Ctl → In → Task In Ctl
  after t inputs = record t { status = TaskStatus.cancelled; controls = one.empty; inputs = inputs }

  input_first :
      (t : Task In Ctl) (rest : List (Wake OtaState)) (v : OtaState) (inputs : In)
      → t.status ≡ running
      → t.controls ≡ one.empty
      → ins.receive t.inputs ≡ some (message v, inputs)
      → wait_for_input_parameters ins ctls (race_wake ∷ rest) t
        ≡ (after t inputs, returned (value v) rest)
  unfolding wait_for_input_parameters try_side completed_by raced
  input_first t rest v inputs st em there =
      rw (cancels_slot ins ctls one t (inl st) em, there, one.receive-full cancel) refl

  switched_turn :
      (fuel : ℕ) (rest : List (Wake OtaState)) (t : Task In Ctl) (v : OtaState) (inputs : In)
      → got_parameters (run_coroutine ins ctls (suc fuel)) (after t inputs, returned (value v) rest)
        ≡ some (after t inputs, returned (raced_result v) rest)
  unfolding got_parameters
  switched_turn fuel rest t idle inputs = refl
  switched_turn fuel rest t downloading inputs = cancelled_turn ins ctls one fuel rest t inputs
  switched_turn fuel rest t verifying inputs = cancelled_turn ins ctls one fuel rest t inputs
  switched_turn fuel rest t updating inputs = cancelled_turn ins ctls one fuel rest t inputs
  switched_turn fuel rest t completed inputs = refl
  switched_turn fuel rest t failed inputs = refl

  -- Let a running task's coroutine wait for an input, with its control channel empty and an input
  -- there, when cancel() is called, and let the receive of the input complete first. Then CANCEL is
  -- received and lost and the task is cancelled. With the input IDLE or COMPLETED the coroutine
  -- nevertheless returns SUCCESS, with FAILED it returns FAILURE, and with another input it looks at
  -- the status in its next turn and returns CANCELLED.
  pub run_coroutine_raced :
      (fuel : ℕ) (rest : List (Wake OtaState)) (t : Task In Ctl) (v : OtaState) (inputs : In)
      → t.status ≡ running
      → t.controls ≡ one.empty
      → ins.receive t.inputs ≡ some (message v, inputs)
      → run_coroutine ins ctls (suc (suc fuel)) (race_wake ∷ rest) t
        ≡ some (
          record t { status = TaskStatus.cancelled; controls = one.empty; inputs = inputs },
          returned (raced_result v) rest,
        )
  unfolding run_coroutine waited
  run_coroutine_raced fuel rest t v inputs st em there =
      rw
        (
          still_live ins ctls one t (inl st),
          running_wait ins ctls one t (race_wake ∷ rest) st,
          input_first t rest v inputs st em there,
        )
        (switched_turn fuel rest t v inputs)

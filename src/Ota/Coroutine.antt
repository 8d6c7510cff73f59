-- ===== src/Ota/Coroutine.antt =====
-- 026.ota_state.cpp: OtaState and OtaTask::run_coroutine.
use cpp_code.Prelude.{
  ℕ, zero, suc, ◌≡◌, refl, Bool, true, false, Option, none, some, List, if◌then◌else◌, ◌↔◌, arith,
}
use Prim.Native.String.{String}
use text.Mathlib.TextEquality.{eq_iff}
use text.Mathlib.Text.{◌==◌ as str_eq}
use cpp_code.Task.Status.{TaskCommand, TaskResult, success, failure}
use cpp_code.Task.Object.{Channel, Task, is_cancelled}
use cpp_code.Task.Waiting.{
  Wake, Outcome, returned, suspended, Hooks, Expected, value, unexpected, async_wait_for_resume,
  wait_for_input_parameters,
}

pub data OtaState : Type 0 where
  idle downloading verifying updating completed failed : OtaState

unfoldable pub to_string : OtaState → String
to_string idle = "IDLE"
to_string downloading = "DOWNLOADING"
to_string verifying = "VERIFYING"
to_string updating = "UPDATING"
to_string completed = "COMPLETED"
to_string failed = "FAILED"

-- `none` is the RuntimeError thrown.
unfoldable pub convert_from_string : String → Option OtaState
convert_from_string s =
    if str_eq s "IDLE"
    then some idle
    else if str_eq s "DOWNLOADING"
    then some downloading
    else if str_eq s "VERIFYING"
    then some verifying
    else if str_eq s "UPDATING"
    then some updating
    else if str_eq s "COMPLETED"
    then some completed
    else if str_eq s "FAILED"
    then some failed
    else none

convert_from-to_string : (o : OtaState) → convert_from_string (to_string o) ≡ some o
unfolding to_string convert_from_string
convert_from-to_string idle = refl
convert_from-to_string downloading = refl
convert_from-to_string verifying = refl
convert_from-to_string updating = refl
convert_from-to_string completed = refl
convert_from-to_string failed = refl

converted : (s : String) (o : OtaState) → convert_from_string s ≡ some o → s ≡ to_string o
unfolding to_string convert_from_string
converted s o h = ground (
  arith,
  eq_iff s "IDLE",
  eq_iff s "DOWNLOADING",
  eq_iff s "VERIFYING",
  eq_iff s "UPDATING",
  eq_iff s "COMPLETED",
  eq_iff s "FAILED",
)

-- A text is read as a state exactly when it is the state's name; every other text throws.
pub convert_iff : (s : String) (o : OtaState) → (convert_from_string s ≡ some o) ↔ (s ≡ to_string o)
convert_iff s o = (converted s o, λ e. rw e (convert_from-to_string o))

-- when_pause and when_resume log and answer true; so does when_cancel, so that the loop which
-- waits for it ends at once.
abbrev pub ota_hooks : {In Ctl : Type 0} → Hooks In Ctl
ota_hooks = record { when_pause = λ _. true; when_resume = λ _. true }

-- The switch on an input: `none` is `continue`.
ended_by : OtaState → Option TaskResult
ended_by idle = some success
ended_by downloading = none
ended_by verifying = none
ended_by updating = none
ended_by completed = some success
ended_by failed = some failure

-- `none` means that the fuel ran out.
abbrev pub Run : Type 0 → Type 0 → Type 0
Run In Ctl = Option (Task In Ctl × Outcome OtaState TaskResult)

module _ {In Ctl : Type 0} where
  unfoldable pub switched :
      (List (Wake OtaState) → Task In Ctl → Run In Ctl)
      → List (Wake OtaState)
      → Task In Ctl
      → Option TaskResult
      → Run In Ctl
  switched again schedule t none = again schedule t
  switched again schedule t (some r) = some (t, returned r schedule)

  unfoldable pub got_parameters :
      (List (Wake OtaState) → Task In Ctl → Run In Ctl)
      → Task In Ctl × Outcome OtaState (Expected OtaState)
      → Run In Ctl
  unfolding switched ended_by
  got_parameters again (t, suspended) = some (t, suspended)
  got_parameters again (t, returned (unexpected e) schedule) = again schedule t
  got_parameters again (t, returned (value v) schedule) = switched again schedule t (ended_by v)

module _ {In Ctl : Type 0} (ins : Channel In OtaState) (ctls : Channel Ctl TaskCommand) where
  unfoldable pub waited :
      (List (Wake OtaState) → Task In Ctl → Run In Ctl)
      → Task In Ctl × Outcome OtaState Bool
      → Run In Ctl
  unfolding got_parameters
  waited again (t, suspended) = some (t, suspended)
  waited again (t, returned false schedule) = again schedule t
  waited again (t, returned true schedule) =
      got_parameters again (wait_for_input_parameters ins ctls schedule t)

  -- One turn of the loop for each unit of fuel.
  unfoldable pub run_coroutine : ℕ → List (Wake OtaState) → Task In Ctl → Run In Ctl
  unfolding waited
  run_coroutine zero schedule t = none
  run_coroutine (suc fuel) schedule t =
      let rest =
        waited (run_coroutine fuel) (async_wait_for_resume ins ctls ota_hooks schedule t) in
      if is_cancelled t then some (t, returned TaskResult.cancelled schedule) else rest

-- ===== src/TestTask.antt =====
-- behaviortree_test/024.test_task/024.test_task.cpp and 025.test_user_data/025.test_user_data.cpp:
-- the class TestTask, a task that another thread ends by end_task. The two files differ in the
-- order of its last two statements. The coroutine and the waits are as in task.hpp.
pub mod Order
mod Tests
use cpp_code.Prelude.{
  ℕ, zero, suc, ◌+◌, ◌-◌, ◌*◌, ◌/◌, ◌%◌, ◌^◌, ◌≤◌, ◌<◌, ◌≡◌, refl, sym, ap, ap₂, ◌∙◌, subst, ◌≢◌,
  ◌↔◌, ◌⊎◌, inl, inr, Bool, true, false, not, ◌&&◌, ◌||◌, Option, none, some, List, [], ◌∷◌, ◌++◌,
  arith, ltb, leb, ◌==◌, if◌then◌else◌, Bool-cases, Option-cases,
}
use cpp_code.Prelude.Int.{ℤ, pos, ltb_ℤ}
use cpp_code.Task.Status.{TaskCommand, TaskResult, success, failure}
use cpp_code.Task.Object.{Channel, Task, is_cancelled}
use cpp_code.Task.Waiting.{
  Wake, Outcome, returned, suspended, Hooks, Expected, async_wait_for_resume,
  wait_for_input_parameters,
}

-- What end_task stores in final_result_.
unfoldable pub final_of : ℤ → TaskResult
final_of value = if ltb_ℤ (pos 10) value then success else failure

-- when_pause and when_resume log and answer true; so does when_cancel.
abbrev pub test_hooks : {In Ctl : Type 0} → Hooks In Ctl
test_hooks = record { when_pause = λ t. true; when_resume = λ t. true }

-- `none` means that the fuel ran out.
abbrev pub Run : Type 0 → Type 0 → Type 0 → Type 0
Run In Ctl T = Option (Task In Ctl × Outcome T TaskResult)

module _ {In Ctl T : Type 0} (ins : Channel In T) (ctls : Channel Ctl TaskCommand) where
  abbrev Again : Type 0
  Again = List (Wake T) → Task In Ctl → Run In Ctl T

  -- An error is logged, and so is a value: the loop goes on after both.
  unfoldable pub got_parameters : Again → Task In Ctl × Outcome T (Expected T) → Run In Ctl T
  got_parameters again (t, suspended) = some (t, suspended)
  got_parameters again (t, returned e schedule) = again schedule t

  unfoldable pub waited : Again → Task In Ctl × Outcome T Bool → Run In Ctl T
  unfolding got_parameters
  waited again (t, suspended) = some (t, suspended)
  waited again (t, returned false schedule) = some (t, returned TaskResult.cancelled schedule)
  waited again (t, returned true schedule) =
      got_parameters again (wait_for_input_parameters ins ctls schedule t)

  -- One turn of the loop for each unit of fuel. `is_end` says what the flag holds when so much of
  -- the schedule is left.
  unfoldable pub run_coroutine :
      (List (Wake T) → Bool) → TaskResult → ℕ → List (Wake T) → Task In Ctl → Run In Ctl T
  unfolding waited
  run_coroutine is_end final zero schedule t = none
  run_coroutine is_end final (suc fuel) schedule t =
      let turn =
        waited (run_coroutine is_end final fuel)
          (async_wait_for_resume ins ctls test_hooks schedule t) in
      if is_end schedule
      then some (t, returned final schedule)
      else if is_cancelled t
      then some (t, returned TaskResult.cancelled schedule)
      else turn

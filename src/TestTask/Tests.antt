-- ===== src/TestTask/Tests.antt =====
-- The theorem on end_task at a concrete task.
use cpp_code.Prelude.{ℕ, ◌≡◌, refl, Bool, true, false, Option, none, some, List, [], ◌∷◌}
use cpp_code.Prelude.Int.{pos}
use cpp_code.Task.Status.{TaskCommand, running}
use cpp_code.Task.Object.{Future, Task}
use cpp_code.Task.Waiting.{returned, Wake}
use cpp_code.Task.Slot.{one_slot, one_slot_laws}
use cpp_code.TestTask.{final_of, run_coroutine}
use cpp_code.TestTask.Order.{resume_wake, end_task_order}

abbrev waiting_task : Task (Option ℕ) (Option TaskCommand)
waiting_task = record {
  status = running;
  result = Future.pending;
  cached_result = none;
  inputs = none;
  controls = none;
}

-- The flag is set before the coroutine looks again.
abbrev set_in_time : List (Wake ℕ) → Bool
set_in_time [] = true
set_in_time (w ∷ wakes) = false

end_task_order_example :
    run_coroutine one_slot one_slot set_in_time
      (final_of (pos 12))
      2
      (resume_wake one_slot one_slot ∷ [])
      waiting_task
    ≡ some (waiting_task, returned (final_of (pos 12)) [])
end_task_order_example =
    end_task_order one_slot one_slot one_slot_laws one_slot_laws set_in_time (final_of (pos 12)) 0
      [] waiting_task refl refl refl refl tt

-- ===== src/Ota/Total.antt =====
-- OtaTask::run_coroutine ends or is suspended, and what it returns.
use cpp_code.Prelude.{
  ℕ, zero, suc, ◌<◌, ◌≡◌, refl, ◌≢◌, inl, inr, Bool, true, false, none, some, List, arith,
  Bool-cases, length,
}
use cpp_code.Task.Status.{TaskCommand, TaskStatus, TaskResult, success, failure}
use cpp_code.Task.Object.{Channel, Task, is_cancelled}
use cpp_code.Task.Waiting.{
  Wake, Outcome, returned, suspended, Expected, value, unexpected, wait_for_input_parameters,
  async_wait_for_resume,
}
use cpp_code.Task.Waiting.Progress.{
  LeftBelow, Progress, async_wait_for_resume-Progress, wait_for_input-LeftBelow,
}
use cpp_code.Ota.Coroutine.{
  OtaState, idle, downloading, verifying, updating, completed, failed, ota_hooks, Run,
  got_parameters, waited, run_coroutine,
}

-- The run has an outcome: its fuel did not run out.
abbrev pub Ends : {In Ctl : Type 0} → Run In Ctl → Type 0
Ends r = r ≢ none

module _ {In Ctl : Type 0} (ins : Channel In OtaState) (ctls : Channel Ctl TaskCommand) where
  got-Ends :
      (again : List (Wake OtaState) → Task In Ctl → Run In Ctl) (n : ℕ)
      (r : Task In Ctl × Outcome OtaState (Expected OtaState))
      → ((s : List (Wake OtaState)) (u : Task In Ctl) → length s < n → Ends (again s u))
      → LeftBelow n r
      → Ends (got_parameters again r)
  unfolding got_parameters
  got-Ends again n (t, suspended) more h = λ e. cc
  got-Ends again n (t, returned (unexpected e) s) more h = more s t h
  got-Ends again n (t, returned (value idle) s) more h = λ e. cc
  got-Ends again n (t, returned (value downloading) s) more h = more s t h
  got-Ends again n (t, returned (value verifying) s) more h = more s t h
  got-Ends again n (t, returned (value updating) s) more h = more s t h
  got-Ends again n (t, returned (value completed) s) more h = λ e. cc
  got-Ends again n (t, returned (value failed) s) more h = λ e. cc

  waited-Ends :
      (again : List (Wake OtaState) → Task In Ctl → Run In Ctl) (n : ℕ)
      (r : Task In Ctl × Outcome OtaState Bool)
      → ((s : List (Wake OtaState)) (u : Task In Ctl) → length s < n → Ends (again s u))
      → Progress ins ctls ota_hooks n r
      → Ends (waited ins ctls again r)
  unfolding waited
  waited-Ends again n (t, suspended) more h = λ e. cc
  waited-Ends again n (t, returned false s) more h = more s t h
  waited-Ends again n (t, returned true s) more h =
      got-Ends again (length s) (wait_for_input_parameters ins ctls s t)
        (λ s' u h'. more s' u (omega arith)) (wait_for_input-LeftBelow ins ctls s t)

  -- The coroutine's loop needs no more turns than there are wakes in the schedule, and one:
  -- with that fuel it returns a result or is suspended at the end of the schedule, from any task.
  pub run_coroutine-Ends :
      (fuel : ℕ) (schedule : List (Wake OtaState)) (t : Task In Ctl)
      → length schedule < fuel
      → Ends (run_coroutine ins ctls fuel schedule t)
  unfolding run_coroutine
  run_coroutine-Ends zero schedule t h = absurd (omega arith)
  run_coroutine-Ends (suc fuel) schedule t h = elim (Bool-cases (is_cancelled t)) [
    | inl yes' ↦ rw yes' (λ e. cc)
    | inr no' ↦ rw no' (
        waited-Ends (run_coroutine ins ctls fuel) (length schedule) _
          (λ s u h'. run_coroutine-Ends fuel s u (omega arith))
          (async_wait_for_resume-Progress ins ctls ota_hooks schedule t (λ u. refl)))
  ]

  -- A run that returned CANCELLED left the task cancelled.
  abbrev pub CancelledIsSeen : Run In Ctl → Type 0
  CancelledIsSeen none = Unit {0}
  CancelledIsSeen (some (t, suspended)) = Unit {0}
  CancelledIsSeen (some (t, returned success s)) = Unit {0}
  CancelledIsSeen (some (t, returned failure s)) = Unit {0}
  CancelledIsSeen (some (t, returned TaskResult.cancelled s)) = t.status ≡ TaskStatus.cancelled

  got-Seen :
      (again : List (Wake OtaState) → Task In Ctl → Run In Ctl)
      (r : Task In Ctl × Outcome OtaState (Expected OtaState))
      → ((s : List (Wake OtaState)) (u : Task In Ctl) → CancelledIsSeen (again s u))
      → CancelledIsSeen (got_parameters again r)
  unfolding got_parameters
  got-Seen again (t, suspended) more = tt
  got-Seen again (t, returned (unexpected e) s) more = more s t
  got-Seen again (t, returned (value idle) s) more = tt
  got-Seen again (t, returned (value downloading) s) more = more s t
  got-Seen again (t, returned (value verifying) s) more = more s t
  got-Seen again (t, returned (value updating) s) more = more s t
  got-Seen again (t, returned (value completed) s) more = tt
  got-Seen again (t, returned (value failed) s) more = tt

  waited-Seen :
      (again : List (Wake OtaState) → Task In Ctl → Run In Ctl)
      (r : Task In Ctl × Outcome OtaState Bool)
      → ((s : List (Wake OtaState)) (u : Task In Ctl) → CancelledIsSeen (again s u))
      → CancelledIsSeen (waited ins ctls again r)
  unfolding waited
  waited-Seen again (t, suspended) more = tt
  waited-Seen again (t, returned false s) more = more s t
  waited-Seen again (t, returned true s) more =
      got-Seen again (wait_for_input_parameters ins ctls s t) more

  -- On any schedule and from any task, the coroutine returns CANCELLED only with the task's status
  -- CANCELLED at that moment.
  pub run_coroutine-Seen :
      (fuel : ℕ) (schedule : List (Wake OtaState)) (t : Task In Ctl)
      → CancelledIsSeen (run_coroutine ins ctls fuel schedule t)
  unfolding run_coroutine is_cancelled
  run_coroutine-Seen zero schedule t = tt
  run_coroutine-Seen (suc fuel) schedule t = ground (
    arith,
    waited-Seen (run_coroutine ins ctls fuel) (async_wait_for_resume ins ctls ota_hooks schedule t)
        (run_coroutine-Seen fuel),
  )

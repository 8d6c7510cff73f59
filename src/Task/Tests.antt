-- ===== src/Task/Tests.antt =====
-- The theorems on tasks at concrete tasks and channels.
use cpp_code.Prelude.{ℕ, ◌≡◌, refl, ◌≢◌, ◌↔◌, ◌⊎◌, true, false, Option, none, some, List, [], ◌∷◌}
use cpp_code.Task.Status.{TaskCommand, TaskStatus, running, success, pause}
use cpp_code.Task.Object.{
  Task, Call, new, pending, runs, polls, pauses, resumes, cancels, returns, run, calls, call,
  get_current_status, pause_task, resume_task, cancel_task, destroy, status_of,
}
use cpp_code.Task.Slot.{one_slot, one_slot_laws, one_slot_refuses}
use cpp_code.Task.Settled.{status_settled}
use cpp_code.Task.Destructor.{IsStuck, destroy_iff}
use cpp_code.Task.Waiting.{returned, Hooks, async_wait_for_resume}
use cpp_code.Task.Waiting.Round.{look, pause-resume}

abbrev Slots : Type 0
Slots = Task (Option ℕ) (Option TaskCommand)

abbrev fresh : Slots
fresh = new none none

abbrev at_status : TaskStatus → Slots
at_status s = record {
  status = s;
  result = pending;
  cached_result = none;
  inputs = none;
  controls = none;
}

abbrev willing : Hooks (Option ℕ) (Option TaskCommand)
willing = record { when_pause = λ t. true; when_resume = λ t. true }

abbrev first_run : List (Call ℕ)
first_run = runs ∷ returns success ∷ polls ∷ []

first_run_lem : (calls one_slot one_slot fresh first_run).cached_result ≡ some success
unfolding calls call run get_current_status new
first_run_lem = refl

status_settled_example :
    let t' =
      calls one_slot one_slot
        (calls one_slot one_slot fresh first_run)
        (cancels ∷ pauses ∷ runs ∷ []) in
    (t'.cached_result ≡ some success) × ((get_current_status t').1 ≡ status_of success)
status_settled_example =
    status_settled one_slot one_slot none none first_run (cancels ∷ pauses ∷ runs ∷ []) success
      first_run_lem

destroy_iff_example :
    (((rounds : ℕ) → destroy one_slot rounds fresh ≡ none) ↔ IsStuck one_slot fresh)
    × ((destroy one_slot 1 fresh ≢ none) ⊎ IsStuck one_slot fresh)
destroy_iff_example = destroy_iff one_slot fresh

pause-resume_example :
    let (t', done) = pause_task one_slot (at_status running) in
    (done ≡ true)
    × (t'.controls ≡ some pause)
    × (pause_task one_slot t' ≡ (t', false))
    × (resume_task one_slot t' ≡ (t', false))
    × (cancel_task one_slot t' ≡ (t', false))
    × (async_wait_for_resume one_slot one_slot willing (look [] ∷ look (resumes ∷ []) ∷ []) t'
        ≡ (at_status running, returned true []))
pause-resume_example =
    pause-resume one_slot one_slot one_slot_laws one_slot_refuses willing (at_status running) []
      refl refl (λ u. refl) (λ u. refl)

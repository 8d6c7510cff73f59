-- ===== src/Task/Waiting/Final.antt =====
-- What a wait can do to the status.
use cpp_code.Prelude.{
  ◌≡◌, ◌≢◌, ◌⊎◌, Bool, true, false, Option, none, some, List, [], ◌∷◌, arith, ◌↔◌,
}
use cpp_code.Task.Status.{
  TaskCommand, TaskStatus, paused, completed, failed, cancel, pause, resume, change_status,
  TaskResult,
}
use cpp_code.Task.Object.{
  Channel, Received, error, message, Task, Call, call, calls, is_paused, set_status, run,
  get_current_status, pause_task, resume_task, cancel_task, send_input_parameters, ready, status_of,
}
use cpp_code.Task.Waiting.{
  Wake, Outcome, returned, suspended, Hooks, loop_head, woken, await_control, async_wait_for_resume,
}

-- The statuses that the class calls final.
abbrev pub IsFinal : TaskStatus → Type 0
IsFinal s = (s ≡ completed) ⊎ (s ≡ failed) ⊎ (s ≡ TaskStatus.cancelled)

module _ {In Ctl T : Type 0} (ins : Channel In T) (ctls : Channel Ctl TaskCommand) where
  call-IsFinal :
      (t : Task In Ctl) (c : Call T) → IsFinal t.status → IsFinal (call ins ctls t c).status
  unfolding call run get_current_status pause_task resume_task cancel_task send_input_parameters
  call-IsFinal t c f = ground arith

  pub calls-IsFinal :
      (t : Task In Ctl) (cs : List (Call T))
      → IsFinal t.status
      → IsFinal (calls ins ctls t cs).status
  unfolding calls
  calls-IsFinal t [] f = f
  calls-IsFinal t (c ∷ cs) f = calls-IsFinal (call ins ctls t c) cs (call-IsFinal t c f)

  module _ (hooks : Hooks In Ctl) where
    woken-IsFinal :
        (rest : Task In Ctl → Task In Ctl × Outcome T Bool) (schedule : List (Wake T))
        (t : Task In Ctl) (r : Option (Received TaskCommand × Ctl))
        → ((u : Task In Ctl) → IsFinal u.status → IsFinal (rest u).0.status)
        → IsFinal t.status
        → IsFinal (woken hooks rest schedule t r).0.status
    unfolding woken loop_head is_paused set_status change_status
    woken-IsFinal rest schedule t none keep f = keep t f
    woken-IsFinal rest schedule t (some (error, c)) keep f = f
    woken-IsFinal rest schedule t (some (message cancel, c)) keep f = f
    woken-IsFinal rest schedule t (some (message pause, c)) keep f =
        ground (arith, keep (record t { controls = c }) f)
    woken-IsFinal rest schedule t (some (message resume, c)) keep f = ground arith

    await-IsFinal :
        (schedule : List (Wake T)) (t : Task In Ctl)
        → IsFinal t.status
        → IsFinal (await_control ins ctls hooks schedule t).0.status
    unfolding await_control
    await-IsFinal [] t f = f
    await-IsFinal (w ∷ schedule) t f =
        woken-IsFinal (await_control ins ctls hooks schedule) schedule _ _ (await-IsFinal schedule)
          (calls-IsFinal t w.before f)

    -- A completed, failed or cancelled task stays one of these through any wait for a resume,
    -- whatever the hooks answer and whatever calls and commands arrive meanwhile: RESUME does not
    -- set a cancelled task running.
    pub async_wait_for_resume-IsFinal :
        (schedule : List (Wake T)) (t : Task In Ctl)
        → IsFinal t.status
        → IsFinal (async_wait_for_resume ins ctls hooks schedule t).0.status
    unfolding async_wait_for_resume loop_head is_paused
    async_wait_for_resume-IsFinal schedule t f = ground (arith, await-IsFinal schedule t f)

    -- What a wait that returned true is known to have.
    abbrev pub Resumed : Task In Ctl × Outcome T Bool → Type 0
    Resumed (t, returned true schedule) = t.status ≢ paused
    Resumed (t, returned false schedule) = Unit {0}
    Resumed (t, suspended) = Unit {0}

    woken-Resumed :
        (rest : Task In Ctl → Task In Ctl × Outcome T Bool) (schedule : List (Wake T))
        (t : Task In Ctl) (r : Option (Received TaskCommand × Ctl))
        → ((u : Task In Ctl) → Resumed (rest u))
        → Resumed (woken hooks rest schedule t r)
    unfolding woken loop_head is_paused set_status change_status
    woken-Resumed rest schedule t none keep = keep t
    woken-Resumed rest schedule t (some (error, c)) keep = tt
    woken-Resumed rest schedule t (some (message cancel, c)) keep = tt
    woken-Resumed rest schedule t (some (message pause, c)) keep =
        ground (arith, keep (record t { controls = c }))
    woken-Resumed rest schedule t (some (message resume, c)) keep = ground arith

    await-Resumed :
        (schedule : List (Wake T)) (t : Task In Ctl)
        → Resumed (await_control ins ctls hooks schedule t)
    unfolding await_control
    await-Resumed [] t = tt
    await-Resumed (w ∷ schedule) t =
        woken-Resumed (await_control ins ctls hooks schedule) schedule _ _ (await-Resumed schedule)

    -- Where a wait for a resume co_returns true the task is not paused, whatever the hooks answer
    -- and whatever calls and commands arrive meanwhile.
    pub async_wait_for_resume-Resumed :
        (schedule : List (Wake T)) (t : Task In Ctl)
        → Resumed (async_wait_for_resume ins ctls hooks schedule t)
    unfolding async_wait_for_resume loop_head is_paused
    async_wait_for_resume-Resumed schedule t = ground (arith, await-Resumed schedule t)

-- set_status keeps CANCELLED, and so calls it final; get_current_status does not. A cancelled task
-- whose coroutine has ended with a result that nobody has read takes that result's status with the
-- next get_current_status, where set_status refuses any result but CANCELLED.
pub cancelled_overwritten :
    {In Ctl : Type 0} (t : Task In Ctl) (r : TaskResult)
    → t.status ≡ TaskStatus.cancelled
    → t.cached_result ≡ none
    → t.result ≡ ready r
    → ((get_current_status t).1 ≡ status_of r)
      × (((set_status t (status_of r)).1 ≡ true) ↔ (r ≡ TaskResult.cancelled))
unfolding get_current_status set_status change_status
cancelled_overwritten t r st unread end = ground arith

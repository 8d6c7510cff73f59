-- ===== src/Ota/Cancel.antt =====
-- A cancel reaches the coroutine.
use cpp_code.Prelude.{
  ℕ, suc, ◌≡◌, refl, ◌⊎◌, inl, inr, true, false, some, List, [], ◌∷◌, arith, Option, none,
  if◌then◌else◌,
}
use cpp_code.Task.Status.{TaskCommand, TaskStatus, TaskResult, running, paused, cancel}
use cpp_code.Task.Object.{
  Received, message, Channel, Task, cancels, call, calls, cancel_task, is_cancelled, is_paused,
}
use cpp_code.Task.Waiting.{
  raced, try_side, completed_by, Wake, control_side, returned, unexpected, cancelled_while_waiting,
  async_wait_for_resume, await_control, loop_head, woken, wait_for_input_parameters,
}
use cpp_code.Task.Waiting.Round.{BufferOfOne}
use cpp_code.Ota.Coroutine.{OtaState, ota_hooks, got_parameters, waited, run_coroutine}

abbrev pub cancel_wake : Wake OtaState
cancel_wake = record { before = cancels ∷ []; side = control_side }

module _ {In Ctl : Type 0} (ins : Channel In OtaState) (ctls : Channel Ctl TaskCommand)
    (one : BufferOfOne ctls) where
  abbrev pub gone : Task In Ctl → Task In Ctl
  gone t = record t { status = TaskStatus.cancelled; controls = one.empty }

  -- The input channel after a receive that may have been pending on it.
  abbrev pub left_by : Option (Received OtaState × In) → In → In
  left_by none inputs = inputs
  left_by (some (m, rest)) inputs = rest

  abbrev pub inputs_left : Task In Ctl → In
  inputs_left t = if is_paused t then t.inputs else left_by (ins.receive t.inputs) t.inputs

  pub cancels_slot :
      (t : Task In Ctl)
      → (t.status ≡ running) ⊎ (t.status ≡ paused)
      → t.controls ≡ one.empty
      → calls ins ctls t (cancels ∷ [])
        ≡ record t { status = TaskStatus.cancelled; controls = one.full cancel }
  unfolding calls call cancel_task
  cancels_slot t live em = ground (arith, one.send-empty cancel)

  paused_test : (t : Task In Ctl) → t.status ≡ paused → is_paused t ≡ true
  unfolding is_paused
  paused_test t st = ground arith

  paused_wait :
      (t : Task In Ctl) (rest : List (Wake OtaState))
      → t.status ≡ paused
      → t.controls ≡ one.empty
      → async_wait_for_resume ins ctls ota_hooks (cancel_wake ∷ rest) t
        ≡ (gone t, returned false rest)
  unfolding async_wait_for_resume await_control woken loop_head
  paused_wait t rest st em =
      rw (paused_test t st, cancels_slot t (inr st) em) (simp one.receive-full)

  pub running_wait :
      (t : Task In Ctl) (schedule : List (Wake OtaState))
      → t.status ≡ running
      → async_wait_for_resume ins ctls ota_hooks schedule t ≡ (t, returned true schedule)
  unfolding async_wait_for_resume loop_head is_paused
  running_wait t schedule st = ground arith

  control_wins :
      (t : Task In Ctl) (r : Option (Received OtaState × In))
      → raced ins ctls control_side t r (some (message cancel, one.empty))
        ≡ some (
          unexpected cancelled_while_waiting,
          record t { inputs = left_by r t.inputs; controls = one.empty },
        )
  unfolding raced
  control_wins t none = ground arith
  control_wins t (some (m, rest)) = refl

  running_input :
      (t : Task In Ctl) (rest : List (Wake OtaState))
      → t.status ≡ running
      → t.controls ≡ one.empty
      → wait_for_input_parameters ins ctls (cancel_wake ∷ rest) t ≡ (
        record (gone t) { inputs = left_by (ins.receive t.inputs) t.inputs },
        returned (unexpected cancelled_while_waiting) rest,
      )
  unfolding wait_for_input_parameters try_side completed_by
  running_input t rest st em =
      rw (cancels_slot t (inl st) em, one.receive-full cancel)
        (rw
          (control_wins (record t { status = TaskStatus.cancelled; controls = one.full cancel })
            (ins.receive t.inputs))
          refl)

  pub still_live :
      (t : Task In Ctl) → (t.status ≡ running) ⊎ (t.status ≡ paused) → is_cancelled t ≡ false
  unfolding is_cancelled
  still_live t live = ground arith

  pub cancelled_turn :
      (fuel : ℕ) (rest : List (Wake OtaState)) (t : Task In Ctl) (inputs : In)
      → run_coroutine ins ctls (suc fuel) rest (record (gone t) { inputs = inputs })
        ≡ some (record (gone t) { inputs = inputs }, returned TaskResult.cancelled rest)
  unfolding run_coroutine is_cancelled
  cancelled_turn fuel rest t inputs = refl

  running_test : (t : Task In Ctl) → t.status ≡ running → is_paused t ≡ false
  unfolding is_paused
  running_test t st = ground arith

  -- Let the control channel be empty and the coroutine of a running or paused task be suspended
  -- when cancel() is called, and let the receive of that command complete first. Then the coroutine
  -- returns CANCELLED with that wake, in two turns of its loop, and leaves the task cancelled and
  -- its control channel empty. A paused task's inputs are as they were; a running task's coroutine
  -- was waiting for an input too, and an input that is there is received with the command and lost.
  pub run_coroutine_cancelled :
      (fuel : ℕ) (rest : List (Wake OtaState)) (t : Task In Ctl)
      → (t.status ≡ running) ⊎ (t.status ≡ paused)
      → t.controls ≡ one.empty
      → run_coroutine ins ctls (suc (suc fuel)) (cancel_wake ∷ rest) t
        ≡ some (
          record t { status = TaskStatus.cancelled; controls = one.empty; inputs = inputs_left t },
          returned TaskResult.cancelled rest,
        )
  unfolding run_coroutine waited got_parameters
  run_coroutine_cancelled fuel rest t (inl st) em =
      rw (still_live t (inl st), running_wait t _ st, running_input t rest st em, running_test t st)
        (cancelled_turn fuel rest t (left_by (ins.receive t.inputs) t.inputs))
  run_coroutine_cancelled fuel rest t (inr st) em =
      rw (still_live t (inr st), paused_wait t rest st em, paused_test t st)
        (cancelled_turn fuel rest t t.inputs)

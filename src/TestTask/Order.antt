-- ===== src/TestTask/Order.antt =====
-- The order of end_task's last two statements.
use cpp_code.Prelude.{
  ℕ, zero, suc, ◌<◌, ◌≡◌, refl, ◌∙◌, ◌≢◌, inl, inr, Bool, true, false, none, some, List, [], ◌∷◌,
  arith, Bool-cases, length, if◌then◌else◌,
}
use cpp_code.Task.Status.{TaskCommand, TaskResult, running, resume}
use cpp_code.Task.Object.{Channel, Task, resumes, call, calls, resume_task, is_cancelled, is_paused}
use cpp_code.Task.Waiting.{
  raced, try_side, completed_by, Wake, Side, control_side, Outcome, returned, suspended, Expected,
  unexpected, resumed_while_waiting, async_wait_for_resume, loop_head, wait_for_input_parameters,
}
use cpp_code.Task.Waiting.Round.{BufferOfOne}
use cpp_code.Task.Waiting.Progress.{
  LeftBelow, Progress, async_wait_for_resume-Progress, wait_for_input-LeftBelow,
}
use cpp_code.TestTask.{test_hooks, Run, got_parameters, waited, run_coroutine}

module _ {In Ctl T : Type 0} (ins : Channel In T) (ctls : Channel Ctl TaskCommand) where
  -- The run has an outcome: its fuel did not run out.
  abbrev pub Ends : Run In Ctl T → Type 0
  Ends r = r ≢ none

  got-Ends :
      (again : List (Wake T) → Task In Ctl → Run In Ctl T) (n : ℕ)
      (r : Task In Ctl × Outcome T (Expected T))
      → ((s : List (Wake T)) (u : Task In Ctl) → length s < n → Ends (again s u))
      → LeftBelow n r
      → Ends (got_parameters ins ctls again r)
  unfolding got_parameters
  got-Ends again n (t, suspended) more h = λ e. cc
  got-Ends again n (t, returned v s) more h = more s t h

  waited-Ends :
      (again : List (Wake T) → Task In Ctl → Run In Ctl T) (n : ℕ)
      (r : Task In Ctl × Outcome T Bool)
      → ((s : List (Wake T)) (u : Task In Ctl) → length s < n → Ends (again s u))
      → Progress ins ctls test_hooks n r
      → Ends (waited ins ctls again r)
  unfolding waited
  waited-Ends again n (t, suspended) more h = λ e. cc
  waited-Ends again n (t, returned false s) more h = λ e. cc
  waited-Ends again n (t, returned true s) more h =
      got-Ends again (length s) (wait_for_input_parameters ins ctls s t)
        (λ s' u h'. more s' u (omega arith)) (wait_for_input-LeftBelow ins ctls s t)

  module _ (is_end : List (Wake T) → Bool) (final : TaskResult) where
    -- With one unit of fuel more than wakes the coroutine returns or is suspended.
    pub run_coroutine-Ends :
        (fuel : ℕ) (schedule : List (Wake T)) (t : Task In Ctl)
        → length schedule < fuel
        → Ends (run_coroutine ins ctls is_end final fuel schedule t)
    unfolding run_coroutine
    run_coroutine-Ends zero schedule t h = absurd (omega arith)
    run_coroutine-Ends (suc fuel) schedule t h = elim (Bool-cases (is_end schedule)) [
      | inl over ↦ rw over (λ e. cc)
      | inr on ↦ elim (Bool-cases (is_cancelled t)) [
        | inl gone ↦ rw (on, gone) (λ e. cc)
        | inr live ↦
            rw (on, live)
              (waited-Ends (run_coroutine ins ctls is_end final fuel) (length schedule) _
                (λ s u h'. run_coroutine-Ends fuel s u (omega arith))
                (async_wait_for_resume-Progress ins ctls test_hooks schedule t (λ u. refl)))
      ]
    ]

  abbrev pub resume_wake : Wake T
  resume_wake = record { before = resumes ∷ []; side = control_side }

  -- Nobody calls the task's methods.
  abbrev pub AllIdle : List (Wake T) → Type 0
  AllIdle [] = Unit {0}
  AllIdle (w ∷ wakes) = (w.before ≡ []) × AllIdle wakes

  module _ (one : BufferOfOne ctls) (in_one : BufferOfOne ins) where
    live : (t : Task In Ctl) → t.status ≡ running → is_cancelled t ≡ false
    unfolding is_cancelled
    live t st = ground arith

    not_paused :
        (t : Task In Ctl) (schedule : List (Wake T))
        → t.status ≡ running
        → async_wait_for_resume ins ctls test_hooks schedule t ≡ (t, returned true schedule)
    unfolding async_wait_for_resume loop_head is_paused
    not_paused t schedule st = ground arith

    resumes_slot :
        (t : Task In Ctl)
        → t.controls ≡ one.empty
        → calls ins ctls t (resumes ∷ []) ≡ record t { controls = one.full resume }
    unfolding calls call resume_task
    resumes_slot t em = ground (arith, one.send-empty resume)

    woken_input :
        (t : Task In Ctl) (rest : List (Wake T))
        → t.controls ≡ one.empty
        → t.inputs ≡ in_one.empty
        → wait_for_input_parameters ins ctls (resume_wake ∷ rest) t
          ≡ (record t { controls = one.empty }, returned (unexpected resumed_while_waiting) rest)
    unfolding wait_for_input_parameters try_side raced completed_by
    woken_input t rest em ei =
        rw (resumes_slot t em, ei, in_one.receive-empty, one.receive-full resume) refl

    nothing :
        (side : Side) (t : Task In Ctl)
        → t.controls ≡ one.empty
        → t.inputs ≡ in_one.empty
        → try_side ins ctls side t ≡ none
    unfolding try_side raced
    nothing side t em ei = rw (ei, in_one.receive-empty, em, one.receive-empty) refl

    idle_input :
        (t : Task In Ctl) (wakes : List (Wake T))
        → t.controls ≡ one.empty
        → t.inputs ≡ in_one.empty
        → AllIdle wakes
        → wait_for_input_parameters ins ctls wakes t ≡ (t, suspended)
    unfolding wait_for_input_parameters calls completed_by
    idle_input t [] em ei h = refl
    idle_input t (w ∷ wakes) em ei (none_before, h) =
        rw (none_before, nothing w.side t em ei) (idle_input t wakes em ei h)

    module _ (is_end : List (Wake T) → Bool) (final : TaskResult) where
      first_turn :
          (fuel : ℕ) (rest : List (Wake T)) (t : Task In Ctl)
          → t.status ≡ running
          → t.controls ≡ one.empty
          → t.inputs ≡ in_one.empty
          → is_end (resume_wake ∷ rest) ≡ false
          → run_coroutine ins ctls is_end final (suc fuel) (resume_wake ∷ rest) t
            ≡ run_coroutine ins ctls is_end final fuel rest (record t { controls = one.empty })
      unfolding run_coroutine waited got_parameters
      first_turn fuel rest t st em ei on =
          rw (on, live t st, not_paused t _ st, woken_input t rest em ei) refl

      over_turn :
          (fuel : ℕ) (rest : List (Wake T)) (t : Task In Ctl)
          → is_end rest ≡ true
          → run_coroutine ins ctls is_end final (suc fuel) rest t ≡ some (t, returned final rest)
      unfolding run_coroutine
      over_turn fuel rest t over = rw over refl

      idle_turn :
          (fuel : ℕ) (rest : List (Wake T)) (t : Task In Ctl)
          → t.status ≡ running
          → t.controls ≡ one.empty
          → t.inputs ≡ in_one.empty
          → is_end rest ≡ false
          → AllIdle rest
          → run_coroutine ins ctls is_end final (suc fuel) rest t ≡ some (t, suspended)
      unfolding run_coroutine waited got_parameters
      idle_turn fuel rest t st em ei on h =
          rw (on, live t st, not_paused t rest st, idle_input t rest em ei h) refl

      -- A running task's coroutine waits for input, its channels empty and is_end not set; end_task
      -- calls resume(), and nobody calls another method afterwards. If is_end is set before the
      -- coroutine looks at it again, as 025 has it, the coroutine returns the final result. If it is
      -- set only later, as 024 lets it, the coroutine waits again and is suspended to the end of
      -- the schedule, whatever is_end then holds.
      pub end_task_order :
          (fuel : ℕ) (rest : List (Wake T)) (t : Task In Ctl)
          → t.status ≡ running
          → t.controls ≡ one.empty
          → t.inputs ≡ in_one.empty
          → is_end (resume_wake ∷ rest) ≡ false
          → AllIdle rest
          → run_coroutine ins ctls is_end final (suc (suc fuel)) (resume_wake ∷ rest) t
            ≡ some (
              record t { controls = one.empty },
              (if is_end rest then returned final rest else suspended),
            )
      end_task_order fuel rest t st em ei on h = elim (Bool-cases (is_end rest)) [
        | inl over ↦ rw over (first_turn (suc fuel) rest t st em ei on ∙ over_turn fuel rest _ over)
        | inr late ↦
            rw late
              (first_turn (suc fuel) rest t st em ei on ∙ idle_turn fuel rest _ st refl ei late h)
      ]

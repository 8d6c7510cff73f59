-- ===== src/Task/Waiting/Round.antt =====
-- A pause and a resume, from the caller's side and the coroutine's.
use cpp_code.Prelude.{◌≡◌, true, false, none, some, List, [], ◌∷◌, arith, refl, ◌∙◌, Bool}
use cpp_code.Task.Status.{TaskCommand, running, pause, resume, change_status, paused}
use cpp_code.Task.Object.{
  Channel, message, Task, Call, resumes, calls, call, is_paused, set_status, pause_task,
  resume_task, cancel_task,
}
use cpp_code.Task.Waiting.{
  Wake, control_side, returned, Hooks, loop_head, woken, await_control, async_wait_for_resume,
  Outcome,
}

-- A channel with a buffer of one message, as the constructor of Task opens its two: what it does with
-- one message. A message that is handed to a receive that is pending is there for the next wake as a
-- buffered one is.
pub record BufferOfOne {Ch A : Type 0} (ch : Channel Ch A) : Type 0 where
  pub empty : Ch
  pub full : A → Ch
  pub send-empty : (a : A) → ch.try_send empty a ≡ some (full a)
  pub receive-empty : ch.receive empty ≡ none
  pub receive-full : (a : A) → ch.receive (full a) ≡ some (message a, empty)

-- It refuses a second message while no receive is pending on it. To a receive that is pending a
-- message is handed at once, and the buffer stays empty: nothing is said of a second one then.
pub record RefusesSecond {Ch A : Type 0} (ch : Channel Ch A) (one : BufferOfOne ch) : Type 0 where
  pub send-full : (a b : A) → ch.try_send (one.full a) b ≡ none

abbrev pub look : {T : Type 0} → List (Call T) → Wake T
look before = record { before = before; side = control_side }

module _ {In Ctl T : Type 0} (ins : Channel In T) (ctls : Channel Ctl TaskCommand)
    (one : BufferOfOne ctls) (no_receive : RefusesSecond ctls one) (hooks : Hooks In Ctl) where
  abbrev parked : Task In Ctl → Task In Ctl
  parked t = record t { status = paused; controls = one.full pause }

  pause-parked :
      (t : Task In Ctl)
      → t.status ≡ running
      → t.controls ≡ one.empty
      → pause_task ctls t ≡ (parked t, true)
  unfolding pause_task
  pause-parked t st em = ground (arith, one.send-empty pause)

  abbrev received : Task In Ctl → Task In Ctl
  received t = record t { status = paused; controls = one.empty }

  resumes_slot :
      (t : Task In Ctl)
      → calls ins ctls (received t) (resumes ∷ [])
        ≡ record t { status = paused; controls = one.full resume }
  unfolding calls call resume_task
  resumes_slot t = ground (arith, one.send-empty resume)

  woken_by_pause :
      (t : Task In Ctl) (schedule : List (Wake T))
      → ((u : Task In Ctl) → hooks.when_pause u ≡ true)
      → async_wait_for_resume ins ctls hooks (look [] ∷ schedule) (parked t)
        ≡ await_control ins ctls hooks schedule (received t)
  unfolding async_wait_for_resume woken loop_head is_paused calls
  woken_by_pause t schedule hp = simp (hp, one.receive-full)

  woken_by_resume :
      (t : Task In Ctl) (rest : List (Wake T))
      → ((u : Task In Ctl) → hooks.when_resume u ≡ true)
      → await_control ins ctls hooks (look (resumes ∷ []) ∷ rest) (received t)
        ≡ (record t { status = running; controls = one.empty }, returned true rest)
  unfolding await_control woken set_status change_status
  woken_by_resume t rest hr = rw (resumes_slot t) (simp (one.receive-full, hr))

  parked_refuses :
      (t : Task In Ctl)
      → let t' = parked t in
        (pause_task ctls t' ≡ (t', false))
        × (resume_task ctls t' ≡ (t', false))
        × (cancel_task ctls t' ≡ (t', false))
  unfolding pause_task resume_task cancel_task
  parked_refuses t = simp no_receive.send-full (refl, refl, refl)

  -- A running task is paused while its control channel is empty and its coroutine is at work, in no
  -- receive on that channel: pause() returns true, with PAUSE sent through the channel, and a second
  -- pause(), a resume() and a cancel() are refused, each leaving the task as it is, until the
  -- coroutine's next receive. The coroutine receives PAUSE and waits on; then a resume() wakes it,
  -- its wait co_returns true, and the task is as it was before the pause. The hooks are taken to
  -- answer true.
  pub pause-resume :
      (t : Task In Ctl) (rest : List (Wake T))
      → t.status ≡ running
      → t.controls ≡ one.empty
      → ((u : Task In Ctl) → hooks.when_pause u ≡ true)
      → ((u : Task In Ctl) → hooks.when_resume u ≡ true)
      → let (t', done) = pause_task ctls t in
        (done ≡ true)
        × (t'.controls ≡ one.full pause)
        × (pause_task ctls t' ≡ (t', false))
        × (resume_task ctls t' ≡ (t', false))
        × (cancel_task ctls t' ≡ (t', false))
        × (async_wait_for_resume ins ctls hooks (look [] ∷ look (resumes ∷ []) ∷ rest) t'
            ≡ (t, returned true rest))
  pause-resume t rest st em hp hr =
      let (no_pause, no_resume, no_cancel) = parked_refuses t in
      let wait = woken_by_pause t _ hp ∙ woken_by_resume t rest hr ∙ back in
      rw (pause-parked t st em) (refl, refl, no_pause, no_resume, no_cancel, wait)
    where
      back :
          ◌≡◌ {A = Task In Ctl × Outcome T Bool}
            (record t { status = running; controls = one.empty }, returned true rest)
            (t, returned true rest)
      back = ground arith

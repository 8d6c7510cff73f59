-- ===== src/Task/Waiting.antt =====
-- task.hpp: what a coroutine waits with. While it is suspended other threads call the object's
-- public methods: a schedule gives the calls made before each time that it may be woken, and which
-- of two receives completes first; the channel says what a receive completes with, if it does. A
-- message that comes while a receive is pending stays in the channel's state until the wake.
pub mod Final
pub mod Round
pub mod Progress
use cpp_code.Prelude.{
  Bool, true, false, Option, none, some, List, [], ◌∷◌, if◌then◌else◌, ℕ, zero, suc, ◌+◌, ◌-◌, ◌*◌,
  ◌/◌, ◌%◌, ◌^◌, ◌≤◌, ◌<◌, ◌≡◌, refl, sym, ap, ap₂, ◌∙◌, subst, ◌≢◌, ◌↔◌, ◌⊎◌, inl, inr, not, ◌&&◌,
  ◌||◌, ◌++◌, arith, ltb, leb, ◌==◌, Bool-cases, Option-cases,
}
use cpp_code.Task.Status.{TaskCommand, running, cancel, pause, resume}
use cpp_code.Task.Object.{
  Channel, Received, error, message, Task, Call, calls, is_paused, set_status,
}

pub data Side : Type 0 where
  input_side control_side : Side

pub record Wake (T : Type 0) : Type 0 where
  pub before : List (Call T)
  pub side : Side

-- A co_return, with what is left of the schedule; or the schedule has ended in a suspension.
pub data Outcome (T A : Type 0) : Type 0 where
  returned : A → List (Wake T) → Outcome T A
  suspended : Outcome T A

-- The virtual methods that a task may override, as functions of the object.
pub record Hooks (In Ctl : Type 0) : Type 0 where
  pub when_pause : Task In Ctl → Bool
  pub when_resume : Task In Ctl → Bool

-- The errors of wait_for_input_parameters, named for their texts.
pub data WaitError : Type 0 where
  channel_error cancelled_while_waiting paused_while_waiting resumed_while_waiting : WaitError

-- tl::expected<T, std::string>
pub data Expected (T : Type 0) : Type 0 where
  value : T → Expected T
  unexpected : WaitError → Expected T

module _ {In Ctl T : Type 0} (hooks : Hooks In Ctl) where
  -- The head of the loop, given what follows a suspension.
  unfoldable pub loop_head :
      (Task In Ctl → Task In Ctl × Outcome T Bool)
      → List (Wake T)
      → Task In Ctl
      → Task In Ctl × Outcome T Bool
  loop_head rest schedule t =
      if is_paused t
      then (if hooks.when_pause t then rest t else (t, returned false schedule))
      else (t, returned true schedule)

  wake_up : List (Wake T) → Task In Ctl → Task In Ctl × Outcome T Bool
  wake_up schedule t =
      if hooks.when_resume t
      then (let (t', done) = set_status t running in (t', returned done schedule))
      else (t, returned false schedule)

  received_control :
      (Task In Ctl → Task In Ctl × Outcome T Bool)
      → List (Wake T)
      → Task In Ctl
      → Received TaskCommand
      → Task In Ctl × Outcome T Bool
  unfolding wake_up loop_head
  received_control rest schedule t error = (t, returned false schedule)
  received_control rest schedule t (message resume) = wake_up schedule t
  received_control rest schedule t (message pause) = loop_head rest schedule t
  received_control rest schedule t (message cancel) = (t, returned false schedule)

  unfoldable pub woken :
      (Task In Ctl → Task In Ctl × Outcome T Bool)
      → List (Wake T)
      → Task In Ctl
      → Option (Received TaskCommand × Ctl)
      → Task In Ctl × Outcome T Bool
  unfolding received_control
  woken rest schedule t none = rest t
  woken rest schedule t (some (m, controls)) =
      received_control rest schedule (record t { controls = controls }) m

module _ {In Ctl T : Type 0} (ins : Channel In T) (ctls : Channel Ctl TaskCommand) where
  module _ (hooks : Hooks In Ctl) where
    -- Suspended in async_receive.
    unfoldable pub await_control : List (Wake T) → Task In Ctl → Task In Ctl × Outcome T Bool
    unfolding woken
    await_control [] t = (t, suspended)
    await_control (w ∷ schedule) t =
        let t' = calls ins ctls t w.before in
        woken hooks (await_control schedule) schedule t' (ctls.receive t'.controls)

    unfoldable pub async_wait_for_resume :
        List (Wake T) → Task In Ctl → Task In Ctl × Outcome T Bool
    unfolding loop_head await_control
    async_wait_for_resume schedule t = loop_head hooks (await_control schedule) schedule t

  command_error : TaskCommand → WaitError
  command_error cancel = cancelled_while_waiting
  command_error pause = paused_while_waiting
  command_error resume = resumed_while_waiting

  got_input : Received T → Expected T
  got_input error = unexpected channel_error
  got_input (message v) = value v

  got_command : Received TaskCommand → Expected T
  unfolding command_error
  got_command error = unexpected channel_error
  got_command (message c) = unexpected (command_error c)

  -- `a || b` starts both receives, and the first that completes gives the result. Where both
  -- channels have a message both complete, and the message of the side that is later is lost.
  unfoldable pub raced :
      Side
      → Task In Ctl
      → Option (Received T × In)
      → Option (Received TaskCommand × Ctl)
      → Option (Expected T × Task In Ctl)
  unfolding got_input got_command
  raced side t none none = none
  raced side t (some (m, inputs)) none = some (got_input m, record t { inputs = inputs })
  raced side t none (some (c, controls)) = some (got_command c, record t { controls = controls })
  raced input_side t (some (m, inputs)) (some (c, controls)) =
      some (got_input m, record t { inputs = inputs; controls = controls })
  raced control_side t (some (m, inputs)) (some (c, controls)) =
      some (got_command c, record t { inputs = inputs; controls = controls })

  unfoldable pub try_side : Side → Task In Ctl → Option (Expected T × Task In Ctl)
  unfolding raced
  try_side side t = raced side t (ins.receive t.inputs) (ctls.receive t.controls)

  unfoldable pub completed_by :
      (Task In Ctl → Task In Ctl × Outcome T (Expected T))
      → List (Wake T)
      → Task In Ctl
      → Option (Expected T × Task In Ctl)
      → Task In Ctl × Outcome T (Expected T)
  completed_by rest schedule t none = rest t
  completed_by rest schedule t (some (e, t')) = (t', returned e schedule)

  unfoldable pub wait_for_input_parameters :
      List (Wake T) → Task In Ctl → Task In Ctl × Outcome T (Expected T)
  unfolding try_side completed_by
  wait_for_input_parameters [] t = (t, suspended)
  wait_for_input_parameters (w ∷ schedule) t =
      let t' = calls ins ctls t w.before in
      completed_by (wait_for_input_parameters schedule) schedule t' (try_side w.side t')

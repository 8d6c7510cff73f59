-- ===== src/Task/Object.antt =====
-- task.hpp: the object Task<T> and its public methods. A method takes the object and returns it
-- changed, with its result. The two channels are boost's: they enter as `Channel`, and the future
-- of the coroutine's result is what std::future shows of it. Each method holds the mutex from its
-- first read of the status to its last write, so it is one step.
use cpp_code.Prelude.{
  ℕ, zero, suc, Bool, true, false, ◌||◌, Option, none, some, List, [], ◌∷◌, if◌then◌else◌,
}
use cpp_code.Task.Status.{
  TaskCommand, TaskStatus, initial, running, completed, failed, paused, TaskResult, success,
  failure, is_status, change_status, cancel, pause, resume,
}

-- What a receive completes with.
pub data Received (A : Type 0) : Type 0 where
  error : Received A
  message : A → Received A

-- boost::asio::experimental::channel<void(error_code, A)> over a type `Ch` of its states:
-- `try_send` is none where it returns false, `receive` is none where it suspends.
pub record Channel (Ch : Type 0) (A : Type 0) : Type 0 where
  pub try_send : Ch → A → Option Ch
  pub receive : Ch → Option (Received A × Ch)
  pub close : Ch → Ch

-- std::future<TaskResult>: without a state, waiting, with a value or an exception to give.
pub data Future : Type 0 where
  invalid pending threw : Future
  ready : TaskResult → Future

pub record Task (In Ctl : Type 0) : Type 0 where
  pub status : TaskStatus
  pub result : Future
  pub cached_result : Option TaskResult
  pub inputs : In
  pub controls : Ctl

abbrev pub status_of : TaskResult → TaskStatus
status_of success = completed
status_of failure = failed
status_of TaskResult.cancelled = TaskStatus.cancelled

module _ {In Ctl : Type 0} where
  -- The constructor, over the two channels that it opens.
  unfoldable pub new : In → Ctl → Task In Ctl
  new inputs controls = record {
    status = initial;
    result = invalid;
    cached_result = none;
    inputs = inputs;
    controls = controls;
  }

  -- The coroutine is handed to the thread pool, which gives back a future that waits for it.
  unfoldable pub run : Task In Ctl → Task In Ctl × Bool
  run t =
      if is_status t.status initial
      then (record t { status = running; result = pending }, true)
      else (t, false)

  -- The branches on the future: std::future::get leaves it without a state.
  collect : Task In Ctl → Future → Task In Ctl
  collect t invalid = t
  collect t pending = t
  collect t (ready r) = record t { status = status_of r; result = invalid; cached_result = some r }
  collect t threw = record t { status = failed; result = invalid; cached_result = some failure }

  poll : Task In Ctl → Option TaskResult → Task In Ctl
  unfolding collect
  poll t (some r) = t
  poll t none = collect t t.result

  unfoldable pub get_current_status : Task In Ctl → Task In Ctl × TaskStatus
  unfolding poll
  get_current_status t = let t' = poll t t.cached_result in (t', t'.status)

  sent_input : Task In Ctl → Option In → Task In Ctl × Bool
  sent_input t none = (t, false)
  sent_input t (some inputs) = (record t { inputs = inputs }, true)

module _ {In Ctl T : Type 0} where
  unfoldable pub send_input_parameters : Channel In T → Task In Ctl → T → Task In Ctl × Bool
  unfolding sent_input
  send_input_parameters ch t value = sent_input t (ch.try_send t.inputs value)

module _ {In Ctl : Type 0} (ch : Channel Ctl TaskCommand) where
  sent_control : Task In Ctl → TaskStatus → Option Ctl → Task In Ctl × Bool
  sent_control t status none = (t, false)
  sent_control t status (some controls) = (record t { controls = controls; status = status }, true)

  unfoldable pub pause_task : Task In Ctl → Task In Ctl × Bool
  unfolding sent_control
  pause_task t =
      if is_status t.status running || is_status t.status paused
      then sent_control t paused (ch.try_send t.controls pause)
      else (t, false)

  -- The status stays: the coroutine sets it when it wakes.
  unfoldable pub resume_task : Task In Ctl → Task In Ctl × Bool
  unfolding sent_control
  resume_task t = sent_control t t.status (ch.try_send t.controls resume)

  unfoldable pub cancel_task : Task In Ctl → Task In Ctl × Bool
  unfolding sent_control
  cancel_task t =
      if is_status t.status completed || is_status t.status failed
      then (t, true)
      else if is_status t.status running
          || is_status t.status paused
          || is_status t.status TaskStatus.cancelled
      then sent_control t TaskStatus.cancelled (ch.try_send t.controls cancel)
      else (t, false)

  -- The destructor's loop, `rounds` times at most: `none` means that it has not ended by then.
  unfoldable pub destroy : ℕ → Task In Ctl → Option (Task In Ctl)
  unfolding cancel_task
  destroy zero t = none
  destroy (suc rounds) t =
      let (t', done) = cancel_task t in
      let again = destroy rounds t' in if done then some t' else again

module _ {In Ctl : Type 0} where
  unfoldable pub set_status : Task In Ctl → TaskStatus → Task In Ctl × Bool
  set_status t status =
      let (now, done) = change_status t.status status in (record t { status = now }, done)

  unfoldable pub is_paused : Task In Ctl → Bool
  is_paused t = is_status t.status paused

  unfoldable pub is_cancelled : Task In Ctl → Bool
  is_cancelled t = is_status t.status TaskStatus.cancelled

  unfoldable pub is_completed : Task In Ctl → Bool
  is_completed t = is_status t.status completed

  unfoldable pub is_failed : Task In Ctl → Bool
  is_failed t = is_status t.status failed

  unfoldable pub is_running : Task In Ctl → Bool
  is_running t = is_status t.status running

  unfoldable pub is_initial : Task In Ctl → Bool
  is_initial t = is_status t.status initial

-- What other threads do to a task: the public calls, and the end of its coroutine.
pub data Call (T : Type 0) : Type 0 where
  runs polls pauses resumes cancels : Call T
  sends : T → Call T
  returns : TaskResult → Call T
  throws : Call T

fulfil : Future → Future → Future
fulfil pending f = f
fulfil other f = other

module _ {In Ctl T : Type 0} (ins : Channel In T) (ctls : Channel Ctl TaskCommand) where
  unfoldable pub call : Task In Ctl → Call T → Task In Ctl
  unfolding fulfil
  call t runs = (run t).0
  call t polls = (get_current_status t).0
  call t pauses = (pause_task ctls t).0
  call t resumes = (resume_task ctls t).0
  call t cancels = (cancel_task ctls t).0
  call t (sends v) = (send_input_parameters ins t v).0
  call t (returns r) = record t { result = fulfil t.result (ready r) }
  call t throws = record t { result = fulfil t.result threw }

  unfoldable pub calls : Task In Ctl → List (Call T) → Task In Ctl
  calls t [] = t
  calls t (c ∷ cs) = calls (call t c) cs

-- ===== src/Task/Status.antt =====
-- task.hpp: the enums TaskCommand, TaskStatus and TaskResult, their names, and the table of
-- allowed changes that Task::set_status is written as.
use cpp_code.Prelude.{
  ℕ, ◌≡◌, ◌⊎◌, ◌↔◌, inl, inr, refl, Bool, true, false, arith, ◌==◌, if◌then◌else◌,
}
use Prim.Native.String.{String}

pub data TaskCommand : Type 0 where
  cancel pause resume : TaskCommand

pub data TaskStatus : Type 0 where
  initial running completed failed cancelled paused : TaskStatus

pub data TaskResult : Type 0 where
  success failure cancelled : TaskResult

command_to_string : TaskCommand → String
command_to_string cancel = "CANCEL"
command_to_string pause = "PAUSE"
command_to_string resume = "RESUME"

status_to_string : TaskStatus → String
status_to_string initial = "INITIAL"
status_to_string running = "RUNNING"
status_to_string completed = "COMPLETED"
status_to_string failed = "FAILED"
status_to_string TaskStatus.cancelled = "CANCELLED"
status_to_string paused = "PAUSED"

result_to_string : TaskResult → String
result_to_string success = "SUCCESS"
result_to_string failure = "FAILURE"
result_to_string TaskResult.cancelled = "CANCELLED"

-- The enumerator's value, by which two statuses are compared.
abbrev pub value : TaskStatus → ℕ
value initial = 0
value running = 1
value completed = 2
value failed = 3
value TaskStatus.cancelled = 4
value paused = 5

abbrev pub is_status : TaskStatus → TaskStatus → Bool
is_status a b = value a == value b

-- The nested switch: the status held, the status asked for; the status then held and the value
-- returned.
pub switch_status : TaskStatus → TaskStatus → TaskStatus × Bool
switch_status initial initial = (initial, true)
switch_status initial running = (running, true)
switch_status initial TaskStatus.cancelled = (TaskStatus.cancelled, true)
switch_status initial paused = (initial, false)
switch_status initial completed = (initial, false)
switch_status initial failed = (initial, false)
switch_status running initial = (running, false)
switch_status running running = (running, true)
switch_status running paused = (paused, true)
switch_status running TaskStatus.cancelled = (TaskStatus.cancelled, true)
switch_status running completed = (completed, true)
switch_status running failed = (failed, true)
switch_status paused initial = (paused, false)
switch_status paused running = (running, true)
switch_status paused paused = (paused, true)
switch_status paused TaskStatus.cancelled = (TaskStatus.cancelled, true)
switch_status paused completed = (paused, false)
switch_status paused failed = (paused, false)
switch_status TaskStatus.cancelled asked =
    (TaskStatus.cancelled, is_status asked TaskStatus.cancelled)
switch_status completed asked = (completed, is_status asked completed)
switch_status failed asked = (failed, is_status asked failed)

-- set_status, with its early return.
unfoldable pub change_status : TaskStatus → TaskStatus → TaskStatus × Bool
unfolding switch_status
change_status current status =
    if is_status status current then (current, true) else switch_status current status

-- The changes that the class means to allow.
infix 40 ◌⟶◌
pub data ◌⟶◌ : TaskStatus → TaskStatus → Type 0 where
  start : initial ⟶ running
  drop : initial ⟶ TaskStatus.cancelled
  hold : running ⟶ paused
  abort : running ⟶ TaskStatus.cancelled
  finish : running ⟶ completed
  fail : running ⟶ failed
  wake : paused ⟶ running
  give_up : paused ⟶ TaskStatus.cancelled

ruleset edges = (start, drop, hold, abort, finish, fail, wake, give_up)

⟶-accepted :
    {current status : TaskStatus} → current ⟶ status → (change_status current status).1 ≡ true
unfolding change_status
⟶-accepted start = refl
⟶-accepted drop = refl
⟶-accepted hold = refl
⟶-accepted abort = refl
⟶-accepted finish = refl
⟶-accepted fail = refl
⟶-accepted wake = refl
⟶-accepted give_up = refl

accepted-⟶ :
    (current status : TaskStatus)
    → (change_status current status).1 ≡ true
    → (status ≡ current) ⊎ (current ⟶ status)
unfolding change_status
accepted-⟶ current status h = grind (arith, edges)

accepted_self : (current : TaskStatus) → (change_status current current).1 ≡ true
unfolding change_status
accepted_self current = ground arith

-- set_status returns true exactly when the status asked for is the one held or an allowed change
-- leads to it; it then holds the status asked for, and otherwise the one it held.
pub change_status_iff :
    (current status : TaskStatus)
    → (((change_status current status).1 ≡ true) ↔ ((status ≡ current) ⊎ (current ⟶ status)))
      × ((change_status current status).0
          ≡ (if (change_status current status).1 then status else current))
change_status_iff current status = (
  (
    accepted-⟶ current status,
    elim [ inl e ↦ rw e (accepted_self current) | inr edge ↦ ⟶-accepted edge ],
  ),
  unfold change_status in ground arith,
)

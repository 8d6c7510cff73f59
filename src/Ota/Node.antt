-- ===== src/Ota/Node.antt =====
-- 026.ota_state.cpp: OtaNode. The node keeps a task or none; `input` is what getInput finds in the
-- port, none where it fails. A task is made with two channels that are freshly opened.
pub mod Ticks
use cpp_code.Prelude.{
  ℕ, zero, suc, ◌+◌, ◌-◌, ◌*◌, ◌/◌, ◌%◌, ◌^◌, ◌≤◌, ◌<◌, ◌≡◌, refl, sym, ap, ap₂, ◌∙◌, subst, ◌≢◌,
  ◌↔◌, ◌⊎◌, inl, inr, Bool, true, false, not, ◌&&◌, ◌||◌, Option, none, some, List, [], ◌∷◌, ◌++◌,
  arith, ltb, leb, ◌==◌, if◌then◌else◌, Bool-cases, Option-cases,
}
use cpp_code.Task.Status.{TaskCommand, TaskStatus, completed, failed, is_status}
use cpp_code.Task.Object.{
  Channel, Task, new, run, get_current_status, send_input_parameters, cancel_task,
}
use cpp_code.Ota.Coroutine.{OtaState, idle}

-- BT::NodeStatus, as far as the node returns it.
pub data NodeStatus : Type 0 where
  success failure node_running : NodeStatus

abbrev pub OtaNode : Type 0 → Type 0 → Type 0
OtaNode In Ctl = Option (Task In Ctl)

module _ {In Ctl : Type 0} (fresh_inputs : In) (fresh_controls : Ctl) where
  ensure_task : OtaNode In Ctl → Task In Ctl
  ensure_task none = new fresh_inputs fresh_controls
  ensure_task (some t) = t

  start_task : Task In Ctl → OtaNode In Ctl × NodeStatus
  start_task t = let (t', done) = run t in (some t', (if done then node_running else failure))

  unfoldable pub on_start : OtaNode In Ctl → Option OtaState → OtaNode In Ctl × NodeStatus
  unfolding ensure_task start_task
  on_start node none = (node, failure)
  on_start node (some idle) = (node, failure)
  on_start node (some ota_state) = start_task (ensure_task node)

module _ {In Ctl : Type 0} (ins : Channel In OtaState) where
  -- A refused send is logged, and the node goes on.
  tick_task : Task In Ctl → Option OtaState → OtaNode In Ctl × NodeStatus
  tick_task t none = (some t, failure)
  tick_task t (some ota_state) = (some (send_input_parameters ins t ota_state).0, node_running)

  -- `none` is the null pointer's dereference: the node has no task.
  unfoldable pub on_running :
      OtaNode In Ctl → Option OtaState → Option (OtaNode In Ctl × NodeStatus)
  unfolding tick_task
  on_running none input = none
  on_running (some t) input =
      let (t', status) = get_current_status t in
      some (
        if is_status status completed
        then (some t', success)
        else if is_status status failed
        then (some t', failure)
        else tick_task t' input)

-- cancel() and the release of the task: its destructor is `Task.Object.destroy`.
unfoldable pub on_halted :
    {In Ctl : Type 0}
    → Channel Ctl TaskCommand
    → OtaNode In Ctl
    → OtaNode In Ctl × Option (Task In Ctl)
on_halted ctls none = (none, none)
on_halted ctls (some t) = (none, some (cancel_task ctls t).0)

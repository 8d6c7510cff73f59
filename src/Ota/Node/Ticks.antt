-- ===== src/Ota/Node/Ticks.antt =====
-- What the behaviour tree sees of an OtaNode.
use cpp_code.Prelude.{◌≡◌, ◌≢◌, ◌↔◌, Option, none, some, arith, List, [], ◌∷◌}
use cpp_code.Task.Status.{TaskStatus, initial, running}
use cpp_code.Task.Object.{new, run, Channel, get_current_status, send_input_parameters, Task}
use cpp_code.Ota.Coroutine.{OtaState, idle}
use cpp_code.Ota.Node.{success, node_running, OtaNode, on_start, on_running, NodeStatus, failure}

-- The node's task, if it has one, has this status.
abbrev pub HasStatus : {In Ctl : Type 0} → OtaNode In Ctl → TaskStatus → Type 0
HasStatus none s = ⊥
HasStatus (some t) s = t.status ≡ s

abbrev pub IsUnstarted : {In Ctl : Type 0} → OtaNode In Ctl → Type 0
IsUnstarted none = Unit {0}
IsUnstarted (some t) = t.status ≡ initial

-- onStart answers RUNNING exactly when the port holds a state other than IDLE and the node has no
-- task or one that was never run; the node's task is then RUNNING.
pub on_start_iff :
    {In Ctl : Type 0} (fi : In) (fc : Ctl) (held : OtaNode In Ctl) (input : Option OtaState)
    → let (held', answer) = on_start fi fc held input in
      ((answer ≡ node_running) ↔ ((input ≢ none) × (input ≢ some idle) × IsUnstarted held))
      × (answer ≡ node_running → HasStatus held' running)
      × (answer ≢ success)
unfolding on_start run new
on_start_iff fi fc held input = ground arith

abbrev after :
    {In Ctl : Type 0} → OtaNode In Ctl → Option (OtaNode In Ctl × NodeStatus) → OtaNode In Ctl
after held none = held
after held (some (held', answer)) = held'

-- The node after some onRunning calls, with what the port holds at each.
pub ticks :
    {In Ctl : Type 0}
    → Channel In OtaState
    → OtaNode In Ctl
    → List (Option OtaState)
    → OtaNode In Ctl
ticks ins held [] = held
ticks ins held (input ∷ inputs) = ticks ins (after held (on_running ins held input)) inputs

abbrev pub IsStarted : {In Ctl : Type 0} → OtaNode In Ctl → Type 0
IsStarted none = ⊥
IsStarted (some t) = t.status ≢ initial

module _ {In Ctl : Type 0} (ins : Channel In OtaState) where
  tick-IsStarted :
      (t : Task In Ctl) (input : Option OtaState)
      → t.status ≢ initial
      → IsStarted (after (some t) (on_running ins (some t) input))
  unfolding on_running get_current_status send_input_parameters
  tick-IsStarted t input h = ground arith

  ticks-IsStarted :
      (held : OtaNode In Ctl) (inputs : List (Option OtaState))
      → IsStarted held
      → IsStarted (ticks ins held inputs)
  unfolding ticks
  ticks-IsStarted held [] h = h
  ticks-IsStarted none (input ∷ inputs) h = absurd h
  ticks-IsStarted (some t) (input ∷ inputs) h =
      ticks-IsStarted (after (some t) (on_running ins (some t) input)) inputs
        (tick-IsStarted t input h)

  refused_restart :
      (fi : In) (fc : Ctl) (held : OtaNode In Ctl) (input : Option OtaState)
      → IsStarted held
      → on_start fi fc held input ≡ (held, failure)
  unfolding on_start run
  refused_restart fi fc held input h = ground arith

  started :
      (fi : In) (fc : Ctl) (held : OtaNode In Ctl) (input : Option OtaState)
      → (on_start fi fc held input).1 ≡ node_running
      → IsStarted (on_start fi fc held input).0
  unfolding on_start run
  started fi fc held input h = ground arith

  -- Once onStart has answered RUNNING the node cannot be started again without onHalted: after any
  -- onRunning calls, those included that answered SUCCESS or FAILURE because the task ended, a
  -- further onStart answers FAILURE, whatever the port holds, and changes nothing.
  pub on_start_again :
      (fi fi' : In) (fc fc' : Ctl) (held : OtaNode In Ctl) (input later : Option OtaState)
      (inputs : List (Option OtaState))
      → (on_start fi fc held input).1 ≡ node_running
      → let held' = ticks ins (on_start fi fc held input).0 inputs in
        on_start fi' fc' held' later ≡ (held', failure)
  on_start_again fi fi' fc fc' held input later inputs h =
      refused_restart fi' fc' _ later (ticks-IsStarted _ inputs (started fi fc held input h))

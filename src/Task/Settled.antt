-- ===== src/Task/Settled.antt =====
-- A task whose result has been read: nothing that other threads do changes its status again.
use cpp_code.Prelude.{◌≡◌, some, List, [], ◌∷◌, arith}
use cpp_code.Task.Status.{TaskCommand, TaskResult}
use cpp_code.Task.Object.{
  Channel, Task, status_of, Call, run, get_current_status, pause_task, resume_task, cancel_task,
  send_input_parameters, call, calls, new,
}

module _ {In Ctl T : Type 0} (ins : Channel In T) (ctls : Channel Ctl TaskCommand) where
  call_settled :
      (t : Task In Ctl) (c : Call T) (r : TaskResult)
      → t.cached_result ≡ some r
      → t.status ≡ status_of r
      → ((call ins ctls t c).cached_result ≡ some r) × ((call ins ctls t c).status ≡ status_of r)
  unfolding call run get_current_status pause_task resume_task cancel_task send_input_parameters
  call_settled t c r cached st = ground arith

  calls_settled :
      (t : Task In Ctl) (cs : List (Call T)) (r : TaskResult)
      → t.cached_result ≡ some r
      → t.status ≡ status_of r
      → ((calls ins ctls t cs).cached_result ≡ some r)
        × ((calls ins ctls t cs).status ≡ status_of r)
  unfolding calls
  calls_settled t [] r cached st = (cached, st)
  calls_settled t (c ∷ cs) r cached st =
      let (cached', st') = call_settled t c r cached st in
      calls_settled (call ins ctls t c) cs r cached' st'

  -- Every task that comes about from a new one reports a cached result by its status.
  abbrev pub Agrees : Task In Ctl → Type 0
  Agrees t = (r : TaskResult) → t.cached_result ≡ some r → t.status ≡ status_of r

  pub call-Agrees : (t : Task In Ctl) (c : Call T) → Agrees t → Agrees (call ins ctls t c)
  unfolding call run get_current_status pause_task resume_task cancel_task send_input_parameters
  call-Agrees t c v r h = ground (arith, v r)

  pub calls-Agrees :
      (t : Task In Ctl) (cs : List (Call T)) → Agrees t → Agrees (calls ins ctls t cs)
  unfolding calls
  calls-Agrees t [] v = v
  calls-Agrees t (c ∷ cs) v = calls-Agrees (call ins ctls t c) cs (call-Agrees t c v)

  -- Take any history of public calls and coroutine ends on a new task, after which a result is
  -- cached. Whatever calls follow, the result stays cached, and the next get_current_status
  -- returns that result's status.
  pub status_settled :
      (inputs : In) (controls : Ctl) (before after : List (Call T)) (r : TaskResult)
      → let t = calls ins ctls (new inputs controls) before in
        t.cached_result ≡ some r
        → let t' = calls ins ctls t after in
          (t'.cached_result ≡ some r) × ((get_current_status t').1 ≡ status_of r)
  unfolding get_current_status
  status_settled inputs controls before after r h =
      let t = calls ins ctls (new inputs controls) before in
      let start = calls-Agrees (new inputs controls) before (unfold new in λ r e. cc) in
      let (cached, st) = calls_settled t after r h (start r h) in (cached, ground arith)

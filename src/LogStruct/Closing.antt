-- ===== src/LogStruct/Closing.antt =====
-- The destructor closes the file while the thread may still have to write.
use cpp_code.Prelude.{ℕ, ◌≡◌, refl, ◌∙◌, false, Option, none, some, List, [], ◌∷◌, arith}
use cpp_code.LogStruct.{destroy_flush, destroy_close, flush, write}
use cpp_code.LogStruct.Worker.{
  closes, destroys, Place, checking, waiting, clearing, releasing, leaving, exited, writing, System,
  Action, writes, flushes, stops, works, act, work, work_at, run,
}

module _ {A : Type 0} where
  work-closed :
      (place : Place) (s : System A) (r : Option ℕ)
      → s.log.fd_open ≡ false
      → ((work_at place s r).log.fd_open ≡ false) × ((work_at place s r).file ≡ s.file)
  unfolding work_at
  work-closed (writing target need written) s r c = ground arith
  work-closed checking s r c = ground arith
  work-closed waiting s r c = ground arith
  work-closed releasing s r c = ground arith
  work-closed clearing s r c = ground arith
  work-closed leaving s r c = ground arith
  work-closed exited s r c = ground arith

  act-closed :
      (s : System A) (a : Action A)
      → s.log.fd_open ≡ false
      → ((act s a).log.fd_open ≡ false) × ((act s a).file ≡ s.file)
  unfolding act write flush destroy_flush destroy_close work
  act-closed s (writes none now) c = ground arith
  act-closed s (writes (some bytes) now) c = ground arith
  act-closed s flushes c = ground arith
  act-closed s destroys c = ground arith
  act-closed s closes c = ground arith
  act-closed s stops c = (c, refl)
  act-closed s (works r) c = work-closed s.place s r c

  run-closed :
      (s : System A) (actions : List (Action A))
      → s.log.fd_open ≡ false
      → (run s actions).file ≡ s.file
  unfolding run
  run-closed s [] c = refl
  run-closed s (a ∷ actions) c =
      let (c', same) = act-closed s a c in run-closed (act s a) actions c' ∙ same

  -- The destructor's flush only hands the buffer over and signals the thread; the close follows at
  -- once. If the thread takes no step between the two, then nothing that the buffers held when the
  -- destructor began ever reaches the file, whatever happens afterwards.
  pub destroy_loses :
      (s : System A) (actions : List (Action A))
      → (run s (destroys ∷ closes ∷ actions)).file ≡ s.file
  unfolding run act destroy_close
  destroy_loses s actions = run-closed _ actions refl

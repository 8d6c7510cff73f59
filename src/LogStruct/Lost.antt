-- ===== src/LogStruct/Lost.antt =====
-- A wake-up that is lost between the thread's two stores.
use cpp_code.Prelude.{ℕ, ◌≡◌, refl, ◌∙◌, true, false, Option, none, some, List, [], ◌∷◌, arith}
use cpp_code.LogStruct.{destroy_flush, destroy_close, flush, write}
use cpp_code.LogStruct.Worker.{
  closes, destroys, waiting, clearing, System, Action, writes, flushes, stops, works, act, work,
  run,
}

module _ {A : Type 0} where
  -- The thread waits for a flag that only flush sets, and flush waits for one that only the thread
  -- resets.
  pub record IsLost (s : System A) : Type 0 where
    pub at_wait : s.place ≡ waiting
    pub busy : s.log.is_writing ≡ true
    pub silent : s.log.has_data_to_write ≡ false

  act-IsLost :
      (s : System A) (a : Action A) → IsLost s → IsLost (act s a) × ((act s a).file ≡ s.file)
  unfolding act write flush destroy_flush destroy_close work
  act-IsLost s (writes none now) v = ground arith
  act-IsLost s (writes (some bytes) now) v = ground arith
  act-IsLost s flushes v = ground arith
  act-IsLost s destroys v = ground arith
  act-IsLost s closes v = ground arith
  act-IsLost s stops v = ground arith
  act-IsLost s (works result) v = ground arith

  run-IsLost :
      (s : System A) (actions : List (Action A))
      → IsLost s
      → IsLost (run s actions) × ((run s actions).file ≡ s.file)
  unfolding run
  run-IsLost s [] v = (v, refl)
  run-IsLost s (a ∷ actions) v =
      let (v', same) = act-IsLost s a v in
      let (v'', same') = run-IsLost (act s a) actions v' in (v'', same' ∙ same)

  IsLost-flush : (s : System A) → IsLost s → (flush s.log).1 ≡ false
  unfolding flush
  IsLost-flush s v = ground arith

  -- The flush, then the thread's steps up to its wait.
  abbrev pub race : Option ℕ → List (Action A)
  race r = flushes ∷ works r ∷ works r ∷ works r ∷ []

  race-IsLost :
      (s : System A) (r : Option ℕ)
      → s.place ≡ clearing
      → s.log.is_writing ≡ false
      → s.log.is_running ≡ true
      → s.stop_requested ≡ false
      → IsLost (run s (race r)) × ((run s (race r)).file ≡ s.file)
  unfolding run act flush work
  race-IsLost s r p w on st = ground arith

  -- The thread stores false to is_writing_ before it clears has_data_to_write. Let it stand between
  -- the two, with the logger running. If flush is called there it returns true, but once the thread
  -- is back in its wait nothing wakes it again: whatever is called afterwards and whatever the
  -- thread does, the file never changes, every flush returns false, and the thread stays there.
  pub flush_lost :
      (s : System A) (r : Option ℕ) (actions : List (Action A))
      → s.place ≡ clearing
      → s.log.is_writing ≡ false
      → s.log.is_running ≡ true
      → s.stop_requested ≡ false
      → let s' = run (run s (race r)) actions in
        ((flush s.log).1 ≡ true)
        × (s'.file ≡ s.file)
        × ((flush s'.log).1 ≡ false)
        × (s'.place ≡ waiting)
  flush_lost s r actions p w on st =
      let (lost, same) = race-IsLost s r p w on st in
      let (lost', same') = run-IsLost (run s (race r)) actions lost in
      (unfold flush in ground arith, same' ∙ same, IsLost-flush _ lost', lost'.at_wait)

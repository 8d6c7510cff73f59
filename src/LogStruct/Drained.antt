-- ===== src/LogStruct/Drained.antt =====
-- What a flush hands over reaches the file.
use cpp_code.Prelude.{
  ℕ, zero, suc, ◌+◌, ◌≤◌, ◌<◌, ◌≡◌, ◌⊎◌, inl, inr, refl, sym, ap, ◌∙◌, true, false, Bool-cases,
  none, some, List, [], ◌∷◌, ◌++◌, arith, length, drop, take, drop_all, drop-drop, take-append-drop,
  append_assoc, append-nil,
}
use cpp_code.LogStruct.{new, other, contents, flush, write, poll, append, is_full, destroy_flush}
use cpp_code.Prelude.Int.{ℤ}
use cpp_code.LogStruct.Worker.{
  Place, checking, waiting, releasing, clearing, leaving, exited, writing, System, Action, writes,
  flushes, destroys, closes, stops, works, act, work, work_at, run, start,
}
use cpp_code.LogStruct.Accounting.{AllGood, Inv, run-Inv, start-Inv}
use cpp_code.LogStruct.Grown.{IsPrefix, run-file}

module _ {A : Type 0} where
  -- `steps` bounds the thread's steps until the file has `goal`.
  abbrev Ahead : List A → ℕ → Place → System A → Type 0
  Ahead goal steps waiting s =
      (s.file ++ contents s.log s.log.next_vector ≡ goal)
      × (length (contents s.log s.log.next_vector) < steps)
  Ahead goal steps checking s =
      (s.file ++ contents s.log s.log.next_vector ≡ goal)
      × (length (contents s.log s.log.next_vector) + 1 < steps)
  Ahead goal steps (writing target need written) s =
      (target ≡ s.log.next_vector)
      × (need ≡ length (contents s.log s.log.next_vector))
      × (s.file ++ drop written (contents s.log s.log.next_vector) ≡ goal)
      × (need ≤ written + steps)
  Ahead goal steps place s = ⊥

  -- An action of other threads that does not close the file.
  abbrev IsCall : Action A → Type 0
  IsCall (works result) = ⊥
  IsCall closes = ⊥
  IsCall call = Unit {0}

  -- Such an action, or a step of the thread in which ::write, if it is called, writes something.
  abbrev IsMoving : Action A → Type 0
  IsMoving (works none) = ⊥
  IsMoving (works (some n)) = 0 < n
  IsMoving closes = ⊥
  IsMoving call = Unit {0}

  abbrev pub AllMoving : List (Action A) → Type 0
  AllMoving [] = Unit {0}
  AllMoving (a ∷ actions) = IsMoving a × AllMoving actions

  -- The thread's steps among the actions.
  abbrev pub works_in : List (Action A) → ℕ
  works_in [] = 0
  works_in (works result ∷ actions) = suc (works_in actions)
  works_in (call ∷ actions) = works_in actions

  record IsDraining (goal : List A) (steps : ℕ) (s : System A) : Type 0 where
    opened : s.log.fd_open ≡ true
    busy : s.log.is_writing ≡ true
    flagged : s.log.has_data_to_write ≡ true
    distinct : s.log.next_vector ≡ other s.log.current_vector
    ahead : Ahead goal steps s.place s

  poll-IsDraining :
      (goal : List A) (steps : ℕ) (s : System A) (now : ℤ)
      → IsDraining goal steps s
      → IsDraining goal steps (record s { log = poll s.log now })
  unfolding poll
  poll-IsDraining goal steps s now v = ground arith

  append-IsDraining :
      (goal : List A) (steps : ℕ) (s : System A) (bytes : List A)
      → IsDraining goal steps s
      → IsDraining goal steps (record s { log = append s.log bytes })
  unfolding append
  append-IsDraining goal steps s bytes v = ground arith

  write_call-goal :
      (file bytes goal : List A) (written n : ℕ)
      → file ++ drop written bytes ≡ goal
      → (file ++ take n (drop written bytes)) ++ drop (written + n) bytes ≡ goal
  write_call-goal file bytes goal written n e = rw (← drop-drop) (
      append_assoc file (take n (drop written bytes)) (drop n (drop written bytes))
      ∙ ap (◌++◌ file) (take-append-drop n (drop written bytes))
      ∙ e)

  work_at-IsDraining :
      (place : Place) (goal : List A) (steps n : ℕ) (s : System A)
      → s.place ≡ place
      → IsDraining goal (suc steps) s
      → let s' = work_at place s (some (suc n)) in (s'.file ≡ goal) ⊎ IsDraining goal steps s'
  unfolding work_at
  work_at-IsDraining checking goal steps n s at v = ground arith
  work_at-IsDraining waiting goal steps n s at v = ground (arith, append-nil s.file)
  work_at-IsDraining (writing target need written) goal steps n s at v = ground (
    arith,
    write_call-goal s.file (contents s.log s.log.next_vector) goal written (suc n),
    drop_all written (contents s.log s.log.next_vector),
    append-nil s.file,
  )
  work_at-IsDraining releasing goal steps n s at v = ground arith
  work_at-IsDraining clearing goal steps n s at v = ground arith
  work_at-IsDraining leaving goal steps n s at v = ground arith
  work_at-IsDraining exited goal steps n s at v = ground arith

  act-IsDraining :
      (goal : List A) (steps : ℕ) (s : System A) (a : Action A)
      → IsCall a
      → IsDraining goal steps s
      → IsDraining goal steps (act s a)
  unfolding act write flush destroy_flush
  act-IsDraining goal steps s (writes none now) c v = poll-IsDraining goal steps s now v
  act-IsDraining goal steps s (writes (some bytes) now) c v = elim (Bool-cases (is_full s.log)) [
    | inl e ↦ rw e v
    | inr e ↦ rw e (
        poll-IsDraining goal steps (record s { log = append s.log bytes }) now
          (append-IsDraining goal steps s bytes v))
  ]
  act-IsDraining goal steps s flushes c v = ground arith
  act-IsDraining goal steps s destroys c v = ground arith
  act-IsDraining goal steps s closes c v = absurd c
  act-IsDraining goal steps s stops c v = ground arith
  act-IsDraining goal steps s (works result) c v = absurd c

  drained :
      (place : Place) (goal : List A) (s : System A)
      → s.place ≡ place
      → IsDraining goal 0 s
      → s.file ≡ goal
  drained (writing target need written) goal s at v =
      ground (arith, drop_all written (contents s.log s.log.next_vector), append-nil s.file)
  drained checking goal s at v = ground arith
  drained waiting goal s at v = ground arith
  drained releasing goal s at v = ground arith
  drained clearing goal s at v = ground arith
  drained leaving goal s at v = ground arith
  drained exited goal s at v = ground arith

  works-IsDraining :
      (goal : List A) (steps n : ℕ) (s : System A)
      → IsDraining goal (suc steps) s
      → let s' = act s (works (some (suc n))) in (s'.file ≡ goal) ⊎ IsDraining goal steps s'
  unfolding act work
  works-IsDraining goal steps n s v = work_at-IsDraining s.place goal steps n s refl v

  run-IsDraining :
      (goal : List A) (steps : ℕ) (s : System A) (actions : List (Action A))
      → AllMoving actions
      → IsDraining goal steps s
      → steps ≤ works_in actions
      → IsPrefix goal (run s actions).file
  unfolding run
  run-IsDraining goal zero s actions m v h =
      run-file goal s actions ([], drained s.place goal s refl v ∙ sym (append-nil goal))
  run-IsDraining goal (suc steps) s [] m v h = absurd (omega arith)
  run-IsDraining goal (suc steps) s (writes bytes now ∷ actions) m v h =
      run-IsDraining goal (suc steps) (act s (writes bytes now)) actions m.1
        (act-IsDraining goal (suc steps) s (writes bytes now) tt v) h
  run-IsDraining goal (suc steps) s (flushes ∷ actions) m v h =
      run-IsDraining goal (suc steps) (act s flushes) actions m.1
        (act-IsDraining goal (suc steps) s flushes tt v) h
  run-IsDraining goal (suc steps) s (destroys ∷ actions) m v h =
      run-IsDraining goal (suc steps) (act s destroys) actions m.1
        (act-IsDraining goal (suc steps) s destroys tt v) h
  run-IsDraining goal (suc steps) s (stops ∷ actions) m v h =
      run-IsDraining goal (suc steps) (act s stops) actions m.1
        (act-IsDraining goal (suc steps) s stops tt v) h
  run-IsDraining goal (suc steps) s (closes ∷ actions) m v h = absurd m.0
  run-IsDraining goal (suc steps) s (works none ∷ actions) m v h = absurd m.0
  run-IsDraining goal (suc steps) s (works (some zero) ∷ actions) m v h =
      absurd (omega (arith, m.0))
  run-IsDraining goal (suc steps) s (works (some (suc n)) ∷ actions) m v h =
      elim (works-IsDraining goal steps n s v) [
        | inl e ↦
            run-file goal (act s (works (some (suc n)))) actions ([], e ∙ sym (append-nil goal))
        | inr v' ↦
            run-IsDraining goal steps (act s (works (some (suc n)))) actions m.1 v' (omega arith)
      ]

  flush-IsDraining :
      (s : System A) (sent : List A)
      → (s.place ≡ waiting) ⊎ (s.place ≡ checking)
      → s.log.is_writing ≡ false
      → Inv s sent
      → IsDraining
          (s.file ++ contents s.log s.log.current_vector)
          (length (contents s.log s.log.current_vector) + 2)
          (act s flushes)
  unfolding act flush
  flush-IsDraining s sent at idle v = ground arith

  -- Let the thread stand at its wait or at the loop's condition after any actions without a failing
  -- ::write, and is_writing_ be false. If flush is called there, then after any further actions in
  -- which no call of ::write fails or writes nothing, the file is not closed, and the thread takes at
  -- least two steps more than the buffer has bytes, the file has all that it had and then the whole
  -- buffer, whatever else is written or flushed meanwhile.
  pub flush_drains :
      (size reverse polling : ℕ) (now : ℤ) (file : List A) (before actions : List (Action A))
      → AllGood before
      → let s = run (start (new size reverse polling now) file) before in
        (s.place ≡ waiting) ⊎ (s.place ≡ checking)
        → s.log.is_writing ≡ false
        → AllMoving actions
        → length (contents s.log s.log.current_vector) + 2 ≤ works_in actions
        → IsPrefix
            (s.file ++ contents s.log s.log.current_vector)
            (run (act s flushes) actions).file
  flush_drains size reverse polling now file before actions good at idle moving enough =
      let v = run-Inv _ file before good (start-Inv size reverse polling now file) in
      run-IsDraining _ _ _ actions moving (flush-IsDraining _ _ at idle v) enough

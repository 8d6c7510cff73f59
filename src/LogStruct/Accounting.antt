-- ===== src/LogStruct/Accounting.antt =====
-- Where the bytes of a LogStruct are.
use cpp_code.Prelude.{
  length, take, drop_all, ℕ, ◌+◌, ◌≡◌, inl, inr, true, false, Option, none, some, List, [], ◌++◌,
  arith, Bool-cases, drop, append-nil, append_assoc, drop-drop, take-append-drop, sym, ap, ◌∙◌,
  refl, ◌∷◌,
}
use cpp_code.LogStruct.{
  destroy_flush, new, LogStruct, other, contents, flush, write, poll, append, is_full,
}
use cpp_code.Prelude.Int.{ℤ}
use cpp_code.LogStruct.Worker.{
  closes, destroys, work_at, run, all_accepted, start, stops, checking, waiting, leaving, exited,
  Place, releasing, clearing, writing, System, Action, writes, flushes, works, act, accepted, work,
}

module _ {A : Type 0} where
  -- What the thread still has to write of the buffer that was handed to it.
  abbrev pub unwritten : Place → List A → List A
  unwritten (writing target need written) bytes = drop written bytes
  unwritten other_place bytes = bytes

  -- At each place of the thread, what is known of the flags and of the buffer handed over.
  abbrev pub AtPlace : LogStruct A → Place → Type 0
  AtPlace l (writing target need written) =
      (l.is_writing ≡ true) × (target ≡ l.next_vector) × (need ≡ length (contents l l.next_vector))
  AtPlace l releasing = (l.is_writing ≡ true) × (contents l l.next_vector ≡ [])
  AtPlace l clearing = l.is_writing ≡ false → contents l l.next_vector ≡ []
  AtPlace l place =
      (l.is_writing ≡ false → contents l l.next_vector ≡ [])
      × (l.has_data_to_write ≡ true → l.is_writing ≡ true)

  pub record Inv (s : System A) (sent : List A) : Type 0 where
    pub opened : s.log.fd_open ≡ true
    pub distinct : s.log.next_vector ≡ other s.log.current_vector
    pub at : AtPlace s.log s.place
    pub all :
        s.file
          ++ (unwritten s.place (contents s.log s.log.next_vector)
              ++ contents s.log s.log.current_vector)
        ≡ sent

  abbrev IsGood : Action A → Type 0
  IsGood (works none) = ⊥
  IsGood closes = ⊥
  IsGood other_action = Unit {0}

  poll-Inv :
      (s : System A) (sent : List A) (now : ℤ)
      → Inv s sent
      → Inv (record s { log = poll s.log now }) sent
  unfolding poll
  poll-Inv s sent now v = ground (arith, append-nil (contents s.log s.log.current_vector))

  regroup :
      (file pending current more sent : List A)
      → file ++ (pending ++ current) ≡ sent
      → file ++ (pending ++ (current ++ more)) ≡ sent ++ more
  regroup file pending current more sent e = rw (← e) (simp append_assoc)

  append-Inv :
      (s : System A) (sent bytes : List A)
      → Inv s sent
      → Inv (record s { log = append s.log bytes }) (sent ++ take s.log.struct_size bytes)
  unfolding append
  append-Inv s sent bytes v = ground (
    arith,
    regroup s.file (unwritten s.place (contents s.log s.log.next_vector))
        (contents s.log s.log.current_vector) (take s.log.struct_size bytes) sent v.all,
  )

  write-Inv :
      (s : System A) (sent : List A) (bytes : Option (List A)) (now : ℤ)
      → Inv s sent
      → Inv (act s (writes bytes now)) (sent ++ accepted s (writes bytes now))
  unfolding act accepted write
  write-Inv s sent none now v = rw append-nil (poll-Inv s sent now v)
  write-Inv s sent (some bytes) now v = elim (Bool-cases (is_full s.log)) [
    | inl e ↦ rw (e, append-nil) v
    | inr e ↦
        rw e (poll-Inv (record s { log = append s.log bytes }) _ now (append-Inv s sent bytes v))
  ]

  flush-Inv : (s : System A) (sent : List A) → Inv s sent → Inv (act s flushes) sent
  unfolding act flush
  flush-Inv s sent v = ground (arith, append-nil (contents s.log s.log.current_vector))

  moved :
      (file bytes current sent : List A) (written n : ℕ)
      → file ++ (drop written bytes ++ current) ≡ sent
      → (file ++ take n (drop written bytes)) ++ (drop (written + n) bytes ++ current) ≡ sent
  moved file bytes current sent written n e =
      let left = drop written bytes in
      rw (← drop-drop) (
        append_assoc file (take n left) (drop n left ++ current)
        ∙ sym (ap (◌++◌ file) (append_assoc (take n left) (drop n left) current))
        ∙ ap (λ kept. file ++ (kept ++ current)) (take-append-drop n left)
        ∙ e)

  work_at-Inv :
      (place : Place) (s : System A) (sent : List A) (n : ℕ)
      → s.place ≡ place
      → Inv s sent
      → Inv (work_at place s (some n)) sent
  unfolding work_at
  work_at-Inv (writing target need written) s sent n at v = ground (
    arith,
    moved s.file (contents s.log s.log.next_vector) (contents s.log s.log.current_vector) sent
        written n,
    drop_all written (contents s.log s.log.next_vector),
  )
  work_at-Inv checking s sent n at v = ground arith
  work_at-Inv waiting s sent n at v = ground arith
  work_at-Inv releasing s sent n at v = ground arith
  work_at-Inv clearing s sent n at v = ground arith
  work_at-Inv leaving s sent n at v = ground arith
  work_at-Inv exited s sent n at v = ground arith

  destroy-Inv : (s : System A) (sent : List A) → Inv s sent → Inv (act s destroys) sent
  unfolding act destroy_flush
  destroy-Inv s sent v = ground (arith, append-nil (contents s.log s.log.current_vector))

  act-Inv :
      (s : System A) (sent : List A) (a : Action A)
      → IsGood a
      → Inv s sent
      → Inv (act s a) (sent ++ accepted s a)
  unfolding act accepted work
  act-Inv s sent (writes bytes now) g v = write-Inv s sent bytes now v
  act-Inv s sent flushes g v = rw append-nil (flush-Inv s sent v)
  act-Inv s sent destroys g v = rw append-nil (destroy-Inv s sent v)
  act-Inv s sent closes g v = absurd g
  act-Inv s sent stops g v = rw append-nil (ground arith)
  act-Inv s sent (works none) g v = absurd g
  act-Inv s sent (works (some n)) g v = rw append-nil (work_at-Inv s.place s sent n refl v)

  abbrev pub AllGood : List (Action A) → Type 0
  AllGood [] = Unit {0}
  AllGood (a ∷ actions) = IsGood a × AllGood actions

  pub run-Inv :
      (s : System A) (sent : List A) (actions : List (Action A))
      → AllGood actions
      → Inv s sent
      → Inv (run s actions) (sent ++ all_accepted s actions)
  unfolding run all_accepted
  run-Inv s sent [] g v = rw append-nil v
  run-Inv s sent (a ∷ actions) g v =
      rw (← append_assoc)
        (run-Inv (act s a) (sent ++ accepted s a) actions g.1 (act-Inv s sent a g.0 v))

  pub start-Inv :
      (size reverse polling : ℕ) (now : ℤ) (file : List A)
      → Inv (start (new size reverse polling now) file) file
  unfolding new
  start-Inv size reverse polling now file = record {
    opened = refl;
    distinct = refl;
    at = (λ e. refl, λ e. cc);
    all = append-nil file;
  }

  -- In any interleaving of write and flush calls with the writing thread's steps, in which no
  -- ::write call fails (it may write any number of bytes) and the destructor has not closed the
  -- file: the file
  -- holds what it held at first and then the bytes of the writes that returned true, in their
  -- order, each once, but for a rest that is still in the buffers, the one handed to the thread
  -- before the one being filled.
  pub run_accounts :
      (size reverse polling : ℕ) (now : ℤ) (file : List A) (actions : List (Action A))
      → AllGood actions
      → let begin = start (new size reverse polling now) file in
        let s = run begin actions in
        s.file
          ++ (unwritten s.place (contents s.log s.log.next_vector)
              ++ contents s.log s.log.current_vector)
        ≡ file ++ all_accepted begin actions
  run_accounts size reverse polling now file actions g =
      (run-Inv _ file actions g (start-Inv size reverse polling now file)).all

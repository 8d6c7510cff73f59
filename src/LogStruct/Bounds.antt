-- ===== src/LogStruct/Bounds.antt =====
-- The buffers keep within the size that was reserved for them.
use native.Mathlib.Nat.{mod-eq_of_lt}
use cpp_code.Prelude.{
  length-take-le, ℕ, ◌+◌, ◌*◌, ◌^◌, ◌≤◌, ◌<◌, ◌≡◌, inl, inr, false, Option, none, some, List, [],
  ◌∷◌, arith, Bool-cases, length, length-append, take,
}
use cpp_code.LogStruct.{
  destroy_flush, destroy_close, LogStruct, new, flush, write, poll, append, is_full,
}
use cpp_code.Prelude.Int.{ℤ}
use cpp_code.LogStruct.Worker.{
  closes, destroys, Place, System, Action, writes, flushes, stops, works, act, work, run, start,
  writing, checking, waiting, releasing, clearing, leaving, exited, work_at,
}

module _ {A : Type 0} where
  pub record Fits (b : ℕ) (l : LogStruct A) : Type 0 where
    pub same : l.byte_size ≡ b
    pub no_wrap : l.byte_size + l.struct_size < 2 ^ 64
    pub fits1 : length l.vector1 ≤ l.byte_size
    pub fits2 : length l.vector2 ≤ l.byte_size

  flush-Fits : {b : ℕ} (l : LogStruct A) → Fits b l → Fits b (flush l).0
  unfolding flush
  flush-Fits l v = ground arith

  poll-Fits : {b : ℕ} (l : LogStruct A) (now : ℤ) → Fits b l → Fits b (poll l now)
  unfolding poll
  poll-Fits l now v = ground arith

  append-Fits :
      {b : ℕ} (l : LogStruct A) (bytes : List A)
      → is_full l ≡ false
      → Fits b l
      → Fits b (append l bytes)
  unfolding append is_full
  append-Fits l bytes room v = ground (
    arith,
    length-append l.vector1 (take l.struct_size bytes),
    length-append l.vector2 (take l.struct_size bytes),
    length-take-le l.struct_size bytes,
  )

  write-Fits :
      {b : ℕ} (l : LogStruct A) (bytes : Option (List A)) (now : ℤ)
      → Fits b l
      → Fits b (write l bytes now).0
  unfolding write
  write-Fits l none now v = poll-Fits l now v
  write-Fits l (some bytes) now v = elim (Bool-cases (is_full l)) [
    | inl e ↦ rw e v
    | inr e ↦ rw e (poll-Fits (append l bytes) now (append-Fits l bytes e v))
  ]

  work-Fits :
      {b : ℕ} (place : Place) (s : System A) (result : Option ℕ)
      → Fits b s.log
      → Fits b (work_at place s result).log
  unfolding work_at
  work-Fits (writing target need written) s result v = ground arith
  work-Fits checking s result v = ground arith
  work-Fits waiting s result v = ground arith
  work-Fits releasing s result v = ground arith
  work-Fits clearing s result v = ground arith
  work-Fits leaving s result v = ground arith
  work-Fits exited s result v = ground arith

  act-Fits : {b : ℕ} (s : System A) (a : Action A) → Fits b s.log → Fits b (act s a).log
  unfolding act destroy_flush destroy_close work
  act-Fits s (writes bytes now) v = write-Fits s.log bytes now v
  act-Fits s flushes v = flush-Fits s.log v
  act-Fits s destroys v = ground arith
  act-Fits s closes v = ground arith
  act-Fits s stops v = v
  act-Fits s (works result) v = work-Fits s.place s result v

  run-Fits :
      {b : ℕ} (s : System A) (actions : List (Action A)) → Fits b s.log → Fits b (run s actions).log
  unfolding run
  run-Fits s [] v = v
  run-Fits s (a ∷ actions) v = run-Fits (act s a) actions (act-Fits s a v)

  new-Fits :
      (size reverse polling : ℕ) (now : ℤ)
      → size * reverse + size < 2 ^ 64
      → Fits (size * reverse) (new {A = A} size reverse polling now)
  unfolding new
  new-Fits size reverse polling now h =
      ground (arith, mod-eq_of_lt {n = size * reverse} {m = 2 ^ 64})

  -- If the size of the buffers and one record more do not wrap a 64-bit word, then after any
  -- actions, failing ::write calls and the destructor among them, both buffers are within the size
  -- that the constructor computed, so that the vectors never grow beyond what was reserved.
  pub run_fits :
      (size reverse polling : ℕ) (now : ℤ) (file : List A) (actions : List (Action A))
      → size * reverse + size < 2 ^ 64
      → let l = (run (start (new size reverse polling now) file) actions).log in
        (length l.vector1 ≤ size * reverse) × (length l.vector2 ≤ size * reverse)
  run_fits size reverse polling now file actions h =
      let begin = start (new size reverse polling now) file in
      let v = run-Fits {b = size * reverse} begin actions (new-Fits size reverse polling now h) in
      (omega arith, omega arith)

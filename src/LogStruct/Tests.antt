-- ===== src/LogStruct/Tests.antt =====
-- The logger's theorems at concrete runs, over bytes that are numbers.
use cpp_code.Prelude.{
  ℕ, ◌≤◌, ◌+◌, inl, ◌≡◌, refl, true, false, some, List, [], ◌∷◌, ◌++◌, arith, length,
}
use cpp_code.LogStruct.{new, flush, write, contents}
use cpp_code.LogStruct.Worker.{
  System, Action, writes, flushes, works, clearing, waiting, act, work, run, all_accepted, start,
}
use cpp_code.LogStruct.Accounting.{unwritten, run_accounts}
use cpp_code.LogStruct.Grown.{IsPrefix}
use cpp_code.LogStruct.Drained.{works_in, flush_drains}
use cpp_code.LogStruct.Lost.{race, flush_lost}
use cpp_code.Prelude.Int.{pos, ◌-ℤ◌}

abbrev opened : System ℕ
opened = start (new 2 8 1000 (pos 0)) []

-- A record is written and flushed, the thread comes to its first ::write call, which takes one
-- byte, and another record is written.
abbrev half_written : List (Action ℕ)
half_written =
    writes (some (1 ∷ 2 ∷ [])) (pos 0)
    ∷ flushes
    ∷ works (some 0)
    ∷ works (some 0)
    ∷ works (some 1)
    ∷ writes (some (3 ∷ 4 ∷ [])) (pos 1)
    ∷ []

run_accounts_example :
    let s = run opened half_written in
    s.file
      ++ (unwritten s.place (contents s.log s.log.next_vector)
          ++ contents s.log s.log.current_vector)
    ≡ [] ++ all_accepted opened half_written
run_accounts_example =
    run_accounts 2 8 1000 (pos 0) [] half_written (tt, (tt, (tt, (tt, (tt, (tt, tt))))))

run-half_written : (run opened half_written).file ≡ 1 ∷ []
unfolding run act work write flush new ◌-ℤ◌
run-half_written = refl

-- The thread has written the record and stands between its two stores.
abbrev between : System ℕ
between = run opened (
    writes (some (1 ∷ 2 ∷ [])) (pos 0)
    ∷ flushes
    ∷ works (some 0)
    ∷ works (some 0)
    ∷ works (some 2)
    ∷ works (some 0)
    ∷ works (some 0)
    ∷ [])

between_lem :
    (between.place ≡ clearing)
    × (between.log.is_writing ≡ false)
    × (between.log.is_running ≡ true)
    × (between.stop_requested ≡ false)
unfolding run act work write flush new ◌-ℤ◌
between_lem = (refl, refl, refl, refl)

flush_lost_example :
    let s' = run (run between (race (some 0))) (flushes ∷ works (some 0) ∷ []) in
    ((flush between.log).1 ≡ true)
    × (s'.file ≡ between.file)
    × ((flush s'.log).1 ≡ false)
    × (s'.place ≡ waiting)
flush_lost_example =
    flush_lost between (some 0) (flushes ∷ works (some 0) ∷ []) between_lem.0 between_lem.1
      between_lem.2 between_lem.3

-- A record is written, and the thread comes to its wait.
abbrev one_record : List (Action ℕ)
one_record = writes (some (1 ∷ 2 ∷ [])) (pos 0) ∷ works (some 0) ∷ []

abbrev at_wait : System ℕ
at_wait = run opened one_record

at_wait_lem : (at_wait.place ≡ waiting) × (at_wait.log.is_writing ≡ false)
unfolding run act work write new ◌-ℤ◌
at_wait_lem = (refl, refl)

-- The calls of ::write take one byte each, and a record is written between them.
abbrev slow_thread : List (Action ℕ)
slow_thread =
    works (some 1)
    ∷ works (some 1)
    ∷ writes (some (3 ∷ 4 ∷ [])) (pos 1)
    ∷ works (some 1)
    ∷ works (some 1)
    ∷ []

slow_enough : length (contents at_wait.log at_wait.log.current_vector) + 2 ≤ works_in slow_thread
unfolding run act work write new ◌-ℤ◌
slow_enough = ground arith

flush_drains_example :
    IsPrefix
      (at_wait.file ++ contents at_wait.log at_wait.log.current_vector)
      (run (act at_wait flushes) slow_thread).file
flush_drains_example =
    flush_drains 2 8 1000 (pos 0) [] one_record slow_thread (tt, (tt, tt)) (inl at_wait_lem.0)
      at_wait_lem.1 (omega arith, (omega arith, (tt, (omega arith, (omega arith, tt))))) slow_enough

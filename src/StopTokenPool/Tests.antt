-- ===== src/StopTokenPool/Tests.antt =====
-- The theorems at concrete calls.
use cpp_code.Prelude.{◌≡◌, refl, true, false, some, List, [], ◌∷◌, ◌+◌}
use cpp_code.Prelude.Count.{times}
use cpp_code.StopTokenPool.{
  new, stop, Action, adds, enters, stops, history, accepted, destroyed, act, test_stop_token,
}
use cpp_code.StopTokenPool.Joining.{stop_joins}

-- Two tasks, of which the first is late, and one that is refused.
abbrev some_calls : List Action
some_calls = adds 1 ∷ adds 2 ∷ enters 1 ∷ stops ∷ adds 3 ∷ []

stop_joins_example :
    let p = stop (history new some_calls) in
    (times 2 p.joined + times 2 p.adding ≡ times 2 (accepted new some_calls))
    × (p.is_running ≡ false)
    × (destroyed p ≡ true)
stop_joins_example = stop_joins some_calls 2

some_calls_joined : (stop (history new some_calls)).joined ≡ 2 ∷ []
unfolding stop history act
some_calls_joined = refl

prints_twice : test_stop_token (false ∷ false ∷ true ∷ []) ≡ some 2
unfolding test_stop_token
prints_twice = refl

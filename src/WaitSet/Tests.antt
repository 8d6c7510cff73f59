-- ===== src/WaitSet/Tests.antt =====
-- The theorems on the wait set and the listener at concrete steps.
use cpp_code.Prelude.{
  ℕ, ◌+◌, ◌≤◌, ◌≡◌, refl, zero, suc, true, false, Option, none, some, List, [], ◌∷◌, ◌++◌, arith,
  length, ◌<◌, ◌≢◌, ◌↔◌, inl, inr, Bool, if◌then◌else◌,
}
use cpp_code.WaitSet.{
  Semaphore, WaitSet, new, outside, Action, attaches, stores, posts, waits, collects, act, run,
}
use cpp_code.WaitSet.Waking.{IsAmong, IsQuiet, AllFresh, collection, fired_is_collected}
use cpp_code.WaitSet.Counting.{count, concat, found_at, delivered_once}
use cpp_code.WaitSet.Listener.{
  Listener, Event, steps, exited, start, stop, loop, history, new_listener,
}
use cpp_code.WaitSet.Listener.Stopping.{stop_ends, steps_left}
use cpp_code.WaitSet.Listener.Calls.{keys, pending, AllFirst, each_called}

-- A semaphore as the number that it holds.
abbrev take_one : ℕ → Option ℕ
take_one zero = none
take_one (suc n) = some n

take_one_value : (n m : ℕ) → take_one n ≡ some m → n ≡ suc m
take_one_value zero m e = ground arith
take_one_value (suc n) m e = ground arith

take_one_some : (n : ℕ) → 0 < n → take_one n ≢ none
take_one_some zero h = absurd (omega arith)
take_one_some (suc n) h = λ e. cc

abbrev counter : Semaphore ℕ
counter = record {
  value = λ n. n;
  post = λ n. suc n;
  try_wait = take_one;
  value-post = λ n. refl;
  value-try_wait = take_one_value;
  try_wait_some = take_one_some;
}

-- Two sources, of which the second is fired twice before anything is collected.
abbrev some_actions : List Action
some_actions = attaches 3 ∷ attaches 7 ∷ stores 7 ∷ posts ∷ stores 7 ∷ posts ∷ []

abbrev fired_set : WaitSet ℕ
fired_set = run counter (new 0) some_actions

fired_set-AllFresh : AllFresh counter (new 0) some_actions
unfolding act
fired_set-AllFresh = (refl, (refl, (tt, (tt, (tt, (tt, tt))))))

fired_set-IsQuiet : IsQuiet counter fired_set
unfolding run
fired_set-IsQuiet = (refl, refl)

fired_set-IsAmong : IsAmong 7 fired_set.attached
unfolding run
fired_set-IsAmong = inr (inl refl)

fired_set_set : fired_set.triggered 7 ≡ true
unfolding run
fired_set_set = refl

fired_is_collected_example :
    let w' = run counter fired_set (waits ∷ collects ∷ collection counter fired_set.attached) in
    (w'.place ≡ outside)
    × (found : List ℕ) × (w'.returned ≡ fired_set.returned ++ found ∷ [])
    × IsAmong 7 found
    × ((y : ℕ) → IsAmong y found ↔ (IsAmong y fired_set.attached × (fired_set.triggered y ≡ true)))
    × ((y : ℕ)
        → (w'.triggered y ≡ true)
          ↔ ((fired_set.triggered y ≡ true) × (IsAmong y fired_set.attached → ⊥)))
fired_is_collected_example =
    fired_is_collected counter 0 some_actions 7 fired_set-AllFresh fired_set-IsQuiet
      fired_set-IsAmong fired_set_set

abbrev collected_set : WaitSet ℕ
collected_set =
    run counter (new 0) (some_actions ++ waits ∷ collects ∷ collects ∷ collects ∷ stores 7 ∷ [])

delivered_once_example :
    count 7 (concat collected_set.returned)
      + count 7 (found_at collected_set.place)
      + (if collected_set.triggered 7 then 1 else 0)
    ≤ count 7 collected_set.fired
delivered_once_example =
    delivered_once counter 0
      (some_actions ++ waits ∷ collects ∷ collects ∷ collects ∷ stores 7 ∷ []) 7

-- A thread that waits for the semaphore when stop is called, with one source attached.
abbrev waiting_listener : Listener ℕ
waiting_listener =
    history counter (start counter (new_listener 0))
      (Event.attaches 7 1 ∷ steps false ∷ steps false ∷ [])

abbrev six_steps : List Bool
six_steps = false ∷ false ∷ false ∷ false ∷ false ∷ false ∷ []

six_enough :
    steps_left counter waiting_listener.at (stop counter waiting_listener) ≤ length six_steps
unfolding history stop start act
six_enough = ground arith

stop_ends_example : (loop counter (stop counter waiting_listener) six_steps).at ≡ exited
stop_ends_example = stop_ends counter waiting_listener six_steps six_enough

abbrev some_events : List Event
some_events =
    Event.attaches 7 1
    ∷ steps false
    ∷ Event.stores 7
    ∷ Event.posts
    ∷ steps false
    ∷ steps false
    ∷ steps false
    ∷ steps false
    ∷ steps false
    ∷ []

abbrev called_listener : Listener ℕ
called_listener = history counter (start counter (new_listener 0)) some_events

one_call : called_listener.called ≡ (7, 1) ∷ []
unfolding history start act
one_call = refl

each_called_example :
    (keys called_listener.called ++ pending called_listener.at
      ≡ concat called_listener.set.returned)
    × AllFirst called_listener.entries called_listener.called
each_called_example = each_called counter 0 some_events

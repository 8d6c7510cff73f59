-- ===== src/TaskPool/Tests.antt =====
-- The theorem on the futures at concrete calls.
use cpp_code.Prelude.{◌≡◌, refl, some, List, [], ◌∷◌, none}
use cpp_code.TaskPool.{
  returns, throws, new, stop, Action, posts, posts_coroutine, runs_normal, act, history, post,
  post_coroutine, run_normal,
}
use cpp_code.TaskPool.Futures.{result}

-- The first job is run, and the others are queued at the stop.
abbrev before : List Action
before = posts (returns 4) ∷ posts_coroutine (throws 1) ∷ runs_normal ∷ posts (returns 5) ∷ []

abbrev after : List Action
after = runs_normal ∷ posts (returns 6) ∷ runs_normal ∷ []

-- The second and the third job are in the queues at the stop, and the fourth comes after it.
results :
    let q = history (stop (history (new 2 2) before)) after in
    (result (q.futures 0) ≡ some (returns 4))
    × (result (q.futures 1) ≡ none)
    × (result (q.futures 2) ≡ none)
    × (result (q.futures 3) ≡ none)
unfolding history act post post_coroutine run_normal stop
results = (refl, refl, refl, refl)

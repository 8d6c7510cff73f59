-- ===== src/Pool/Tests.antt =====
-- The pool's theorems at concrete calls.
use cpp_code.Prelude.{
  ◌≡◌, refl, true, false, some, List, [], ◌∷◌, ◌++◌, ℕ, Option, none, arith, map,
}
use cpp_code.Prelude.Count.{times}
use cpp_code.Pool.Coroutine.{call_posted, thread_runs, new_pool, coro_act, coro_history, joins}
use cpp_code.Pool.Coroutine.Settling.{runs as turns, post_coros, coroutines_block}
use cpp_code.Pool.Coroutine.Spare.{post_of, turns_of, promises_of, spare_thread_settles}
use cpp_code.Pool.{
  ThreadPool, new, emplace_worker, stop, Action, adds, posts, stops, runs, history, posted,
}
use cpp_code.Pool.Stopped.{late_worker, history_accounts}

-- A pool of two threads with one long-running task.
abbrev busy : ThreadPool
busy = record {
  is_running = true;
  small_task_workers = 2;
  io_stopped = false;
  queued = [];
  executed = [];
  long_running_workers = 7 ∷ [];
  finished = [];
}

late_worker_example :
    let p' = history (emplace_worker (stop busy) 8) ((posts 1 ∷ []) ++ stops ∷ []) in
    (p'.long_running_workers ≡ 8 ∷ []) × (p'.finished ≡ [] ++ 7 ∷ [])
late_worker_example = late_worker busy 8 (posts 1 ∷ []) refl

abbrev fresh : ThreadPool
fresh = record busy { long_running_workers = [] }

fresh-new : new 2 ≡ some fresh
unfolding new
fresh-new = refl

-- A job is run, one is still queued at the stop, and one comes after it.
abbrev some_calls : List Action
some_calls = posts 1 ∷ adds 7 ∷ posts 2 ∷ runs ∷ stops ∷ runs ∷ posts 3 ∷ []

history_accounts_example :
    let p' = history fresh some_calls in
    (p'.executed ++ p'.queued ≡ posted fresh some_calls)
    × (p'.is_running ≡ false → p'.long_running_workers ≡ [])
history_accounts_example = history_accounts 2 fresh some_calls fresh-new

coroutines_block_example :
    let p =
      coro_history (coro_history (new_pool 2) (post_coros ((1, 0) ∷ (2, 3) ∷ []))) (turns 2) in
    let p' = coro_history p (call_posted 3 ∷ thread_runs ∷ []) in
    (p'.settled ≡ []) × (joins p' ≡ false)
coroutines_block_example =
    coroutines_block 2 ((1, 0) ∷ (2, 3) ∷ []) (call_posted 3 ∷ thread_runs ∷ []) (omega arith) refl

-- Two coroutines on three threads, with a function between them.
abbrev three_posts : List (ℕ × Option ℕ)
three_posts = (1, some 2) ∷ (2, none) ∷ (3, some 0) ∷ []

spare_thread_settles_example :
    let p =
      coro_history
        (coro_history (new_pool 3) (map post_of three_posts))
        (turns (turns_of three_posts)) in
    (p.ready ≡ []) × (p.waiting ≡ 0) × (times 1 p.settled ≡ times 1 (promises_of three_posts))
spare_thread_settles_example = spare_thread_settles 3 1 three_posts (omega arith)

-- The coroutine ends after its last turn, and both are settled.
three_posts_end :
    (coro_history (coro_history (new_pool 3) (map post_of three_posts)) (turns 5)).settled
    ≡ 1 ∷ 3 ∷ 2 ∷ []
unfolding coro_history new_pool coro_act
three_posts_end = refl

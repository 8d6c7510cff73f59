-- ===== src/Pool/Coroutine/Spare.antt =====
-- The coroutines of post_coro, with a thread to spare.
use cpp_code.Prelude.{
  ℕ, zero, suc, ◌+◌, ◌-◌, ◌≤◌, ◌<◌, ◌≡◌, refl, sym, ap, ◌∙◌, List, [], ◌∷◌, ◌++◌, true, false,
  Option, none, some, arith, map, append-nil, append_assoc,
}
use cpp_code.Prelude.Count.{one_of, times}
use cpp_code.Pool.Coroutine.{
  Ready, call, spawn, resume, CoroPool, new_pool, take_ready, run_ready, coro_act, coro_history,
  CoroAction, call_posted, coro_posted,
}
use cpp_code.Pool.Coroutine.Settling.{runs, run_ready_lem, post_ready-running}

-- How many turns of a thread are left, of the jobs that are ready.
abbrev turns_left : List Ready → ℕ
turns_left [] = 0
turns_left (call id ∷ jobs) = 1 + turns_left jobs
turns_left (spawn id turns ∷ jobs) = suc turns + turns_left jobs
turns_left (resume id turns ∷ jobs) = suc turns + turns_left jobs

abbrev coroutines : List Ready → ℕ
coroutines [] = 0
coroutines (call id ∷ jobs) = coroutines jobs
coroutines (spawn id turns ∷ jobs) = suc (coroutines jobs)
coroutines (resume id turns ∷ jobs) = suc (coroutines jobs)

abbrev resumed : List Ready → ℕ
resumed [] = 0
resumed (call id ∷ jobs) = resumed jobs
resumed (spawn id turns ∷ jobs) = resumed jobs
resumed (resume id turns ∷ jobs) = suc (resumed jobs)

-- How often a promise is among those of the jobs.
abbrev pub promised_by : ℕ → List Ready → ℕ
promised_by asked [] = 0
promised_by asked (call id ∷ jobs) = one_of asked id + promised_by asked jobs
promised_by asked (spawn id turns ∷ jobs) = one_of asked id + promised_by asked jobs
promised_by asked (resume id turns ∷ jobs) = one_of asked id + promised_by asked jobs

turns_left-append : (xs ys : List Ready) → turns_left (xs ++ ys) ≡ turns_left xs + turns_left ys
turns_left-append [] ys = omega arith
turns_left-append (call id ∷ xs) ys = omega (arith, turns_left-append xs ys)
turns_left-append (spawn id turns ∷ xs) ys = omega (arith, turns_left-append xs ys)
turns_left-append (resume id turns ∷ xs) ys = omega (arith, turns_left-append xs ys)

coroutines-append : (xs ys : List Ready) → coroutines (xs ++ ys) ≡ coroutines xs + coroutines ys
coroutines-append [] ys = omega arith
coroutines-append (call id ∷ xs) ys = coroutines-append xs ys
coroutines-append (spawn id turns ∷ xs) ys = omega (arith, coroutines-append xs ys)
coroutines-append (resume id turns ∷ xs) ys = omega (arith, coroutines-append xs ys)

resumed-append : (xs ys : List Ready) → resumed (xs ++ ys) ≡ resumed xs + resumed ys
resumed-append [] ys = omega arith
resumed-append (call id ∷ xs) ys = resumed-append xs ys
resumed-append (spawn id turns ∷ xs) ys = resumed-append xs ys
resumed-append (resume id turns ∷ xs) ys = omega (arith, resumed-append xs ys)

promised_by-append :
    (asked : ℕ) (xs ys : List Ready)
    → promised_by asked (xs ++ ys) ≡ promised_by asked xs + promised_by asked ys
promised_by-append asked [] ys = omega arith
promised_by-append asked (call id ∷ xs) ys = omega (arith, promised_by-append asked xs ys)
promised_by-append asked (spawn id turns ∷ xs) ys = omega (arith, promised_by-append asked xs ys)
promised_by-append asked (resume id turns ∷ xs) ys = omega (arith, promised_by-append asked xs ys)

resumed-le : (jobs : List Ready) → resumed jobs ≤ coroutines jobs
resumed-le [] = omega arith
resumed-le (call id ∷ jobs) = resumed-le jobs
resumed-le (spawn id turns ∷ jobs) = omega (arith, resumed-le jobs)
resumed-le (resume id turns ∷ jobs) = omega (arith, resumed-le jobs)

-- A thread is to spare, and each waiting thread's coroutine is ready.
record Inv (p : CoroPool) (asked total : ℕ) : Type 0 where
  on : p.io_stopped ≡ false
  spare : coroutines p.ready < p.threads
  awaited : p.waiting ≡ resumed p.ready
  accounted : times asked p.settled + promised_by asked p.ready ≡ total

take_ready-Inv :
    (p : CoroPool) (asked total : ℕ) (jobs : List Ready)
    → p.ready ≡ jobs
    → Inv p asked total
    → Inv (take_ready p jobs) asked total
      × (turns_left (take_ready p jobs).ready ≡ turns_left jobs - 1)
unfolding take_ready
take_ready-Inv p asked total [] e v = (v, rw e (omega arith))
take_ready-Inv p asked total (call id ∷ jobs) e v = ground arith
take_ready-Inv p asked total (spawn id zero ∷ jobs) e v = ground arith
take_ready-Inv p asked total (spawn id (suc turns) ∷ jobs) e v =
    let later = resume id turns ∷ [] in
    ground (
      arith,
      turns_left-append jobs later,
      coroutines-append jobs later,
      resumed-append jobs later,
      promised_by-append asked jobs later,
    )
take_ready-Inv p asked total (resume id zero ∷ jobs) e v = ground arith
take_ready-Inv p asked total (resume id (suc turns) ∷ jobs) e v =
    let later = resume id turns ∷ [] in
    ground (
      arith,
      turns_left-append jobs later,
      coroutines-append jobs later,
      resumed-append jobs later,
      promised_by-append asked jobs later,
    )

run_ready-Inv :
    (p : CoroPool) (asked total : ℕ)
    → Inv p asked total
    → Inv (run_ready p) asked total × (turns_left (run_ready p).ready ≡ turns_left p.ready - 1)
run_ready-Inv p asked total v =
    let free : p.waiting < p.threads = omega (arith, v.spare, v.awaited, resumed-le p.ready) in
    rw (run_ready_lem p v.on free) (take_ready-Inv p asked total p.ready refl v)

runs-Inv :
    (p : CoroPool) (asked total k : ℕ)
    → Inv p asked total
    → let p' = coro_history p (runs k) in
      Inv p' asked total × (turns_left p'.ready ≡ turns_left p.ready - k)
unfolding coro_history coro_act
runs-Inv p asked total zero v = (v, omega arith)
runs-Inv p asked total (suc k) v =
    let (v', less) = run_ready-Inv p asked total v in
    let (v'', all) = runs-Inv (run_ready p) asked total k v' in (v'', omega (arith, less, all))

no_turns_left : (jobs : List Ready) → turns_left jobs ≡ 0 → jobs ≡ []
no_turns_left [] e = refl
no_turns_left (call id ∷ jobs) e = absurd (omega (arith, e))
no_turns_left (spawn id turns ∷ jobs) e = absurd (omega (arith, e))
no_turns_left (resume id turns ∷ jobs) e = absurd (omega (arith, e))

-- A promise with a function, or with a coroutine and how often it has to be taken up.
abbrev pub post_of : ℕ × Option ℕ → CoroAction
post_of (id, none) = call_posted id
post_of (id, some turns) = coro_posted id turns

job_of : ℕ × Option ℕ → Ready
job_of (id, none) = call id
job_of (id, some turns) = spawn id turns

abbrev pub coros_of : List (ℕ × Option ℕ) → ℕ
coros_of [] = 0
coros_of ((id, none) ∷ posts) = coros_of posts
coros_of ((id, some turns) ∷ posts) = suc (coros_of posts)

abbrev pub turns_of : List (ℕ × Option ℕ) → ℕ
turns_of [] = 0
turns_of ((id, none) ∷ posts) = suc (turns_of posts)
turns_of ((id, some turns) ∷ posts) = suc turns + turns_of posts

abbrev pub promises_of : List (ℕ × Option ℕ) → List ℕ
promises_of [] = []
promises_of ((id, o) ∷ posts) = id ∷ promises_of posts

posts_lem :
    (p : CoroPool) (posts : List (ℕ × Option ℕ))
    → p.is_running ≡ true
    → coro_history p (map post_of posts) ≡ record p { ready = p.ready ++ map job_of posts }
unfolding coro_history coro_act job_of
posts_lem p [] on = ap (λ jobs. record p { ready = jobs }) (sym (append-nil p.ready))
posts_lem p ((id, none) ∷ posts) on =
    let p' : CoroPool = record p { ready = p.ready ++ call id ∷ [] } in
    ap (λ q. coro_history q (map post_of posts)) (post_ready-running p (call id) on)
    ∙ posts_lem p' posts on
    ∙ ap (λ jobs. record p { ready = jobs })
        (append_assoc p.ready (call id ∷ []) (map job_of posts))
posts_lem p ((id, some turns) ∷ posts) on =
    let p' : CoroPool = record p { ready = p.ready ++ spawn id turns ∷ [] } in
    ap (λ q. coro_history q (map post_of posts)) (post_ready-running p (spawn id turns) on)
    ∙ posts_lem p' posts on
    ∙ ap (λ jobs. record p { ready = jobs })
        (append_assoc p.ready (spawn id turns ∷ []) (map job_of posts))

posts_counts :
    (asked : ℕ) (posts : List (ℕ × Option ℕ))
    → (coroutines (map job_of posts) ≡ coros_of posts)
      × (turns_left (map job_of posts) ≡ turns_of posts)
      × (resumed (map job_of posts) ≡ 0)
      × (promised_by asked (map job_of posts) ≡ times asked (promises_of posts))
unfolding job_of
posts_counts asked [] = (refl, refl, refl, refl)
posts_counts asked ((id, none) ∷ posts) = omega (arith, posts_counts asked posts)
posts_counts asked ((id, some turns) ∷ posts) = omega (arith, posts_counts asked posts)

-- On a new pool let functions and coroutines be posted, fewer coroutines than it has threads. After
-- as many turns of the threads as these take together, nothing is ready and no thread waits, and
-- each promise has been set as often as it was posted.
pub spare_thread_settles :
    (n asked : ℕ) (posts : List (ℕ × Option ℕ))
    → coros_of posts < n
    → let p =
        coro_history (coro_history (new_pool n) (map post_of posts)) (runs (turns_of posts)) in
      (p.ready ≡ []) × (p.waiting ≡ 0) × (times asked p.settled ≡ times asked (promises_of posts))
unfolding new_pool
spare_thread_settles n asked posts h =
    let (coros, turns, none_resumed, ids) = posts_counts asked posts in
    let q : CoroPool = record (new_pool n) { ready = map job_of posts } in
    let v : Inv q asked (times asked (promises_of posts)) = record {
      on = refl;
      spare = omega (arith, coros, h);
      awaited = omega (arith, none_resumed);
      accounted = omega (arith, ids);
    } in
    let (v', less) = runs-Inv q asked _ (turns_of posts) v in
    let p = coro_history q (runs (turns_of posts)) in
    let empty = no_turns_left p.ready (omega (arith, less, turns)) in
    rw (posts_lem (new_pool n) posts refl) (
      empty,
      v'.awaited ∙ ap resumed empty,
      omega (arith, v'.accounted, ap (promised_by asked) empty),
    )

-- ===== src/Pool/Coroutine/Settling.antt =====
-- The futures of post_coro, with no thread to spare.
use cpp_code.Prelude.{
  ℕ, zero, suc, ◌+◌, ◌≤◌, ◌<◌, ◌≡◌, refl, sym, ap, ◌∙◌, List, [], ◌∷◌, ◌++◌, ap₂, true, false, ◌||◌,
  arith, leb, append-nil, length, append_assoc,
}
use cpp_code.Pool.Coroutine.{
  Ready, spawn, resume, CoroPool, new_pool, post_ready, take_ready, run_ready, CoroAction,
  call_posted, coro_posted, io_stops, thread_runs, coro_act, coro_history, joins,
}

-- The pool can do nothing more: it is stopped, or each thread waits.
abbrev IsStuck : CoroPool → Type 0
IsStuck p = (p.io_stopped || leb p.threads p.waiting) ≡ true

act-IsStuck :
    (p : CoroPool) (a : CoroAction)
    → IsStuck p
    → IsStuck (coro_act p a)
      × ((coro_act p a).waiting ≡ p.waiting)
      × ((coro_act p a).settled ≡ p.settled)
unfolding coro_act post_ready
act-IsStuck p (call_posted id) h = ground arith
act-IsStuck p (coro_posted id turns) h = ground arith
act-IsStuck p io_stops h = ground arith
act-IsStuck p thread_runs h = rw h (h, refl, refl)

-- Once as many threads wait in fut.get() as the pool has, or the io_context is stopped, nothing
-- that is called on the pool or that its threads do sets any promise or ends any thread's wait. So
-- where one thread waits for its coroutine at that moment, the joins of stop and of the destructor
-- never return.
pub never_settles :
    (p : CoroPool) (actions : List CoroAction)
    → IsStuck p
    → let p' = coro_history p actions in
      (p'.settled ≡ p.settled) × (p'.waiting ≡ p.waiting) × (0 < p.waiting → joins p' ≡ false)
unfolding coro_history
never_settles p [] h = (refl, refl, λ some_wait. ground arith)
never_settles p (a ∷ actions) h =
    let (h', waits, sets) = act-IsStuck p a h in
    let (sets', waits', hangs) = never_settles (coro_act p a) actions h' in
    (sets' ∙ sets, waits' ∙ waits, λ some_wait. hangs (rw waits some_wait))

-- post_coro is called for each coroutine of a list.
abbrev pub post_coros : List (ℕ × ℕ) → List CoroAction
post_coros [] = []
post_coros ((id, turns) ∷ ids) = coro_posted id (suc turns) ∷ post_coros ids

abbrev pub runs : ℕ → List CoroAction
runs zero = []
runs (suc n) = thread_runs ∷ runs n

spawns : List (ℕ × ℕ) → List Ready
spawns [] = []
spawns ((id, turns) ∷ ids) = spawn id (suc turns) ∷ spawns ids

pub post_ready-running :
    (p : CoroPool) (job : Ready)
    → p.is_running ≡ true
    → post_ready p job ≡ record p { ready = p.ready ++ job ∷ [] }
unfolding post_ready
post_ready-running p job on = ground arith

post_coros_lem :
    (p : CoroPool) (ids : List (ℕ × ℕ))
    → p.is_running ≡ true
    → coro_history p (post_coros ids) ≡ record p { ready = p.ready ++ spawns ids }
unfolding coro_history coro_act post_ready spawns
post_coros_lem p [] on = ap (λ jobs. record p { ready = jobs }) (sym (append-nil p.ready))
post_coros_lem p ((id, turns) ∷ ids) on =
    let p' : CoroPool = record p { ready = p.ready ++ spawn id (suc turns) ∷ [] } in
    ap (λ q. coro_history q (post_coros ids)) (post_ready-running p (spawn id (suc turns)) on)
    ∙ post_coros_lem p' ids on
    ∙ ap (λ jobs. record p { ready = jobs })
        (append_assoc p.ready (spawn id (suc turns) ∷ []) (spawns ids))

pub run_ready_lem :
    (p : CoroPool)
    → p.io_stopped ≡ false
    → p.waiting < p.threads
    → run_ready p ≡ take_ready p p.ready
unfolding run_ready
run_ready_lem p on free = ground arith

-- Each thread that takes up what post_coro posted is lost to the others.
spawns-wait :
    (p : CoroPool) (ids : List (ℕ × ℕ)) (later : List Ready)
    → p.io_stopped ≡ false
    → p.ready ≡ spawns ids ++ later
    → p.waiting + length ids ≤ p.threads
    → let p' = coro_history p (runs (length ids)) in
      (p'.waiting ≡ p.waiting + length ids) × (p'.settled ≡ p.settled) × (p'.threads ≡ p.threads)
unfolding coro_history coro_act spawns take_ready
spawns-wait p [] later on e h = (omega arith, refl, refl)
spawns-wait p ((id, turns) ∷ ids) later on e h =
    let jobs = (spawns ids ++ later) ++ resume id turns ∷ [] in
    let p' : CoroPool = record p { ready = jobs; waiting = suc p.waiting } in
    let (waits, sets, same) =
      spawns-wait p' ids (later ++ resume id turns ∷ []) on
        (append_assoc (spawns ids) later (resume id turns ∷ [])) (omega (arith, h)) in
    let step : coro_history p (runs (suc (length ids))) ≡ coro_history p' (runs (length ids)) =
      ap (λ q. coro_history q (runs (length ids)))
        (run_ready_lem p on (omega (arith, h)) ∙ ap (take_ready p) e) in
    rw step (omega (arith, waits), sets, same)

waiting-IsStuck : (p : CoroPool) (n : ℕ) → p.waiting ≡ n → p.threads ≡ n → IsStuck p
waiting-IsStuck p n waits same = ground arith

-- On a new pool of n threads, let post_coro be called first, for n coroutines which a thread has to
-- take up after they are spawned. Once each thread has taken one of those calls, no promise is ever
-- set, whatever is posted further, and the joins of stop never return.
pub coroutines_block :
    (n : ℕ) (ids : List (ℕ × ℕ)) (actions : List CoroAction)
    → 0 < n
    → length ids ≡ n
    → let p = coro_history (coro_history (new_pool n) (post_coros ids)) (runs n) in
      ((coro_history p actions).settled ≡ []) × (joins (coro_history p actions) ≡ false)
unfolding new_pool
coroutines_block n ids actions some_thread e =
    let q : CoroPool = record (new_pool n) { ready = spawns ids } in
    let posted = post_coros_lem (new_pool n) ids refl in
    let (waits, sets, same) =
      spawns-wait q ids [] refl (sym (append-nil (spawns ids))) (omega (arith, e)) in
    let p = coro_history (coro_history (new_pool n) (post_coros ids)) (runs n) in
    let p_lem : p ≡ coro_history q (runs (length ids)) =
      ap₂ (λ r k. coro_history r (runs k)) posted (sym e) in
    let (sets', waits', hangs) = never_settles p actions (
      waiting-IsStuck p n (ap (λ r. r.waiting) p_lem ∙ omega (arith, waits, e))
        (ap (λ r. r.threads) p_lem ∙ same)) in
    (
      sets' ∙ ap (λ r. r.settled) p_lem ∙ sets,
      hangs (omega (arith, some_thread, e, ap (λ r. r.waiting) p_lem, waits)),
    )

-- ===== src/Pool/Stopped.antt =====
-- What stop leaves behind.
use cpp_code.Prelude.{
  ℕ, zero, suc, ◌≡◌, sym, ap, ◌∙◌, true, false, some, List, [], ◌∷◌, ◌++◌, arith, if◌then◌else◌,
  append_assoc, append-nil, refl, inl, inr, ◌||◌, ◌==◌, Bool-cases,
}
use cpp_code.Pool.{
  take_job, run_one, add_long_running_task, ThreadPool, post, new, emplace_worker, stop, Action,
  adds, posts, stops, runs, act, history, posted,
}

pub record Inv (p : ThreadPool) (accepted : List ℕ) : Type 0 where
  pub all : p.executed ++ p.queued ≡ accepted
  pub ended : p.is_running ≡ false → (p.long_running_workers ≡ []) × (p.io_stopped ≡ true)

snoc_all :
    (executed queued accepted : List ℕ) (job : ℕ)
    → executed ++ queued ≡ accepted
    → executed ++ (queued ++ job ∷ []) ≡ accepted ++ job ∷ []
snoc_all executed queued accepted job e =
    sym (append_assoc executed queued (job ∷ [])) ∙ ap (λ kept. kept ++ job ∷ []) e

post-Inv :
    (p : ThreadPool) (accepted : List ℕ) (job : ℕ)
    → Inv p accepted
    → Inv (act p (posts job)) (accepted ++ (if p.is_running then job ∷ [] else []))
unfolding act
post-Inv p accepted job v =
    ground (arith, snoc_all p.executed p.queued accepted job v.all, append-nil accepted)

take_job-Inv :
    (p : ThreadPool) (accepted jobs : List ℕ)
    → p.queued ≡ jobs
    → Inv p accepted
    → Inv (take_job p jobs) accepted
unfolding take_job
take_job-Inv p accepted [] e v = v
take_job-Inv p accepted (job ∷ jobs) e v = ground (arith, append_assoc p.executed (job ∷ []) jobs)

run_one-Inv : (p : ThreadPool) (accepted : List ℕ) → Inv p accepted → Inv (run_one p) accepted
unfolding run_one
run_one-Inv p accepted v = elim (Bool-cases (p.io_stopped || p.small_task_workers == 0)) [
  | inl e ↦ rw e v
  | inr e ↦ rw e (take_job-Inv p accepted p.queued refl v)
]

other-Inv :
    (p : ThreadPool) (accepted : List ℕ) (task : ℕ)
    → Inv p accepted
    → Inv (act p (adds task)) accepted × Inv (act p stops) accepted × Inv (act p runs) accepted
unfolding act add_long_running_task stop
other-Inv p accepted task v = (ground arith, ground arith, run_one-Inv p accepted v)

post_done : (p : ThreadPool) (job : ℕ) → (post p job).1 ≡ p.is_running
unfolding post
post_done p job = ground arith

history-Inv :
    (p : ThreadPool) (accepted : List ℕ) (actions : List Action)
    → Inv p accepted
    → Inv (history p actions) (accepted ++ posted p actions)
unfolding history posted
history-Inv p accepted [] v = rw append-nil v
history-Inv p accepted (adds task ∷ actions) v =
    history-Inv (act p (adds task)) accepted actions (other-Inv p accepted task v).0
history-Inv p accepted (posts job ∷ actions) v =
    rw (← append_assoc)
      (history-Inv (act p (posts job)) _ actions (rw (post_done p job) (post-Inv p accepted job v)))
history-Inv p accepted (stops ∷ actions) v =
    history-Inv (act p stops) accepted actions (other-Inv p accepted 0 v).1
history-Inv p accepted (runs ∷ actions) v =
    history-Inv (act p runs) accepted actions (other-Inv p accepted 0 v).2

-- What is kept of a worker that came too late.
pub record IsLate (w : ℕ) (ws finished : List ℕ) (p : ThreadPool) : Type 0 where
  pub down : p.is_running ≡ false
  pub kept : p.long_running_workers ≡ ws ++ w ∷ []
  pub unasked : p.finished ≡ finished

act-IsLate :
    (w : ℕ) (ws finished : List ℕ) (p : ThreadPool) (a : Action)
    → IsLate w ws finished p
    → IsLate w ws finished (act p a)
unfolding act
act-IsLate w ws finished p (adds task) v = ground arith
act-IsLate w ws finished p (posts job) v = ground arith
act-IsLate w ws finished p stops v = ground arith
act-IsLate w ws finished p runs v = ground arith

history-IsLate :
    (w : ℕ) (ws finished : List ℕ) (p : ThreadPool) (actions : List Action)
    → IsLate w ws finished p
    → IsLate w ws finished (history p actions)
unfolding history
history-IsLate w ws finished p [] v = v
history-IsLate w ws finished p (a ∷ actions) v =
    history-IsLate w ws finished (act p a) actions (act-IsLate w ws finished p a v)

first-IsLate :
    (p : ThreadPool) (w : ℕ)
    → p.is_running ≡ true
    → IsLate w [] (p.finished ++ p.long_running_workers) (emplace_worker (stop p) w)
unfolding emplace_worker stop
first-IsLate p w on = ground arith

-- Let addLongRunningTask have seen the flag set, and stop run before it takes the mutex. Then it
-- still starts the task, whose stop token nothing sets: after any further calls, stop and so the
-- destructor's among them, the task is the one long-running worker of the pool, and stop has asked
-- and joined only those that were there before it.
pub late_worker :
    (p : ThreadPool) (w : ℕ) (actions : List Action)
    → p.is_running ≡ true
    → let p' = history (emplace_worker (stop p) w) (actions ++ stops ∷ []) in
      (p'.long_running_workers ≡ w ∷ []) × (p'.finished ≡ p.finished ++ p.long_running_workers)
late_worker p w actions on =
    let late =
      history-IsLate w [] (p.finished ++ p.long_running_workers) (emplace_worker (stop p) w)
        (actions ++ stops ∷ []) (first-IsLate p w on) in
    (late.kept, late.unasked)

new-Inv : (n : ℕ) (p : ThreadPool) → new n ≡ some p → Inv p []
unfolding new
new-Inv zero p e = ground arith
new-Inv (suc n) p e = ground arith

-- Where each call of addLongRunningTask is whole: after any calls on a new pool and any work of its
-- threads, the jobs run and those still queued are together the jobs for which post returned a
-- future, in their order; and once the pool is stopped no long-running task is left.
pub history_accounts :
    (n : ℕ) (p : ThreadPool) (actions : List Action)
    → new n ≡ some p
    → let p' = history p actions in
      (p'.executed ++ p'.queued ≡ posted p actions)
      × (p'.is_running ≡ false → p'.long_running_workers ≡ [])
history_accounts n p actions e =
    let v = history-Inv p [] actions (new-Inv n p e) in (v.all, λ down. (v.ended down).0)

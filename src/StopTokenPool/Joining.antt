-- ===== src/StopTokenPool/Joining.antt =====
-- Which tasks stop joins, and which the pool's destructor waits for.
use cpp_code.Prelude.{
  ℕ, ◌≡◌, ap, ◌∙◌, inl, inr, List, [], ◌∷◌, ◌++◌, if◌then◌else◌, Bool-cases, suc, refl, ◌≢◌, Bool,
  true, false, some, get_elem?, length, arith, zero, ◌+◌, Option, none,
}
use cpp_code.Prelude.Count.{times, one_of, times-append}
use cpp_code.StopTokenPool.{
  taken, Pool, add_task, entered, stop, history, Action, none_left, destroyed, test_stop_token, act,
  new, enter, printed, accepted, adds, enters, stops,
}

-- Each task that was accepted is somewhere, as often as it was accepted.
abbrev Accounts : Pool → ℕ → ℕ → Type 0
Accounts p asked n = times asked p.joined + times asked p.workers + times asked p.adding ≡ n

times-snoc :
    (asked : ℕ) (xs : List ℕ) (x : ℕ) → times asked (xs ++ x ∷ []) ≡ times asked xs + one_of asked x
times-snoc asked xs x = omega (arith, times-append asked xs (x ∷ []))

add_task-Accounts :
    (p : Pool) (task asked n : ℕ)
    → Accounts p asked n
    → Accounts (add_task p task) asked (n + times asked (if p.is_running then task ∷ [] else []))
unfolding add_task
add_task-Accounts p task asked n v = elim (Bool-cases p.is_running) [
  | inl on ↦ rw on (omega (arith, v, times-snoc asked p.adding task))
  | inr off ↦ rw off (omega (arith, v))
]

times-taken :
    (asked task : ℕ) (adding : List ℕ) (i : ℕ)
    → (taken adding i).0 ≡ some task
    → one_of asked task + times asked (taken adding i).1 ≡ times asked adding
unfolding taken
times-taken asked task [] i e = cc
times-taken asked task (x ∷ adding) zero e = ground arith
times-taken asked task (x ∷ adding) (suc i) e = omega (arith, times-taken asked task adding i e)

entered-Accounts :
    (p : Pool) (asked n : ℕ) (got : Option ℕ) (rest : List ℕ)
    → ((task : ℕ) → got ≡ some task → one_of asked task + times asked rest ≡ times asked p.adding)
    → Accounts p asked n
    → Accounts (entered p (got, rest)) asked n
unfolding entered
entered-Accounts p asked n none rest t v = v
entered-Accounts p asked n (some task) rest t v =
    omega (arith, v, t task refl, times-snoc asked p.workers task)

enter-Accounts : (p : Pool) (i asked n : ℕ) → Accounts p asked n → Accounts (enter p i) asked n
unfolding enter
enter-Accounts p i asked n v =
    entered-Accounts p asked n (taken p.adding i).0 (taken p.adding i).1
      (λ task e. times-taken asked task p.adding i e) v

stop-Accounts : (p : Pool) (asked n : ℕ) → Accounts p asked n → Accounts (stop p) asked n
unfolding stop
stop-Accounts p asked n v = omega (arith, v, times-append asked p.joined p.workers)

history-Accounts :
    (p : Pool) (asked n : ℕ) (actions : List Action)
    → Accounts p asked n
    → Accounts (history p actions) asked (n + times asked (accepted p actions))
unfolding history act accepted
history-Accounts p asked n [] v = omega (arith, v)
history-Accounts p asked n (adds task ∷ actions) v =
    let now : List ℕ = if p.is_running then task ∷ [] else [] in
    let later = accepted (add_task p task) actions in
    let rest =
      history-Accounts (add_task p task) asked _ actions (add_task-Accounts p task asked n v) in
    rest ∙ omega (arith, times-append asked now later)
history-Accounts p asked n (enters i ∷ actions) v =
    history-Accounts (enter p i) asked n actions (enter-Accounts p i asked n v)
history-Accounts p asked n (stops ∷ actions) v =
    history-Accounts (stop p) asked n actions (stop-Accounts p asked n v)

-- After any calls, with the mutex given to any of the calls that wait for it, and then a stop, no
-- task is left to the destructor, and each task has been asked and joined as often as add_task
-- returned true for it, less the calls for it that are still between the test of the flag and the
-- mutex.
pub stop_joins :
    (actions : List Action) (asked : ℕ)
    → let p = stop (history new actions) in
      (times asked p.joined + times asked p.adding ≡ times asked (accepted new actions))
      × (p.is_running ≡ false)
      × (destroyed p ≡ true)
unfolding stop destroyed
stop_joins actions asked =
    let v =
      stop-Accounts (history new actions) asked _ (history-Accounts new asked 0 actions refl) in
    (omega (arith, v), refl, refl)

-- No further call of stop.
abbrev pub NoStop : List Action → Type 0
NoStop [] = Unit {0}
NoStop (adds task ∷ actions) = NoStop actions
NoStop (enters i ∷ actions) = NoStop actions
NoStop (stops ∷ actions) = ⊥

snoc_left : (tasks : List ℕ) (task : ℕ) → none_left (tasks ++ task ∷ []) ≡ false
unfolding none_left
snoc_left [] task = refl
snoc_left (x ∷ tasks) task = refl

entered_left :
    (p : Pool) (got : Option ℕ × List ℕ)
    → none_left p.workers ≡ false
    → none_left (entered p got).workers ≡ false
unfolding entered
entered_left p (none, rest) h = h
entered_left p (some task, rest) h = snoc_left p.workers task

add_task_workers : (p : Pool) (task : ℕ) → (add_task p task).workers ≡ p.workers
unfolding add_task
add_task_workers p task = ground arith

history_left :
    (p : Pool) (actions : List Action)
    → NoStop actions
    → none_left p.workers ≡ false
    → none_left (history p actions).workers ≡ false
unfolding history act enter
history_left p [] n h = h
history_left p (adds task ∷ actions) n h =
    history_left (add_task p task) actions n (ap none_left (add_task_workers p task) ∙ h)
history_left p (enters i ∷ actions) n h =
    history_left (enter p i) actions n (entered_left p (taken p.adding i) h)
history_left p (stops ∷ actions) n h = absurd n

late_enters :
    (p : Pool) (got : Option ℕ × List ℕ) (task : ℕ)
    → got.0 ≡ some task
    → none_left (entered p got).workers ≡ false
unfolding entered
late_enters p (none, rest) task e = cc
late_enters p (some t, rest) task e = snoc_left p.workers t

-- Let a call of add_task have seen the flag set, and stop run before it gets the mutex. Then the
-- pool's destructor does not return after any calls but stop: it joins a task that nothing has
-- asked to stop, and tasks are taken to run until they are asked. After a second call of stop it does.
pub late_task_hangs :
    (p : Pool) (i task : ℕ) (actions : List Action)
    → (taken p.adding i).0 ≡ some task
    → NoStop actions
    → let q = history (enter (stop p) i) actions in
      (destroyed q ≡ false) × (destroyed (stop q) ≡ true)
unfolding destroyed stop enter
late_task_hangs p i task actions e n = (
  history_left (enter (stop p) i) actions n (late_enters (stop p) (taken p.adding i) task e),
  refl,
)

-- The loop of a task ends on the first answer true of its token.
pub test_stop_token_ends :
    (before after : List Bool)
    → ((i : ℕ) → get_elem? before i ≢ some true)
    → test_stop_token (before ++ true ∷ after) ≡ some (length before)
unfolding test_stop_token printed
test_stop_token_ends [] after h = refl
test_stop_token_ends (true ∷ before) after h = absurd (h 0 refl)
test_stop_token_ends (false ∷ before) after h =
    ap printed (test_stop_token_ends before after (λ i. h (suc i)))

-- ===== src/PthreadPlatform/Ending.antt =====
-- The end of the threads that count.
use cpp_code.Prelude.{
  ℕ, zero, suc, ◌+◌, ◌-◌, ◌*◌, ◌<◌, ◌≡◌, refl, ◌≢◌, ◌⊎◌, inl, inr, Bool, false, Option, none, some,
  List, [], ◌∷◌, arith, ◌==◌, Bool-cases, ◌≤◌, ap, ◌∙◌, length,
}
use cpp_code.Prelude.Rounds.{AllRounds, concat, steps, rounds_work}
use cpp_code.PthreadPlatform.Exact.{Inv, turn-Inv, turns-Inv, demo-Inv}
use cpp_code.PthreadPlatform.{
  Mutex, Phase, outside, locked, loaded, stored, CounterThread, took, gave, in_phase, thread_at,
  turn, Process, turns, counter_func, thread_count, demo_normal_mutex, iters_each,
}
use cpp_code.PthreadPlatform.Steps.{Good, is_inside, inside, taken, AllGood, todo, todo_in}

-- The steps that a thread has left.
abbrev left_in : ℕ → Phase → ℕ
left_in n outside = 4 * n
left_in n locked = 4 * n - 1
left_in n (loaded v) = 4 * n - 2
left_in n stored = 4 * n - 3

abbrev left : List CounterThread → ℕ
left [] = 0
left (w ∷ ws) = left_in w.iters w.phase + left ws

module _ {M : Type 0} (mutex : Mutex M) where
  -- A thread that has ended, or waits for the mutex.
  abbrev Blocked : M → ℕ → Phase → Type 0
  Blocked m n outside = (n ≡ 0) ⊎ (mutex.owner m ≢ none)
  Blocked m n locked = ⊥
  Blocked m n (loaded v) = ⊥
  Blocked m n stored = ⊥

  abbrev BlockedAt : M → List CounterThread → ℕ → Type 0
  BlockedAt m [] k = Unit {0}
  BlockedAt m (w ∷ ws) zero = Blocked m w.iters w.phase
  BlockedAt m (w ∷ ws) (suc k) = BlockedAt m ws k

  Works : M → ℕ → CounterThread → M × ℕ × CounterThread × Bool → Type 0
  Works m counter w r =
      (left_in r.2.iters r.2.phase < left_in w.iters w.phase)
      ⊎ ((r ≡ (m, counter, w, false)) × Blocked m w.iters w.phase)

  took-left :
      (m : M) (counter t : ℕ) (w : CounterThread) (o : Option M)
      → mutex.lock m t ≡ o
      → w.phase ≡ outside
      → 0 < w.iters
      → Works m counter w (took mutex m counter w o)
  unfolding took Works
  took-left m counter t w none e out more = inr (refl, rw out (inr (mutex.lock-none m t e)))
  took-left m counter t w (some m') e out more = inl (rw out (omega (arith, more)))

  gave-left :
      (m : M) (counter t : ℕ) (w : CounterThread)
      → w.phase ≡ stored
      → Good mutex m counter t w.iters stored
      → Works m counter w (gave mutex m counter w (mutex.unlock m t))
  unfolding gave Works
  gave-left m counter t w is_stored (own, more) =
      let (m', done, free) = mutex.unlock_done m t own in
      rw (done, is_stored) (inl (omega (arith, more)))

  in_phase-left :
      (m : M) (counter t : ℕ) (w : CounterThread) (phase : Phase)
      → w.phase ≡ phase
      → Good mutex m counter t w.iters phase
      → Works m counter w (in_phase mutex m counter t w phase)
  unfolding in_phase Works
  in_phase-left m counter t w outside e v = elim (Bool-cases (w.iters == 0)) [
    | inl last ↦ rw last (inr (refl, rw e (inl (ground arith))))
    | inr more ↦ rw more (took-left m counter t w (mutex.lock m t) refl e (ground arith))
  ]
  in_phase-left m counter t w locked e (own, more) = inl (rw e (omega (arith, more)))
  in_phase-left m counter t w (loaded v) e (own, more, same) = inl (rw e (omega (arith, more)))
  in_phase-left m counter t w stored e v = gave-left m counter t w e v

  thread_at-left :
      (m : M) (counter t : ℕ) (ws : List CounterThread) (k : ℕ)
      → AllGood mutex m counter t ws
      → let r = thread_at mutex m counter t ws k in
        (left r.2 < left ws) ⊎ ((r ≡ (m, counter, ws, false)) × BlockedAt m ws k)
  unfolding thread_at counter_func Works
  thread_at-left m counter t [] k v = inr (refl, tt)
  thread_at-left m counter t (w ∷ ws) zero (first, rest) =
      elim (in_phase-left m counter t w w.phase refl first) [
        | inl less ↦ inl (omega (arith, less))
        | inr (same, blocked) ↦ inr (ap (λ r. (r.0, r.1, r.2 ∷ ws, r.3)) same, blocked)
      ]
  thread_at-left m counter t (w ∷ ws) (suc k) (first, rest) =
      elim (thread_at-left m counter (suc t) ws k rest) [
        | inl less ↦ inl (omega (arith, less))
        | inr (same, blocked) ↦ inr (ap (λ r. (r.0, r.1, w ∷ r.2, r.3)) same, blocked)
      ]

  turn-left :
      (s : Process M) (k total : ℕ)
      → Inv mutex s total
      → (left (turn mutex s k).threads < left s.threads)
        ⊎ ((turn mutex s k ≡ s) × BlockedAt s.mtx s.threads k)
  unfolding turn
  turn-left s k total v = elim (thread_at-left s.mtx s.counter 0 s.threads k v.good) [
    | inl less ↦ inl (ground (arith, less, v.runs))
    | inr (same, blocked) ↦ inr (stays same, blocked)
  ]
    where
      stays :
          thread_at mutex s.mtx s.counter 0 s.threads k ≡ (s.mtx, s.counter, s.threads, false)
          → turn mutex s k ≡ s
      stays same = ground (arith, v.runs)

  abbrev AllBlocked : M → List CounterThread → Type 0
  AllBlocked m [] = Unit {0}
  AllBlocked m (w ∷ ws) = Blocked m w.iters w.phase × AllBlocked m ws

  all_blocked :
      (m : M) (ws : List CounterThread)
      → ((k : ℕ) → k < length ws → BlockedAt m ws k)
      → AllBlocked m ws
  all_blocked m [] h = tt
  all_blocked m (w ∷ ws) h =
      (h 0 (omega arith), all_blocked m ws (λ k below. h (suc k) (omega (arith, below))))

  -- Who has the mutex can always go on.
  Blocked-outside : (m : M) (n : ℕ) (phase : Phase) → Blocked m n phase → is_inside phase ≡ 0
  Blocked-outside m n outside v = refl
  Blocked-outside m n locked v = absurd v
  Blocked-outside m n (loaded u) v = absurd v
  Blocked-outside m n stored v = absurd v

  none_inside : (m : M) (ws : List CounterThread) → AllBlocked m ws → inside ws ≡ 0
  none_inside m [] v = refl
  none_inside m (w ∷ ws) (first, rest) =
      omega (arith, Blocked-outside m w.iters w.phase first, none_inside m ws rest)

  Blocked-ended :
      (m : M) (n : ℕ) (phase : Phase)
      → mutex.owner m ≡ none
      → Blocked m n phase
      → left_in n phase ≡ 0
  Blocked-ended m n outside free (inl last) = omega (arith, last)
  Blocked-ended m n outside free (inr held) = absurd (held free)
  Blocked-ended m n locked free v = absurd v
  Blocked-ended m n (loaded u) free v = absurd v
  Blocked-ended m n stored free v = absurd v

  none_left :
      (m : M) (ws : List CounterThread) → mutex.owner m ≡ none → AllBlocked m ws → left ws ≡ 0
  none_left m [] free v = refl
  none_left m (w ∷ ws) free (first, rest) =
      omega (arith, Blocked-ended m w.iters w.phase free first, none_left m ws free rest)

  taken-zero : (o : Option ℕ) → taken o ≡ 0 → o ≡ none
  taken-zero none e = refl
  taken-zero (some t) e = absurd (omega (arith, e))

  all-Stuck :
      (s : Process M) (total : ℕ)
      → Inv mutex s total
      → ((k : ℕ) → k < thread_count → BlockedAt s.mtx s.threads k)
      → left s.threads ≡ 0
  all-Stuck s total v h =
      let stuck = all_blocked s.mtx s.threads (λ k below. h k (omega (arith, below, v.all))) in
      let free = taken-zero (mutex.owner s.mtx) (v.one ∙ none_inside s.mtx s.threads stuck) in
      none_left s.mtx s.threads free stuck

  turns_lem : (s : Process M) (ks : List ℕ) → turns mutex s ks ≡ steps (turn mutex) s ks
  unfolding turns
  turns_lem s [] = refl
  turns_lem s (k ∷ ks) = turns_lem (turn mutex s k) ks

  phase_over :
      (m : M) (counter t n : ℕ) (phase : Phase)
      → Good mutex m counter t n phase
      → left_in n phase ≡ 0
      → (todo_in n phase ≡ 0) × (is_inside phase ≡ 0)
  phase_over m counter t n outside v e = (omega (arith, e), refl)
  phase_over m counter t n locked (own, more) e = absurd (omega (arith, e, more))
  phase_over m counter t n (loaded u) (own, more, same) e = absurd (omega (arith, e, more))
  phase_over m counter t n stored (own, more) e = absurd (omega (arith, e, more))

  all_over :
      (m : M) (counter t : ℕ) (ws : List CounterThread)
      → AllGood mutex m counter t ws
      → left ws ≡ 0
      → (todo ws ≡ 0) × (inside ws ≡ 0)
  all_over m counter t [] v e = (refl, refl)
  all_over m counter t (w ∷ ws) (first, rest) e =
      let (none_todo, out) = phase_over m counter t w.iters w.phase first (omega (arith, e)) in
      let (none_todo', out') = all_over m counter (suc t) ws rest (omega (arith, e)) in
      (omega (arith, none_todo, none_todo'), omega (arith, out, out'))

  demo_left : (m : M) → left (demo_normal_mutex m).threads ≡ 1600000
  unfolding demo_normal_mutex
  demo_left m = refl

  -- All four threads end: after 4 * 4 * 100000 rounds, in each of which every one has a turn, in any
  -- order, nothing is left to do, the counter is 4 * 100000 and no thread has the mutex.
  pub all_counted :
      (m : M) (rounds : List (List ℕ))
      → mutex.owner m ≡ none
      → AllRounds thread_count rounds
      → 4 * (thread_count * iters_each) ≤ length rounds
      → let s = turns mutex (demo_normal_mutex m) (concat rounds) in
        (s.counter ≡ thread_count * iters_each) × (todo s.threads ≡ 0) × (mutex.owner s.mtx ≡ none)
  all_counted m rounds free all enough =
      let start = demo-Inv mutex m free in
      let s = turns mutex (demo_normal_mutex m) (concat rounds) in
      let v = turns-Inv mutex (demo_normal_mutex m) (concat rounds) 400000 start in
      let worked =
        rounds_work (turn mutex) (λ r. left r.threads) thread_count (λ r. Inv mutex r 400000)
          (λ r k. BlockedAt r.mtx r.threads k) (λ r k w. turn-Inv mutex r k 400000 w)
          (λ r k w. turn-left r k 400000 w) (λ r w h. all-Stuck r 400000 w h) (demo_normal_mutex m)
          rounds start all in
      let over : left s.threads ≡ 0 = omega (
        arith,
        worked,
        demo_left m,
        enough,
        ap (λ (r : Process M). left r.threads) (turns_lem (demo_normal_mutex m) (concat rounds)),
      ) in
      let (none_todo, none_inside') = all_over s.mtx s.counter 0 s.threads v.good over in
      (
        omega (arith, v.exact, none_todo),
        none_todo,
        taken-zero (mutex.owner s.mtx) (v.one ∙ none_inside'),
      )

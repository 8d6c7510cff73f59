-- ===== src/PthreadPlatform/Trylock/Asserting.antt =====
-- The assertions of demo_trylock, and the end of its threads.
use cpp_code.Prelude.{
  ℕ, ◌+◌, ◌<◌, ◌≡◌, refl, sym, ◌∙◌, Bool, false, Option, none, arith, ◌≤◌, List, [], ◌∷◌, length,
}
use cpp_code.Prelude.Rounds.{AllRounds, concat, steps, rounds_work}
use cpp_code.PthreadPlatform.{Mutex}
use cpp_code.PthreadPlatform.Trylock.{
  MainAt, polls, tries, tells, joins, retries, unlocks, ended, HolderAt, locking, reporting,
  spinning, unlocking, over, Trying, try_turn, demo_trylock,
}
use cpp_code.PthreadPlatform.Trylock.Steps.{
  During, Inv, HolderStuck, MainStuck, Stuck, turn-Goes, left, holder_left, main_left, true-false,
}

module _ {M : Type 0} (mutex : Mutex M) where
  -- The two threads are never both stuck before the end.
  both_stuck :
      (main : MainAt) (holder : HolderAt) (o : Option ℕ) (ready done : Bool)
      → During mutex holder main o ready done
      → HolderStuck mutex holder done
      → MainStuck mutex main ready holder
      → holder_left mutex holder + main_left mutex main ≡ 0
  both_stuck polls spinning o ready done (own, r, nd) h m = absurd (true-false mutex (sym r ∙ m))
  both_stuck joins spinning o ready done (own, r, d) h m = absurd (true-false mutex (sym d ∙ h))
  both_stuck polls locking o ready done v h m = absurd h
  both_stuck polls reporting o ready done v h m = absurd h
  both_stuck tries spinning o ready done v h m = absurd m
  both_stuck tells spinning o ready done v h m = absurd m
  both_stuck joins unlocking o ready done v h m = absurd h
  both_stuck joins over o ready done v h m = absurd (m refl)
  both_stuck retries over o ready done v h m = absurd m
  both_stuck unlocks over o ready done v h m = absurd m
  both_stuck ended over o ready done v h m = refl
  both_stuck _ _ o ready done v h m = absurd v

  all-Stuck : (s : Trying M) → Inv mutex s → ((k : ℕ) → k < 2 → Stuck mutex s k) → left mutex s ≡ 0
  all-Stuck s v h =
      both_stuck s.main s.holder (mutex.owner s.mtx) s.holder_ready s.done v.during
        (h 1 (omega arith)) (h 0 (omega arith))

  demo-Inv : (m : M) → mutex.owner m ≡ none → Inv mutex (demo_trylock m)
  unfolding demo_trylock
  demo-Inv m free = record { during = (free, refl, refl); fine = refl }

  steps-Inv : (s : Trying M) (ks : List ℕ) → Inv mutex s → Inv mutex (steps (try_turn mutex) s ks)
  steps-Inv s [] v = v
  steps-Inv s (k ∷ ks) v = steps-Inv (try_turn mutex s k) ks (turn-Goes mutex s k v).0

  over_free :
      (main : MainAt) (holder : HolderAt) (o : Option ℕ) (ready done : Bool)
      → During mutex holder main o ready done
      → holder_left mutex holder + main_left mutex main ≡ 0
      → (main ≡ ended) × (holder ≡ over) × (o ≡ none)
  over_free ended over o ready done (free, r, d) e = (refl, refl, free)
  over_free polls holder o ready done v e = absurd (omega (arith, e))
  over_free tries holder o ready done v e = absurd (omega (arith, e))
  over_free tells holder o ready done v e = absurd (omega (arith, e))
  over_free joins holder o ready done v e = absurd (omega (arith, e))
  over_free retries holder o ready done v e = absurd (omega (arith, e))
  over_free unlocks holder o ready done v e = absurd (omega (arith, e))
  over_free ended locking o ready done v e = absurd v
  over_free ended reporting o ready done v e = absurd v
  over_free ended spinning o ready done v e = absurd v
  over_free ended unlocking o ready done v e = absurd v

  -- From a free mutex, in whatever order the two threads go on, no assert and no CHECK of
  -- demo_trylock fails: the first trylock finds the mutex taken, and the second one free. And both
  -- threads end, with the mutex free: after 10 rounds, in each of which both have a turn.
  pub trylock_asserts :
      (m : M) (ks : List ℕ) (rounds : List (List ℕ))
      → mutex.owner m ≡ none
      → AllRounds 2 rounds
      → 10 ≤ length rounds
      → let s = steps (try_turn mutex) (demo_trylock m) (concat rounds) in
        ((steps (try_turn mutex) (demo_trylock m) ks).failed ≡ false)
        × (s.main ≡ ended)
        × (s.holder ≡ over)
        × (mutex.owner s.mtx ≡ none)
  unfolding demo_trylock
  trylock_asserts m ks rounds free all enough =
      let start = demo-Inv m free in
      let v = steps-Inv (demo_trylock m) (concat rounds) start in
      let worked =
        rounds_work (try_turn mutex) (left mutex) 2 (Inv mutex) (Stuck mutex)
          (λ s k w. (turn-Goes mutex s k w).0) (λ s k w. (turn-Goes mutex s k w).1) all-Stuck
          (demo_trylock m) rounds start all in
      let s = steps (try_turn mutex) (demo_trylock m) (concat rounds) in
      let ends =
        over_free s.main s.holder (mutex.owner s.mtx) s.holder_ready s.done v.during
          (omega (arith, worked, enough)) in
      ((steps-Inv (demo_trylock m) ks start).fine, ends.0, ends.1, ends.2)

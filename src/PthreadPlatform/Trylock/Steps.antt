-- ===== src/PthreadPlatform/Trylock/Steps.antt =====
-- Where the threads of demo_trylock can be together, and what a step of either makes of it.
use cpp_code.Prelude.{
  ℕ, ◌+◌, ◌<◌, ◌≡◌, refl, sym, ◌∙◌, ◌⊎◌, inl, inr, Bool, true, false, Option, none, some, arith,
  Option-cases, zero, suc, subst, ◌≢◌,
}
use cpp_code.PthreadPlatform.{Mutex}
use cpp_code.PthreadPlatform.Trylock.{
  MainAt, polls, tries, tells, joins, retries, unlocks, ended, HolderAt, locking, reporting,
  spinning, unlocking, over, Trying, held_by, let_go, holder_at, busy, free_again, unlocked, joined,
  main_at, try_turn, main_thread, holder_func,
}

module _ {M : Type 0} (mutex : Mutex M) where
  -- What holds where the threads are.
  abbrev pub During : HolderAt → MainAt → Option ℕ → Bool → Bool → Type 0
  During locking polls o ready done = (o ≡ none) × (ready ≡ false) × (done ≡ false)
  During reporting polls o ready done = (o ≡ some 1) × (ready ≡ false) × (done ≡ false)
  During spinning polls o ready done = (o ≡ some 1) × (ready ≡ true) × (done ≡ false)
  During spinning tries o ready done = (o ≡ some 1) × (ready ≡ true) × (done ≡ false)
  During spinning tells o ready done = (o ≡ some 1) × (ready ≡ true) × (done ≡ false)
  During spinning joins o ready done = (o ≡ some 1) × (ready ≡ true) × (done ≡ true)
  During unlocking joins o ready done = (o ≡ some 1) × (ready ≡ true) × (done ≡ true)
  During over joins o ready done = (o ≡ none) × (ready ≡ true) × (done ≡ true)
  During over retries o ready done = (o ≡ none) × (ready ≡ true) × (done ≡ true)
  During over unlocks o ready done = (o ≡ some 0) × (ready ≡ true) × (done ≡ true)
  During over ended o ready done = (o ≡ none) × (ready ≡ true) × (done ≡ true)
  During _ _ o ready done = ⊥

  pub record Inv (s : Trying M) : Type 0 where
    pub during : During s.holder s.main (mutex.owner s.mtx) s.holder_ready s.done
    pub fine : s.failed ≡ false

  -- The steps that the threads have left.
  abbrev pub holder_left : HolderAt → ℕ
  holder_left locking = 4
  holder_left reporting = 3
  holder_left spinning = 2
  holder_left unlocking = 1
  holder_left over = 0

  abbrev pub main_left : MainAt → ℕ
  main_left polls = 6
  main_left tries = 5
  main_left tells = 4
  main_left joins = 3
  main_left retries = 2
  main_left unlocks = 1
  main_left ended = 0

  abbrev pub left : Trying M → ℕ
  left s = holder_left s.holder + main_left s.main

  -- Where a thread can do nothing.
  abbrev pub HolderStuck : HolderAt → Bool → Type 0
  HolderStuck locking done = ⊥
  HolderStuck reporting done = ⊥
  HolderStuck spinning done = done ≡ false
  HolderStuck unlocking done = ⊥
  HolderStuck over done = Unit {0}

  abbrev pub MainStuck : MainAt → Bool → HolderAt → Type 0
  MainStuck polls ready holder = ready ≡ false
  MainStuck tries ready holder = ⊥
  MainStuck tells ready holder = ⊥
  MainStuck joins ready holder = holder ≢ over
  MainStuck retries ready holder = ⊥
  MainStuck unlocks ready holder = ⊥
  MainStuck ended ready holder = Unit {0}

  -- A step keeps the invariant, and does some work or finds its thread stuck.
  abbrev pub Goes : Type 0 → Trying M → Trying M → Type 0
  Goes Stuck s s' = Inv s' × ((left s' < left s) ⊎ ((s' ≡ s) × Stuck))

  abbrev pub at : M → Bool → Bool → MainAt → HolderAt → Trying M
  at m ready done main holder = record {
    mtx = m;
    holder_ready = ready;
    done = done;
    main = main;
    holder = holder;
    failed = false;
  }

  pub true-false : true ≡ false → ⊥
  true-false e = cc

  none-some : {A : Type 0} {x : A} → none ≡ some x → ⊥
  none-some e = cc

  holder-Goes :
      (m : M) (ready done : Bool) (main : MainAt) (holder : HolderAt)
      → During holder main (mutex.owner m) ready done
      → Goes
          (HolderStuck holder done)
          (at m ready done main holder)
          (holder_at mutex (at m ready done main holder) holder)
  unfolding holder_at held_by let_go
  holder-Goes m ready done polls locking (free, nr, nd) = elim (Option-cases (mutex.lock m 1)) [
    | inl e ↦ absurd (mutex.lock-none m 1 e free)
    | inr (m', e) ↦
        rw e
          (record { during = (mutex.owner-lock m m' 1 e, nr, nd); fine = refl }, inl (omega arith))
  ]
  holder-Goes m ready done polls reporting (own, nr, nd) =
      (record { during = (own, refl, nd); fine = refl }, inl (omega arith))
  holder-Goes m ready done polls spinning (own, r, nd) =
      rw nd (record { during = (own, r, refl); fine = refl }, inr (refl, refl))
  holder-Goes m ready done tries spinning (own, r, nd) =
      rw nd (record { during = (own, r, refl); fine = refl }, inr (refl, refl))
  holder-Goes m ready done tells spinning (own, r, nd) =
      rw nd (record { during = (own, r, refl); fine = refl }, inr (refl, refl))
  holder-Goes m ready done joins spinning (own, r, d) =
      rw d (record { during = (own, r, refl); fine = refl }, inl (omega arith))
  holder-Goes m ready done joins unlocking (own, r, d) =
      let (m', given, free) = mutex.unlock_done m 1 own in
      rw given (record { during = (free, r, d); fine = refl }, inl (omega arith))
  holder-Goes m ready done joins over v = (record { during = v; fine = refl }, inr (refl, tt))
  holder-Goes m ready done retries over v = (record { during = v; fine = refl }, inr (refl, tt))
  holder-Goes m ready done unlocks over v = (record { during = v; fine = refl }, inr (refl, tt))
  holder-Goes m ready done ended over v = (record { during = v; fine = refl }, inr (refl, tt))
  holder-Goes m ready done _ _ v = absurd v

  spinning-over : spinning ≡ over → ⊥
  spinning-over e = cc

  unlocking-over : unlocking ≡ over → ⊥
  unlocking-over e = cc

  main-Goes :
      (m : M) (ready done : Bool) (main : MainAt) (holder : HolderAt)
      → During holder main (mutex.owner m) ready done
      → Goes
          (MainStuck main ready holder)
          (at m ready done main holder)
          (main_at mutex (at m ready done main holder) main)
  unfolding main_at busy free_again unlocked joined
  main-Goes m ready done polls locking (free, nr, nd) =
      rw nr (record { during = (free, refl, nd); fine = refl }, inr (refl, refl))
  main-Goes m ready done polls reporting (own, nr, nd) =
      rw nr (record { during = (own, refl, nd); fine = refl }, inr (refl, refl))
  main-Goes m ready done polls spinning (own, r, nd) =
      rw r (record { during = (own, refl, nd); fine = refl }, inl (omega arith))
  main-Goes m ready done tries spinning (own, r, nd) = elim (Option-cases (mutex.lock m 0)) [
    | inl e ↦ rw e (record { during = (own, r, nd); fine = refl }, inl (omega arith))
    | inr (m', e) ↦ absurd (none-some (sym (mutex.lock_free m m' 0 e) ∙ own))
  ]
  main-Goes m ready done tells spinning (own, r, nd) =
      (record { during = (own, r, refl); fine = refl }, inl (omega arith))
  main-Goes m ready done joins spinning v =
      (record { during = v; fine = refl }, inr (refl, λ e. spinning-over e))
  main-Goes m ready done joins unlocking v =
      (record { during = v; fine = refl }, inr (refl, λ e. unlocking-over e))
  main-Goes m ready done joins over v = (record { during = v; fine = refl }, inl (omega arith))
  main-Goes m ready done retries over (free, r, d) = elim (Option-cases (mutex.lock m 0)) [
    | inl e ↦ absurd (mutex.lock-none m 0 e free)
    | inr (m', e) ↦
        rw e (record { during = (mutex.owner-lock m m' 0 e, r, d); fine = refl }, inl (omega arith))
  ]
  main-Goes m ready done unlocks over (own, r, d) =
      let (m', given, free) = mutex.unlock_done m 0 own in
      rw given (record { during = (free, r, d); fine = refl }, inl (omega arith))
  main-Goes m ready done ended over v = (record { during = v; fine = refl }, inr (refl, tt))
  main-Goes m ready done _ _ v = absurd v

  abbrev pub Stuck : Trying M → ℕ → Type 0
  Stuck s zero = MainStuck s.main s.holder_ready s.holder
  Stuck s (suc k) = HolderStuck s.holder s.done

  at_lem : (s : Trying M) → s.failed ≡ false → s ≡ at s.mtx s.holder_ready s.done s.main s.holder
  at_lem s e = ground (arith, e)

  pub turn-Goes : (s : Trying M) (k : ℕ) → Inv s → Goes (Stuck s k) s (try_turn mutex s k)
  unfolding try_turn main_thread holder_func
  turn-Goes s zero v =
      subst (λ r. Goes (MainStuck r.main r.holder_ready r.holder) r (try_turn mutex r 0))
        (sym (at_lem s v.fine)) (main-Goes s.mtx s.holder_ready s.done s.main s.holder v.during)
  turn-Goes s (suc k) v =
      subst (λ r. Goes (HolderStuck r.holder r.done) r (try_turn mutex r (suc k)))
        (sym (at_lem s v.fine)) (holder-Goes s.mtx s.holder_ready s.done s.main s.holder v.during)

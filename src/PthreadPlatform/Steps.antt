-- ===== src/PthreadPlatform/Steps.antt =====
-- What one step of a thread leaves.
use cpp_code.Prelude.{
  ℕ, suc, ◌+◌, ◌-◌, ◌<◌, ◌≡◌, refl, sym, ap, ◌∙◌, ◌≢◌, inl, inr, Bool, false, Option, none, some,
  List, [], ◌∷◌, arith, ◌==◌, Bool-cases, ◌≤◌,
}
use cpp_code.PthreadPlatform.{
  Mutex, Phase, outside, locked, loaded, stored, CounterThread, took, gave, in_phase, counter_func,
}

-- The increments that a thread has still to do, and whether it is between its lock and its unlock.
abbrev pub todo_in : ℕ → Phase → ℕ
todo_in n outside = n
todo_in n locked = n
todo_in n (loaded v) = n
todo_in n stored = n - 1

abbrev pub todo : List CounterThread → ℕ
todo [] = 0
todo (w ∷ ws) = todo_in w.iters w.phase + todo ws

abbrev pub is_inside : Phase → ℕ
is_inside outside = 0
is_inside locked = 1
is_inside (loaded v) = 1
is_inside stored = 1

abbrev pub inside : List CounterThread → ℕ
inside [] = 0
inside (w ∷ ws) = is_inside w.phase + inside ws

none-some : {x : ℕ} → none ≡ some x → ⊥
none-some h = cc

some_injective : (x y : ℕ) → some x ≡ some y → x ≡ y
some_injective x y h = cc

abbrev pub taken : Option ℕ → ℕ
taken none = 0
taken (some t) = 1

pub taken-le : (o : Option ℕ) → taken o ≤ 1
taken-le none = omega arith
taken-le (some t) = omega arith

module _ {M : Type 0} (mutex : Mutex M) where
  -- A thread inside has the mutex, a round to do, and, if it has loaded the counter, its value.
  abbrev pub Good : M → ℕ → ℕ → ℕ → Phase → Type 0
  Good m counter t n outside = Unit {0}
  Good m counter t n locked = (mutex.owner m ≡ some t) × (0 < n)
  Good m counter t n (loaded v) = (mutex.owner m ≡ some t) × (0 < n) × (v ≡ counter)
  Good m counter t n stored = (mutex.owner m ≡ some t) × (0 < n)

  abbrev pub AllGood : M → ℕ → ℕ → List CounterThread → Type 0
  AllGood m counter t [] = Unit {0}
  AllGood m counter t (w ∷ ws) = Good m counter t w.iters w.phase × AllGood m counter (suc t) ws

  -- What a step of the thread t leaves.
  pub record Moved (t : ℕ) (m m' : M) (counter counter' : ℕ) (w w' : CounterThread) (exits : Bool)
      : Type 0 where
    pub good : Good m' counter' t w'.iters w'.phase
    pub kept :
        (t' n : ℕ) (phase : Phase)
        → t' ≢ t
        → Good m counter t' n phase
        → Good m' counter' t' n phase
    pub exact : counter' + todo_in w'.iters w'.phase ≡ counter + todo_in w.iters w.phase
    pub one :
        taken (mutex.owner m') + is_inside w.phase ≡ taken (mutex.owner m) + is_inside w'.phase
    pub runs : exits ≡ false

  free_kept :
      (m m' : M) (counter counter' t' n : ℕ) (phase : Phase)
      → mutex.owner m ≡ none
      → Good m counter t' n phase
      → Good m' counter' t' n phase
  free_kept m m' counter counter' t' n outside e v = tt
  free_kept m m' counter counter' t' n locked e (own, more) = absurd (none-some (sym e ∙ own))
  free_kept m m' counter counter' t' n (loaded v) e (own, more, same) =
      absurd (none-some (sym e ∙ own))
  free_kept m m' counter counter' t' n stored e (own, more) = absurd (none-some (sym e ∙ own))

  owned_kept :
      (m m' : M) (counter counter' t t' n : ℕ) (phase : Phase)
      → mutex.owner m ≡ some t
      → t' ≢ t
      → Good m counter t' n phase
      → Good m' counter' t' n phase
  owned_kept m m' counter counter' t t' n outside e other v = tt
  owned_kept m m' counter counter' t t' n locked e other (own, more) =
      absurd (other (some_injective t' t (sym own ∙ e)))
  owned_kept m m' counter counter' t t' n (loaded v) e other (own, more, same) =
      absurd (other (some_injective t' t (sym own ∙ e)))
  owned_kept m m' counter counter' t t' n stored e other (own, more) =
      absurd (other (some_injective t' t (sym own ∙ e)))

  stays-Moved :
      (t : ℕ) (m : M) (counter : ℕ) (w : CounterThread)
      → Good m counter t w.iters w.phase
      → Moved t m m counter counter w w false
  stays-Moved t m counter w v = record {
    good = v;
    kept = λ t' n phase other v'. v';
    exact = refl;
    one = refl;
    runs = refl;
  }

  took-Moved :
      (t : ℕ) (m : M) (counter : ℕ) (w : CounterThread) (o : Option M)
      → mutex.lock m t ≡ o
      → w.phase ≡ outside
      → 0 < w.iters
      → let (m', counter', w', exits) = took mutex m counter w o in
        Moved t m m' counter counter' w w' exits
  unfolding took
  took-Moved t m counter w none e out more = stays-Moved t m counter w (rw out tt)
  took-Moved t m counter w (some m') e out more =
      let free = mutex.lock_free m m' t e in
      let own = mutex.owner-lock m m' t e in
      record {
        good = (own, more);
        kept = λ t' n phase other v'. free_kept m m' counter counter t' n phase free v';
        exact = ap (λ phase. counter + todo_in w.iters phase) (sym out);
        one = rw (own, free, out) refl;
        runs = refl;
      }

  gave-Moved :
      (t : ℕ) (m : M) (counter : ℕ) (w : CounterThread)
      → w.phase ≡ stored
      → Good m counter t w.iters stored
      → let (m', counter', w', exits) = gave mutex m counter w (mutex.unlock m t) in
        Moved t m m' counter counter' w w' exits
  unfolding gave
  gave-Moved t m counter w is_stored (own, more) =
      let (m', done, free) = mutex.unlock_done m t own in
      rw done (record {
        good = tt;
        kept = λ t' n phase other v'. owned_kept m m' counter counter t t' n phase own other v';
        exact = ap (λ phase. counter + todo_in w.iters phase) (sym is_stored);
        one = rw (own, free, is_stored) refl;
        runs = refl;
      })

  in_phase-Moved :
      (t : ℕ) (m : M) (counter : ℕ) (w : CounterThread) (phase : Phase)
      → w.phase ≡ phase
      → Good m counter t w.iters phase
      → let (m', counter', w', exits) = in_phase mutex m counter t w phase in
        Moved t m m' counter counter' w w' exits
  unfolding in_phase
  in_phase-Moved t m counter w outside e v = elim (Bool-cases (w.iters == 0)) [
    | inl last ↦ rw last (stays-Moved t m counter w (rw e tt))
    | inr more ↦ rw more (took-Moved t m counter w (mutex.lock m t) refl e (ground arith))
  ]
  in_phase-Moved t m counter w locked e (own, more) = record {
    good = (own, more, refl);
    kept = λ t' n phase other v'. v';
    exact = ap (λ phase. counter + todo_in w.iters phase) (sym e);
    one = rw e refl;
    runs = refl;
  }
  in_phase-Moved t m counter w (loaded v) e (own, more, same) = record {
    good = (own, more);
    kept = λ t' n phase other v'. owned_kept m m counter (suc v) t t' n phase own other v';
    exact = rw e (omega (arith, same, more));
    one = rw e refl;
    runs = refl;
  }
  in_phase-Moved t m counter w stored e v = gave-Moved t m counter w e v

  pub counter_func-Moved :
      (t : ℕ) (m : M) (counter : ℕ) (w : CounterThread)
      → Good m counter t w.iters w.phase
      → let (m', counter', w', exits) = counter_func mutex m counter t w in
        Moved t m m' counter counter' w w' exits
  unfolding counter_func
  counter_func-Moved t m counter w v = in_phase-Moved t m counter w w.phase refl v

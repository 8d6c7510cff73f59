-- ===== src/PthreadPlatform/Exact.antt =====
-- What the counter counts while the threads run.
use cpp_code.Prelude.{
  ℕ, zero, suc, ◌+◌, ◌<◌, ◌≡◌, refl, ap, ◌∙◌, ◌≢◌, Bool, false, none, List, [], ◌∷◌, arith, length,
  ◌*◌, ◌≤◌, subst,
}
use cpp_code.PthreadPlatform.{
  Mutex, Phase, CounterThread, Process, thread_count, created, demo_normal_mutex, thread_at, turn,
  turns, iters_each,
}
use cpp_code.PthreadPlatform.Steps.{
  todo, inside, taken, taken-le, Good, AllGood, Moved, counter_func-Moved,
}

module _ {M : Type 0} (mutex : Mutex M) where
  record AllMoved (t : ℕ) (m m' : M) (counter counter' : ℕ) (ws ws' : List CounterThread)
      (exits : Bool) : Type 0 where
    good : AllGood mutex m' counter' t ws'
    kept :
        (t' n : ℕ) (phase : Phase)
        → t' < t
        → Good mutex m counter t' n phase
        → Good mutex m' counter' t' n phase
    exact : counter' + todo ws' ≡ counter + todo ws
    one : taken (mutex.owner m') + inside ws ≡ taken (mutex.owner m) + inside ws'
    runs : exits ≡ false
    same : length ws' ≡ length ws

  AllGood-kept :
      (t t' : ℕ) (m m' : M) (counter counter' : ℕ) (ws : List CounterThread)
      → t < t'
      → ((u n : ℕ) (phase : Phase)
          → u ≢ t
          → Good mutex m counter u n phase
          → Good mutex m' counter' u n phase)
      → AllGood mutex m counter t' ws
      → AllGood mutex m' counter' t' ws
  AllGood-kept t t' m m' counter counter' [] h kept v = tt
  AllGood-kept t t' m m' counter counter' (w ∷ ws) h kept (first, rest) = (
    kept t' w.iters w.phase (λ e. omega (arith, h, e)) first,
    AllGood-kept t (suc t') m m' counter counter' ws (omega (arith, h)) kept rest,
  )

  first-AllMoved :
      (t : ℕ) (m m' : M) (counter counter' : ℕ) (w w' : CounterThread) (ws : List CounterThread)
      (exits : Bool)
      → AllGood mutex m counter (suc t) ws
      → Moved mutex t m m' counter counter' w w' exits
      → AllMoved t m m' counter counter' (w ∷ ws) (w' ∷ ws) exits
  first-AllMoved t m m' counter counter' w w' ws exits rest v = record {
    good = (v.good, AllGood-kept t (suc t) m m' counter counter' ws (omega arith) v.kept rest);
    kept = λ t' n phase below v'. v.kept t' n phase (λ e. omega (arith, below, e)) v';
    exact = omega (arith, v.exact);
    one = omega (arith, v.one);
    runs = v.runs;
    same = refl;
  }

  later-AllMoved :
      (t : ℕ) (m m' : M) (counter counter' : ℕ) (w : CounterThread) (ws ws' : List CounterThread)
      (exits : Bool)
      → Good mutex m counter t w.iters w.phase
      → AllMoved (suc t) m m' counter counter' ws ws' exits
      → AllMoved t m m' counter counter' (w ∷ ws) (w ∷ ws') exits
  later-AllMoved t m m' counter counter' w ws ws' exits first v = record {
    good = (v.kept t w.iters w.phase (omega arith) first, v.good);
    kept = λ t' n phase below v'. v.kept t' n phase (omega (arith, below)) v';
    exact = omega (arith, v.exact);
    one = omega (arith, v.one);
    runs = v.runs;
    same = omega (arith, v.same);
  }

  thread_at-AllMoved :
      (t : ℕ) (m : M) (counter : ℕ) (ws : List CounterThread) (k : ℕ)
      → AllGood mutex m counter t ws
      → let (m', counter', ws', exits) = thread_at mutex m counter t ws k in
        AllMoved t m m' counter counter' ws ws' exits
  unfolding thread_at
  thread_at-AllMoved t m counter [] k v = record {
    good = tt;
    kept = λ t' n phase below v'. v';
    exact = refl;
    one = refl;
    runs = refl;
    same = refl;
  }
  thread_at-AllMoved t m counter (w ∷ ws) zero (first, rest) =
      first-AllMoved t m _ counter _ w _ ws _ rest (counter_func-Moved mutex t m counter w first)
  thread_at-AllMoved t m counter (w ∷ ws) (suc k) (first, rest) =
      later-AllMoved t m _ counter _ w ws _ _ first (thread_at-AllMoved (suc t) m counter ws k rest)

  pub record Inv (s : Process M) (total : ℕ) : Type 0 where
    pub good : AllGood mutex s.mtx s.counter 0 s.threads
    pub exact : s.counter + todo s.threads ≡ total
    pub one : taken (mutex.owner s.mtx) ≡ inside s.threads
    pub runs : s.exited ≡ false
    pub all : length s.threads ≡ thread_count

  pub turn-Inv : (s : Process M) (k total : ℕ) → Inv s total → Inv (turn mutex s k) total
  unfolding turn
  turn-Inv s k total v =
      let moved = thread_at-AllMoved 0 s.mtx s.counter s.threads k v.good in
      rw v.runs (record {
        good = moved.good;
        exact = moved.exact ∙ v.exact;
        one = omega (arith, moved.one, v.one);
        runs = moved.runs;
        all = moved.same ∙ v.all;
      })

  pub turns-Inv :
      (s : Process M) (ks : List ℕ) (total : ℕ) → Inv s total → Inv (turns mutex s ks) total
  unfolding turns
  turns-Inv s [] total v = v
  turns-Inv s (k ∷ ks) total v = turns-Inv (turn mutex s k) ks total (turn-Inv s k total v)

  pub demo-Inv : (m : M) → mutex.owner m ≡ none → Inv (demo_normal_mutex m) 400000
  unfolding demo_normal_mutex created
  demo-Inv m free = record {
    good = (tt, (tt, (tt, (tt, tt))));
    exact = refl;
    one = ap taken free;
    runs = refl;
    all = refl;
  }

  -- In whatever order the threads go on, the counter and the increments that are still to do are
  -- together 4 * 100000: none is lost, though each is a load and a store. At most one thread is
  -- between its lock and its unlock, and no CHECK of lock or unlock exits.
  pub no_lost_update :
      (m : M) (ks : List ℕ)
      → mutex.owner m ≡ none
      → let s = turns mutex (demo_normal_mutex m) ks in
        (s.counter + todo s.threads ≡ thread_count * iters_each)
        × (inside s.threads ≤ 1)
        × (s.exited ≡ false)
  no_lost_update m ks free =
      let v = turns-Inv (demo_normal_mutex m) ks 400000 (demo-Inv m free) in
      (
        v.exact,
        subst (λ k. k ≤ 1) v.one
            (taken-le (mutex.owner (turns mutex (demo_normal_mutex m) ks).mtx)),
        v.runs,
      )

-- ===== src/WaitSet/Counting.antt =====
-- Each event is delivered at most once.
use cpp_code.Prelude.{
  ℕ, ◌+◌, ◌≤◌, ◌≡◌, refl, sym, ap, ◌∙◌, List, [], ◌∷◌, ◌++◌, arith, ◌==◌, if◌then◌else◌, append-nil,
  append_assoc,
}
use cpp_code.WaitSet.{
  Semaphore, Place, outside, entering, collecting, WaitSet, new, attach, fire_store, fire_post,
  wait_at, time_out_at, collect_at, Action, act, run,
}

pub count : ℕ → List ℕ → ℕ
count x [] = 0
count x (y ∷ ys) = (if y == x then 1 else 0) + count x ys

unfoldable pub concat : List (List ℕ) → List ℕ
concat [] = []
concat (xs ∷ xss) = xs ++ concat xss

count-append : (x : ℕ) (xs ys : List ℕ) → count x (xs ++ ys) ≡ count x xs + count x ys
unfolding count
count-append x [] ys = omega arith
count-append x (z ∷ xs) ys = omega (arith, count-append x xs ys)

pub concat-append : (xss : List (List ℕ)) (ys : List ℕ) → concat (xss ++ ys ∷ []) ≡ concat xss ++ ys
unfolding concat
concat-append [] ys = append-nil ys
concat-append (xs ∷ xss) ys =
    ap (λ tail. xs ++ tail) (concat-append xss ys) ∙ sym (append_assoc xs (concat xss) ys)

abbrev pub found_at : Place → List ℕ
found_at (collecting left found) = found
found_at place = []

module _ {S : Type 0} (semaphore : Semaphore S) where
  record Inv (w : WaitSet S) : Type 0 where
    all : w.delivered ≡ concat w.returned ++ found_at w.place
    once : (x : ℕ) → count x w.delivered + (if w.triggered x then 1 else 0) ≤ count x w.fired

  collect_at-Inv :
      (place : Place) (w : WaitSet S) → w.place ≡ place → Inv w → Inv (collect_at place w)
  unfolding collect_at count concat
  collect_at-Inv outside w e v = v
  collect_at-Inv entering w e v = record { all = ground (arith, v.all); once = v.once }
  collect_at-Inv (collecting [] found) w e v = record {
    all =
        ground
          (arith, v.all, concat-append w.returned found, append-nil (concat w.returned ++ found));
    once = v.once;
  }
  collect_at-Inv (collecting (y ∷ left) found) w e v = record {
    all = ground (arith, v.all, append_assoc (concat w.returned) found (y ∷ []));
    once = λ x. ground (arith, v.once x, count-append x w.delivered (y ∷ []));
  }

  act-all :
      (w : WaitSet S) (a : Action)
      → Inv w
      → (act semaphore w a).delivered
        ≡ concat (act semaphore w a).returned ++ found_at (act semaphore w a).place
  unfolding act attach fire_store fire_post wait_at time_out_at collect_at
  act-all w (Action.attaches x) v = ground (arith, v.all)
  act-all w (Action.stores x) v = ground (arith, v.all)
  act-all w Action.posts v = ground (arith, v.all)
  act-all w Action.waits v = ground (arith, v.all)
  act-all w Action.times_out v =
      ground (arith, v.all, concat-append w.returned [], append-nil (concat w.returned))
  act-all w Action.collects v = (collect_at-Inv w.place w refl v).all

  act-once :
      (w : WaitSet S) (a : Action) (x : ℕ)
      → Inv w
      → count x (act semaphore w a).delivered + (if (act semaphore w a).triggered x then 1 else 0)
        ≤ count x (act semaphore w a).fired
  unfolding act attach fire_store fire_post wait_at time_out_at collect_at count
  act-once w (Action.attaches y) x v = ground (arith, v.once x)
  act-once w (Action.stores y) x v = ground (arith, v.once x, count-append x w.fired (y ∷ []))
  act-once w Action.posts x v = ground (arith, v.once x)
  act-once w Action.waits x v = ground (arith, v.once x)
  act-once w Action.times_out x v = ground (arith, v.once x)
  act-once w Action.collects x v = (collect_at-Inv w.place w refl v).once x

  run-Inv : (w : WaitSet S) (actions : List Action) → Inv w → Inv (run semaphore w actions)
  unfolding run
  run-Inv w [] v = v
  run-Inv w (a ∷ actions) v =
      run-Inv (act semaphore w a) actions
        (record { all = act-all w a v; once = λ x. act-once w a x v })

  -- After any steps from a new set, and for each source: the times that the calls of wait and
  -- timedWait have returned it, those that the call under way has found it, and one more if it is
  -- triggered are together at most the times it was fired.
  pub delivered_once :
      (sem : S) (actions : List Action) (x : ℕ)
      → let w = run semaphore (new sem) actions in
        count x (concat w.returned) + count x (found_at w.place) + (if w.triggered x then 1 else 0)
        ≤ count x w.fired
  unfolding count concat
  delivered_once sem actions x =
      let w = run semaphore (new sem) actions in
      let v = run-Inv (new sem) actions (record { all = refl; once = λ y. omega arith }) in
      omega
        (arith, v.once x, ap (count x) v.all, count-append x (concat w.returned) (found_at w.place))

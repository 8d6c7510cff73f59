-- ===== src/UserTrigger/Waiting.antt =====
-- The end of the waiting loops.
use cpp_code.Prelude.{
  ℕ, ◌+◌, ◌≤◌, ◌≡◌, refl, ap, subst, inl, inr, Bool, true, false, Option, none, some, List, [], ◌∷◌,
  arith, Bool-cases, length, ◌<◌, ◌⊎◌, sym, ◌∙◌,
}
use cpp_code.UserTrigger.{
  WaitSet, Demo, fired, notified, main_turn, turns, single_goes_on, multi_goes_on, single_start,
  demo_waitset_single, worker, turn, demo_waitset_multi, multi_start,
}

module _ {S : Type 0} (waitset : WaitSet S) where
  -- No more notifications than triggers, whatever the condition is, if it asks for three.
  record Inv (s : Demo S) : Type 0 where
    bounded : s.received + waitset.count s.set + length s.script ≤ 3
    ended : s.over ≡ true → 3 ≤ s.received

  fired-Inv :
      (s : Demo S) (script : List ℕ) → s.script ≡ script → Inv s → Inv (fired waitset s script)
  unfolding fired
  fired-Inv s [] e v = record { bounded = v.bounded; ended = v.ended }
  fired-Inv s (id ∷ script) e v = record {
    bounded = ground (arith, v.bounded, waitset.count-trigger s.set id, ap length e);
    ended = v.ended;
  }

  notified-Inv :
      (s : Demo S) (o : Option (List ℕ × S))
      → waitset.wait s.set ≡ o
      → s.over ≡ false
      → Inv s
      → Inv (notified waitset s o)
  unfolding notified
  notified-Inv s none e off v = v
  notified-Inv s (some (ids, set)) e off v = record {
    bounded = omega (
      arith,
      v.bounded,
      waitset.wait_ids s.set set ids e,
      (waitset.wait_clears s.set set ids 0 e).1,
    );
    ended = λ on. cc;
  }

  -- Neither loop ends before it has three.
  AsksThree : (Demo S → Bool) → Type 0
  AsksThree goes_on = (s : Demo S) → goes_on s ≡ false → 3 ≤ s.received

  main_turn-Inv :
      (goes_on : Demo S → Bool) (s : Demo S)
      → AsksThree goes_on
      → Inv s
      → Inv (main_turn waitset goes_on s)
  unfolding main_turn AsksThree
  main_turn-Inv goes_on s asks v = elim (Bool-cases s.over) [
    | inl on ↦ subst Inv (over_stays on) v
    | inr off ↦ elim (Bool-cases s.waiting) [
      | inl waits ↦
          subst Inv (waiting_returns off waits) (notified-Inv s (waitset.wait s.set) refl off v)
      | inr tests ↦ ground (arith, asks s)
    ]
  ]
    where
      over_stays : s.over ≡ true → s ≡ main_turn waitset goes_on s
      over_stays on = ground arith

      waiting_returns :
          s.over ≡ false
          → s.waiting ≡ true
          → notified waitset s (waitset.wait s.set) ≡ main_turn waitset goes_on s
      waiting_returns off waits = ground arith

  turns-Inv :
      (goes_on : Demo S → Bool) (s : Demo S) (choices : List Bool)
      → AsksThree goes_on
      → Inv s
      → Inv (turns waitset goes_on s choices)
  unfolding turns turn worker
  turns-Inv goes_on s [] asks v = v
  turns-Inv goes_on s (true ∷ choices) asks v =
      turns-Inv goes_on (main_turn waitset goes_on s) choices asks (main_turn-Inv goes_on s asks v)
  turns-Inv goes_on s (false ∷ choices) asks v =
      turns-Inv goes_on (worker waitset s) choices asks (fired-Inv s s.script refl v)

  single-AsksThree : AsksThree single_goes_on
  unfolding AsksThree single_goes_on
  single-AsksThree s e = ground arith

  multi-AsksThree : AsksThree multi_goes_on
  unfolding AsksThree multi_goes_on
  multi-AsksThree s e = ground arith

  -- In demo_waitset_single the loop has seen done.
  DoneSeen : Demo S → Type 0
  DoneSeen s = s.over ≡ true → s.done ≡ true

  fired_done : (s : Demo S) (script : List ℕ) → DoneSeen s → DoneSeen (fired waitset s script)
  unfolding DoneSeen fired
  fired_done s [] v = λ on. refl
  fired_done s (id ∷ script) v = v

  main_done : (s : Demo S) → DoneSeen s → DoneSeen (main_turn waitset single_goes_on s)
  unfolding DoneSeen main_turn single_goes_on notified
  main_done s v = ground arith

  turns_done :
      (s : Demo S) (choices : List Bool)
      → DoneSeen s
      → DoneSeen (turns waitset single_goes_on s choices)
  unfolding turns turn worker
  turns_done s [] v = v
  turns_done s (true ∷ choices) v =
      turns_done (main_turn waitset single_goes_on s) choices (main_done s v)
  turns_done s (false ∷ choices) v = turns_done (worker waitset s) choices (fired_done s s.script v)

  start-Inv :
      (set : S) (script : List ℕ)
      → waitset.count set ≡ 0
      → length script ≡ 3
      → Inv (record (single_start set) { script = script })
  start-Inv set script none_pending e = record {
    bounded = omega (arith, none_pending, e);
    ended = λ on. cc;
  }

  -- Where the loop of demo_waitset_single ends, in whatever order the threads take their turns, it
  -- has received exactly the three notifications and the worker is done; where that of
  -- demo_waitset_multi ends, its total is exactly three.
  pub received_all :
      (set : S) (choices : List Bool)
      → waitset.count set ≡ 0
      → let s = demo_waitset_single waitset set choices in
        let m = demo_waitset_multi waitset set choices in
        (s.over ≡ true → (s.received ≡ 3) × (s.done ≡ true)) × (m.over ≡ true → m.received ≡ 3)
  unfolding demo_waitset_single demo_waitset_multi DoneSeen
  received_all set choices none_pending =
      let v =
        turns-Inv single_goes_on (single_start set) choices single-AsksThree
          (start-Inv set _ none_pending refl) in
      let w =
        turns-Inv multi_goes_on (multi_start set) choices multi-AsksThree
          (start-Inv set _ none_pending refl) in
      let seen = turns_done (single_start set) choices (λ on. cc) in
      (
        λ on. (omega (arith, v.bounded, v.ended on), seen on),
        λ on. omega (arith, w.bounded, w.ended on),
      )

  -- Too few are left, or the main thread waits for one more than the worker fires.
  record IsStuck (s : Demo S) : Type 0 where
    goes : s.over ≡ false
    missing :
        (s.received + waitset.count s.set + length s.script < 3)
        ⊎ ((s.script ≡ []) × (s.waiting ≡ true) × (waitset.count s.set ≡ 0))

  cons-nil : {x : ℕ} {xs : List ℕ} → x ∷ xs ≡ [] → ⊥
  cons-nil e = cc

  fired-IsStuck :
      (s : Demo S) (script : List ℕ)
      → s.script ≡ script
      → IsStuck s
      → IsStuck (fired waitset s script)
  unfolding fired
  fired-IsStuck s [] e v = record { goes = v.goes; missing = v.missing }
  fired-IsStuck s (id ∷ script) e v = record {
    goes = v.goes;
    missing = elim v.missing [
      | inl few ↦ inl (ground (arith, few, waitset.count-trigger s.set id, ap length e))
      | inr (none_left, waits, none_pending) ↦ absurd (cons-nil (sym e ∙ none_left))
    ];
  }

  notified-IsStuck :
      (s : Demo S) (o : Option (List ℕ × S))
      → waitset.wait s.set ≡ o
      → IsStuck s
      → IsStuck (notified waitset s o)
  unfolding notified
  notified-IsStuck s none e v = v
  notified-IsStuck s (some (ids, set)) e v = record {
    goes = v.goes;
    missing = elim v.missing [
      | inl few ↦ inl (
          omega (
            arith,
            few,
            waitset.wait_ids s.set set ids e,
            (waitset.wait_clears s.set set ids 0 e).1,
          ))
      | inr (none_left, waits, none_pending) ↦
          absurd (omega (arith, none_pending, waitset.wait_waits s.set set ids e))
    ];
  }

  main_turn-IsStuck :
      (goes_on : Demo S → Bool) (s : Demo S)
      → AsksThree goes_on
      → IsStuck s
      → IsStuck (main_turn waitset goes_on s)
  unfolding main_turn AsksThree
  main_turn-IsStuck goes_on s asks v = elim (Bool-cases s.waiting) [
    | inl waits ↦
        subst IsStuck (waiting_returns waits) (notified-IsStuck s (waitset.wait s.set) refl v)
    | inr tests ↦ record {
      goes = ground (arith, v.goes, asks s, v.missing);
      missing = ground (arith, v.missing, v.goes, asks s);
    }
  ]
    where
      waiting_returns :
          s.waiting ≡ true → notified waitset s (waitset.wait s.set) ≡ main_turn waitset goes_on s
      waiting_returns waits = ground (arith, v.goes)

  turns-IsStuck :
      (goes_on : Demo S → Bool) (s : Demo S) (choices : List Bool)
      → AsksThree goes_on
      → IsStuck s
      → IsStuck (turns waitset goes_on s choices)
  unfolding turns turn worker
  turns-IsStuck goes_on s [] asks v = v
  turns-IsStuck goes_on s (true ∷ choices) asks v =
      turns-IsStuck goes_on (main_turn waitset goes_on s) choices asks
        (main_turn-IsStuck goes_on s asks v)
  turns-IsStuck goes_on s (false ∷ choices) asks v =
      turns-IsStuck goes_on (worker waitset s) choices asks (fired-IsStuck s s.script refl v)

  single-Inv :
      (set : S) (choices : List Bool)
      → waitset.count set ≡ 0
      → Inv (demo_waitset_single waitset set choices)
  unfolding demo_waitset_single
  single-Inv set choices none_pending =
      turns-Inv single_goes_on (single_start set) choices single-AsksThree
        (start-Inv set _ none_pending refl)

  multi-Inv :
      (set : S) (choices : List Bool)
      → waitset.count set ≡ 0
      → Inv (demo_waitset_multi waitset set choices)
  unfolding demo_waitset_multi
  multi-Inv set choices none_pending =
      turns-Inv multi_goes_on (multi_start set) choices multi-AsksThree
        (start-Inv set _ none_pending refl)

  single_seen : (set : S) (choices : List Bool) → DoneSeen (demo_waitset_single waitset set choices)
  unfolding demo_waitset_single DoneSeen
  single_seen set choices = turns_done (single_start set) choices (λ on. cc)

  not_over : (s : Demo S) → DoneSeen s → s.done ≡ false → s.over ≡ false
  unfolding DoneSeen
  not_over s seen working = ground (arith, seen)

  -- The test that is too early by one step sends the main thread into wait.
  late_test :
      (s : Demo S)
      → s.over ≡ false
      → s.done ≡ false
      → s.waiting ≡ false
      → s.script ≡ []
      → waitset.count s.set ≡ 0
      → IsStuck (main_turn waitset single_goes_on s)
  unfolding main_turn single_goes_on
  late_test s on working tests fired none_pending = record {
    goes = ground arith;
    missing = inr (ground arith, ground arith, ground arith);
  }

  -- Let demo_waitset_single run in any way to a state in which the worker has fired all its triggers
  -- but has not set done, all three are received, and the main thread is to test its condition. If
  -- it tests before the worker sets done, then its loop does not end in any further turns.
  pub late_done_hangs :
      (set : S) (before choices : List Bool)
      → waitset.count set ≡ 0
      → let s = demo_waitset_single waitset set before in
        s.script ≡ []
        → s.done ≡ false
        → s.received ≡ 3
        → s.waiting ≡ false
        → (turns waitset single_goes_on s (true ∷ choices)).over ≡ false
  unfolding turns turn
  late_done_hangs set before choices none_pending fired working all tests =
      let s = demo_waitset_single waitset set before in
      let v = single-Inv set before none_pending in
      let seen = single_seen set before in
      let on = not_over s seen working in
      (turns-IsStuck single_goes_on (main_turn waitset single_goes_on s) choices single-AsksThree
        (late_test s on working tests fired (omega (arith, v.bounded, all)))).goes

  -- The two demonstrations: the condition, and the state after some turns.
  abbrev pub condition : Bool → Demo S → Bool
  condition true = single_goes_on
  condition false = multi_goes_on

  abbrev pub demonstration : Bool → S → List Bool → Demo S
  demonstration true = demo_waitset_single waitset
  demonstration false = demo_waitset_multi waitset

  demonstration-Inv :
      (single : Bool) (set : S) (choices : List Bool)
      → waitset.count set ≡ 0
      → Inv (demonstration single set choices)
  demonstration-Inv true = single-Inv
  demonstration-Inv false = multi-Inv

  condition-AsksThree : (single : Bool) → AsksThree (condition single)
  condition-AsksThree true = single-AsksThree
  condition-AsksThree false = multi-AsksThree

  worker-coalesced :
      (s : Demo S) (id : ℕ) (rest : List ℕ)
      → Inv s
      → s.script ≡ id ∷ rest
      → waitset.pending s.set id ≡ true
      → IsStuck (worker waitset s)
  unfolding worker fired
  worker-coalesced s id rest v next twice = rw next (record {
    goes = ground (arith, v.ended, v.bounded, ap length next);
    missing =
        inl (ground (arith, v.bounded, waitset.count-trigger s.set id, ap length next, twice));
  })

  -- Let either demonstration run in any way to a state in which the trigger that the worker fires
  -- next is still pending. If the worker fires it before the main thread returns from wait, then the
  -- loop does not end in any further turns: the two are one notification.
  pub coalesced_hangs :
      (single : Bool) (set : S) (before choices : List Bool) (id : ℕ) (rest : List ℕ)
      → waitset.count set ≡ 0
      → let s = demonstration single set before in
        s.script ≡ id ∷ rest
        → waitset.pending s.set id ≡ true
        → (turns waitset (condition single) s (false ∷ choices)).over ≡ false
  unfolding turns turn
  coalesced_hangs single set before choices id rest none_pending next twice =
      let s = demonstration single set before in
      let v = demonstration-Inv single set before none_pending in
      (turns-IsStuck (condition single) (worker waitset s) choices (condition-AsksThree single)
        (worker-coalesced s id rest v next twice)).goes

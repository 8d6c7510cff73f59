-- ===== src/WaitSet/Waking.antt =====
-- An event that was fired is collected by the next wait.
use cpp_code.Prelude.{
  ℕ, ◌<◌, ◌≡◌, ◌⊎◌, true, false, List, [], ◌∷◌, ◌++◌, arith, refl, ap, ◌∙◌, ◌↔◌, inl, inr, Bool,
  if◌then◌else◌, Bool-cases, Option-cases, append-nil, append_assoc, sym, subst,
}
use cpp_code.WaitSet.{
  attach, fire_store, time_out_at, Semaphore, Place, outside, entering, collecting, WaitSet,
  collect_at, fire_post, wait_at, Action, attaches, stores, posts, waits, times_out, collects, act,
  run, set_flag, new,
}

abbrev pub IsAmong : ℕ → List ℕ → Type 0
IsAmong x [] = ⊥
IsAmong x (y ∷ ys) = (x ≡ y) ⊎ IsAmong x ys

IsAmong-append : (x : ℕ) (xs : List ℕ) (y : ℕ) → IsAmong x (xs ++ y ∷ []) → IsAmong x xs ⊎ (x ≡ y)
IsAmong-append x [] y h = ground arith
IsAmong-append x (z ∷ xs) y h = ground (arith, IsAmong-append x xs y)

module _ {S : Type 0} (semaphore : Semaphore S) where
  -- At each place of the waiting thread, what will make it find a source whose flag is set.
  abbrev Covered : ℕ → Place → WaitSet S → Type 0
  Covered x outside w = (0 < semaphore.value w.sem) ⊎ (0 < w.owed)
  Covered x entering w = Unit {0}
  Covered x (collecting left found) w = IsAmong x left ⊎ (0 < semaphore.value w.sem) ⊎ (0 < w.owed)

  abbrev Inv : WaitSet S → Type 0
  Inv w = (x : ℕ) → IsAmong x w.attached → w.triggered x ≡ true → Covered x w.place w

  -- A source is attached before it is fired.
  abbrev pub IsFresh : WaitSet S → Action → Type 0
  IsFresh w (attaches source) = w.triggered source ≡ false
  IsFresh w other = Unit {0}

  abbrev pub AllFresh : WaitSet S → List Action → Type 0
  AllFresh w [] = Unit {0}
  AllFresh w (a ∷ actions) = IsFresh w a × AllFresh (act semaphore w a) actions

  act-Inv : (w : WaitSet S) (a : Action) → IsFresh w a → Inv w → Inv (act semaphore w a)
  unfolding act attach fire_store fire_post wait_at time_out_at collect_at
  act-Inv w (attaches source) f v x among set =
      ground (arith, v x, IsAmong-append x w.attached source)
  act-Inv w (stores source) f v x among set = ground (arith, v x)
  act-Inv w posts f v x among set = ground (arith, v x, semaphore.value-post w.sem)
  act-Inv w waits f v x among set = ground (arith, v x)
  act-Inv w times_out f v x among set = ground (arith, v x)
  act-Inv w collects f v x among set = ground (arith, v x)

  run-Inv :
      (w : WaitSet S) (actions : List Action)
      → AllFresh w actions
      → Inv w
      → Inv (run semaphore w actions)
  unfolding run
  run-Inv w [] f v = v
  run-Inv w (a ∷ actions) f v = run-Inv (act semaphore w a) actions f.1 (act-Inv w a f.0 v)

  -- Whether nothing is under way: no call of wait, and no fireEvent before its post.
  abbrev pub IsQuiet : WaitSet S → Type 0
  IsQuiet w = (w.place ≡ outside) × (w.owed ≡ 0)

  -- The steps of one collection.
  abbrev pub collection : List ℕ → List Action
  collection [] = collects ∷ []
  collection (source ∷ left) = collects ∷ collection left

  -- What a collection of these sources finds, and the flags that it leaves.
  pub picked : (ℕ → Bool) → List ℕ → List ℕ
  picked flags [] = []
  picked flags (x ∷ xs) =
      if flags x then x ∷ picked (set_flag flags x false) xs else picked flags xs

  pub cleared : (ℕ → Bool) → List ℕ → ℕ → Bool
  cleared flags [] = flags
  cleared flags (x ∷ xs) = if flags x then cleared (set_flag flags x false) xs else cleared flags xs

  -- A collection from a place in its loop, with nothing between its steps.
  abbrev Collected : List ℕ → List ℕ → WaitSet S → WaitSet S → Type 0
  Collected left found w w' =
      (w'.place ≡ outside)
      × (w'.attached ≡ w.attached)
      × (w'.triggered ≡ cleared w.triggered left)
      × (w'.returned ≡ w.returned ++ (found ++ picked w.triggered left) ∷ [])

  collect-set :
      (w : WaitSet S) (x : ℕ) (left found : List ℕ)
      → w.place ≡ collecting (x ∷ left) found
      → w.triggered x ≡ true
      → act semaphore w collects ≡ record w {
        triggered = set_flag w.triggered x false;
        delivered = w.delivered ++ x ∷ [];
        place = collecting left (found ++ x ∷ []);
      }
  unfolding act collect_at
  collect-set w x left found e set = ground arith

  collect-unset :
      (w : WaitSet S) (x : ℕ) (left found : List ℕ)
      → w.place ≡ collecting (x ∷ left) found
      → w.triggered x ≡ false
      → act semaphore w collects ≡ record w { place = collecting left found }
  unfolding act collect_at
  collect-unset w x left found e unset = ground arith

  collect-end :
      (w : WaitSet S) (found : List ℕ)
      → w.place ≡ collecting [] found
      → act semaphore w collects ≡ record w { place = outside; returned = w.returned ++ found ∷ [] }
  unfolding act collect_at
  collect-end w found e = ground arith

  picked-set :
      (flags : ℕ → Bool) (x : ℕ) (left : List ℕ)
      → flags x ≡ true
      → (picked flags (x ∷ left) ≡ x ∷ picked (set_flag flags x false) left)
        × (cleared flags (x ∷ left) ≡ cleared (set_flag flags x false) left)
  unfolding picked cleared
  picked-set flags x left e = rw e (refl, refl)

  picked-unset :
      (flags : ℕ → Bool) (x : ℕ) (left : List ℕ)
      → flags x ≡ false
      → (picked flags (x ∷ left) ≡ picked flags left)
        × (cleared flags (x ∷ left) ≡ cleared flags left)
  unfolding picked cleared
  picked-unset flags x left e = rw e (refl, refl)

  collect_all :
      (left found : List ℕ) (w : WaitSet S)
      → w.place ≡ collecting left found
      → Collected left found w (run semaphore w (collection left))
  unfolding run picked cleared
  collect_all [] found w e =
      subst (Collected [] found w) (sym (collect-end w found e))
        (refl, refl, refl, ap (λ one. w.returned ++ one ∷ []) (sym (append-nil found)))
  collect_all (x ∷ left) found w e = elim (Bool-cases (w.triggered x)) [
    | inl set ↦
        let step = collect-set w x left found e set in
        let w' = record w {
          triggered = set_flag w.triggered x false;
          delivered = w.delivered ++ x ∷ [];
          place = collecting left (found ++ x ∷ []);
        } in
        let (out, kept, flags, back) = collect_all left (found ++ x ∷ []) w' refl in
        let (picks, clears) = picked-set w.triggered x left set in
        subst (λ u. Collected (x ∷ left) found w (run semaphore u (collection left))) (sym step)
          (
            out,
            kept,
            flags ∙ sym clears,
            back
                ∙ ap (λ one. w.returned ++ one ∷ [])
                    (append_assoc found (x ∷ []) (picked w'.triggered left)
                      ∙ ap (λ tail. found ++ tail) (sym picks)),
          )
    | inr unset ↦
        let step = collect-unset w x left found e unset in
        let (out, kept, flags, back) =
          collect_all left found (record w { place = collecting left found }) refl in
        let (picks, clears) = picked-unset w.triggered x left unset in
        subst (λ u. Collected (x ∷ left) found w (run semaphore u (collection left))) (sym step)
          (
            out,
            kept,
            flags ∙ sym clears,
            back ∙ ap (λ tail. w.returned ++ (found ++ tail) ∷ []) (sym picks),
          )
  ]

  picked_iff :
      (flags : ℕ → Bool) (xs : List ℕ) (x : ℕ)
      → IsAmong x (picked flags xs) ↔ (IsAmong x xs × (flags x ≡ true))
  unfolding picked
  picked_iff flags [] x = ground arith
  picked_iff flags (y ∷ ys) x =
      ground (arith, picked_iff flags ys x, picked_iff (set_flag flags y false) ys x)

  cleared_all :
      (flags : ℕ → Bool) (xs : List ℕ) (x : ℕ)
      → (cleared flags xs x ≡ true) ↔ ((flags x ≡ true) × (IsAmong x xs → ⊥))
  unfolding cleared
  cleared_all flags [] x = ground arith
  cleared_all flags (y ∷ ys) x =
      ground (arith, cleared_all flags ys x, cleared_all (set_flag flags y false) ys x)

  wait_step :
      (w : WaitSet S)
      → w.place ≡ outside
      → 0 < semaphore.value w.sem
      → (sem : S) × (run semaphore w (waits ∷ collects ∷ [])
          ≡ record w { sem = sem; place = collecting w.attached [] })
  unfolding run act wait_at collect_at
  wait_step w e h = elim (Option-cases (semaphore.try_wait w.sem)) [
    | inl blocked ↦ absurd (semaphore.try_wait_some w.sem h blocked)
    | inr (sem, got) ↦ (sem, rw (e, got) refl)
  ]

  run-append :
      (w : WaitSet S) (actions more : List Action)
      → run semaphore w (actions ++ more) ≡ run semaphore (run semaphore w actions) more
  unfolding run
  run-append w [] more = refl
  run-append w (a ∷ actions) more = run-append (act semaphore w a) actions more

  woken : (w : WaitSet S) (x : ℕ) → IsQuiet w → Covered x w.place w → 0 < semaphore.value w.sem
  woken w x quiet covered = ground arith

  -- Let any steps of one waiting thread, of calls of fireEvent and of attach be taken from a new set,
  -- where no source is attached while it is triggered, and let a source that is attached be triggered
  -- when nothing is under way. Then a call of wait does not block: it returns just the attached
  -- sources that are triggered, that one among them, and leaves exactly the others triggered.
  pub fired_is_collected :
      (sem : S) (actions : List Action) (x : ℕ)
      → AllFresh (new sem) actions
      → let w = run semaphore (new sem) actions in
        IsQuiet w
        → IsAmong x w.attached
        → w.triggered x ≡ true
        → let w' = run semaphore w (waits ∷ collects ∷ collection w.attached) in
          (w'.place ≡ outside)
          × (found : List ℕ) × (w'.returned ≡ w.returned ++ found ∷ [])
          × IsAmong x found
          × ((y : ℕ) → IsAmong y found ↔ (IsAmong y w.attached × (w.triggered y ≡ true)))
          × ((y : ℕ)
              → (w'.triggered y ≡ true) ↔ ((w.triggered y ≡ true) × (IsAmong y w.attached → ⊥)))
  fired_is_collected sem actions x fresh quiet among set =
      let w = run semaphore (new sem) actions in
      let covered = run-Inv (new sem) actions fresh (λ y none' e. absurd none') x among set in
      let (sem', enter) = wait_step w quiet.0 (woken w x quiet covered) in
      let (out, _, flags, back) =
        collect_all w.attached [] (record w { sem = sem'; place = collecting w.attached [] })
          refl in
      rw (run-append w (waits ∷ collects ∷ []) (collection w.attached), enter, flags)
        (
          out,
          picked w.triggered w.attached,
          back,
          (picked_iff w.triggered w.attached x).1 (among, set),
          picked_iff w.triggered w.attached,
          cleared_all w.triggered w.attached,
        )

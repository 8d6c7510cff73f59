-- ===== src/UserTrigger/Tests.antt =====
-- The theorems at a wait set that is the list of the ids that are pending.
use cpp_code.Prelude.{
  ℕ, suc, ◌<◌, ◌≡◌, refl, ap, ◌∙◌, inl, inr, Bool, true, false, ◌||◌, Option, none, some, List, [],
  ◌∷◌, arith, ◌==◌, if◌then◌else◌, Bool-cases, ==_iff, length,
}
use cpp_code.UserTrigger.{
  WaitSet, single_goes_on, turns, demo_waitset_single, demo_waitset_multi, id_a,
}
use cpp_code.UserTrigger.Waiting.{late_done_hangs, coalesced_hangs, condition, demonstration}

abbrev has : List ℕ → ℕ → Bool
has [] id = false
has (x ∷ xs) id = id == x || has xs id

-- The ids that are pending, each once.
abbrev add_id : List ℕ → ℕ → List ℕ
add_id ids id = if has ids id then ids else id ∷ ids

abbrev wait_ids_of : List ℕ → Option (List ℕ × List ℕ)
wait_ids_of [] = none
wait_ids_of (id ∷ ids) = some (id ∷ ids, [])

has-add_id :
    (ids : List ℕ) (id asked : ℕ) → has (add_id ids id) asked ≡ (asked == id || has ids asked)
has-add_id ids id asked = elim (Bool-cases (has ids id)) [
  | inl e ↦ rw e (elim (Bool-cases (asked == id)) [
    | inl same ↦ rw same (ap (has ids) ((==_iff asked id).0 same) ∙ e)
    | inr other ↦ rw other refl
  ])
  | inr e ↦ rw e refl
]

length-add_id :
    (ids : List ℕ) (id : ℕ)
    → length (add_id ids id) ≡ (if has ids id then length ids else suc (length ids))
length-add_id ids id = ground arith

wait_none : (s : List ℕ) → wait_ids_of s ≡ none → length s ≡ 0
wait_none [] e = refl
wait_none (x ∷ s) e = cc

wait_some :
    (s s' ids : List ℕ)
    → wait_ids_of s ≡ some (ids, s')
    → (0 < length s) × (length ids ≡ length s) × (s' ≡ [])
wait_some [] s' ids e = cc
wait_some (x ∷ s) s' ids e = ground arith

abbrev listed : WaitSet (List ℕ)
listed = record {
  pending = has;
  count = λ s. length s;
  trigger = add_id;
  wait = wait_ids_of;
  pending-trigger = has-add_id;
  count-trigger = length-add_id;
  wait-none = wait_none;
  wait_waits = λ s s' ids e. (wait_some s s' ids e).0;
  wait_ids = λ s s' ids e. (wait_some s s' ids e).1;
  wait_clears = λ s s' ids asked e. (
    ap (λ r. has r asked) (wait_some s s' ids e).2,
    ap (λ (r : List ℕ). length r) (wait_some s s' ids e).2,
  );
}

-- The main thread takes each notification before the next trigger.
abbrev in_time : List Bool
in_time = true ∷ false ∷ true ∷ true ∷ false ∷ true ∷ true ∷ false ∷ false ∷ true ∷ true ∷ []

in_time_over : (demo_waitset_single listed [] in_time).over ≡ true
unfolding demo_waitset_single
in_time_over = refl

-- The main thread has received all three, and the worker has still to set done.
abbrev all_received : List Bool
all_received = true ∷ false ∷ true ∷ true ∷ false ∷ true ∷ true ∷ false ∷ true ∷ []

late_done_hangs_example :
    (turns listed single_goes_on
      (demo_waitset_single listed [] all_received)
      (true ∷ false ∷ true ∷ true ∷ [])).over
    ≡ false
unfolding demo_waitset_single
late_done_hangs_example =
    late_done_hangs listed [] all_received (false ∷ true ∷ true ∷ []) refl refl refl refl refl

-- The worker has fired two, and the third is the first one's trigger again.
abbrev two_fired : List Bool
two_fired = false ∷ false ∷ []

coalesced_hangs_example :
    (turns listed
      (condition listed false)
      (demonstration listed false [] two_fired)
      (false ∷ true ∷ true ∷ true ∷ [])).over
    ≡ false
unfolding demo_waitset_multi
coalesced_hangs_example =
    coalesced_hangs listed false [] two_fired (true ∷ true ∷ true ∷ []) id_a [] refl refl refl

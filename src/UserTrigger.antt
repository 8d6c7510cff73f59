-- ===== src/UserTrigger.antt =====
-- cpp_test/iceoryx/006.user_trigger/006.user_trigger.cpp: the worker and the waiting loop of
-- demo_waitset_single and of demo_waitset_multi, each step one access of shared state. WaitSet and
-- UserTrigger of iceoryx are a parameter; an attach that fails, which exits, is left out.
pub mod Waiting
mod Tests
use cpp_code.Prelude.{
  ℕ, zero, suc, ◌+◌, ◌-◌, ◌*◌, ◌/◌, ◌%◌, ◌^◌, ◌≤◌, ◌<◌, ◌≡◌, refl, sym, ap, ap₂, ◌∙◌, subst, ◌≢◌,
  ◌↔◌, ◌⊎◌, inl, inr, Bool, true, false, not, ◌&&◌, ◌||◌, Option, none, some, List, [], ◌∷◌, ◌++◌,
  arith, ltb, leb, ◌==◌, if◌then◌else◌, Bool-cases, Option-cases, length,
}

-- What the code relies on of a wait set: a trigger that fires is pending, once however often it
-- fires, and wait returns where some trigger is pending, with one notification for each; then none
-- is pending. The numbers are the notification ids.
pub record WaitSet (S : Type 0) : Type 0 where
  pub pending : S → ℕ → Bool
  pub count : S → ℕ
  pub trigger : S → ℕ → S
  pub wait : S → Option (List ℕ × S)
  pub pending-trigger :
      (s : S) (id asked : ℕ) → pending (trigger s id) asked ≡ (asked == id || pending s asked)
  pub count-trigger :
      (s : S) (id : ℕ) → count (trigger s id) ≡ (if pending s id then count s else suc (count s))
  pub wait-none : (s : S) → wait s ≡ none → count s ≡ 0
  pub wait_waits : (s s' : S) (ids : List ℕ) → wait s ≡ some (ids, s') → 0 < count s
  pub wait_ids : (s s' : S) (ids : List ℕ) → wait s ≡ some (ids, s') → length ids ≡ count s
  pub wait_clears :
      (s s' : S) (ids : List ℕ) (asked : ℕ)
      → wait s ≡ some (ids, s')
      → (pending s' asked ≡ false) × (count s' ≡ 0)

-- `script` are the triggers that the worker has still to fire, `waiting` that the main thread is in
-- wait, `over` that it has left its loop.
pub record Demo (S : Type 0) : Type 0 where
  pub set : S
  pub script : List ℕ
  pub done : Bool
  pub received : ℕ
  pub waiting : Bool
  pub over : Bool

abbrev pub id_a : ℕ
id_a = 10

abbrev pub id_b : ℕ
id_b = 20

abbrev pub single_start : {S : Type 0} → S → Demo S
single_start set = record {
  set = set;
  script = 0 ∷ 0 ∷ 0 ∷ [];
  done = false;
  received = 0;
  waiting = false;
  over = false;
}

-- Here `done` is not read, and the main thread's count is total.
abbrev pub multi_start : {S : Type 0} → S → Demo S
multi_start set = record (single_start set) { script = id_a ∷ id_b ∷ id_a ∷ [] }

-- The conditions of the loops of demo_waitset_single and demo_waitset_multi.
unfoldable pub single_goes_on : {S : Type 0} → Demo S → Bool
single_goes_on s = not s.done || ltb s.received 3

unfoldable pub multi_goes_on : {S : Type 0} → Demo S → Bool
multi_goes_on s = ltb s.received 3

module _ {S : Type 0} (waitset : WaitSet S) where
  fired : Demo S → List ℕ → Demo S
  fired s [] = record s { done = true }
  fired s (id ∷ script) = record s { set = waitset.trigger s.set id; script = script }

  -- The worker fires its next trigger, or ends.
  unfoldable pub worker : Demo S → Demo S
  unfolding fired
  worker s = fired s s.script

  notified : Demo S → Option (List ℕ × S) → Demo S
  notified s none = s
  notified s (some (ids, set)) = record s {
    set = set;
    received = s.received + length ids;
    waiting = false;
  }

  -- The main thread tests its condition, or returns from wait and goes through the notifications.
  unfoldable pub main_turn : (Demo S → Bool) → Demo S → Demo S
  unfolding notified
  main_turn goes_on s =
      if s.over
      then s
      else if s.waiting
      then notified s (waitset.wait s.set)
      else if goes_on s
      then record s { waiting = true }
      else record s { over = true }

  -- A turn is the main thread's where the choice is true.
  unfoldable pub turn : (Demo S → Bool) → Demo S → Bool → Demo S
  unfolding worker main_turn
  turn goes_on s true = main_turn goes_on s
  turn goes_on s false = worker s

  unfoldable pub turns : (Demo S → Bool) → Demo S → List Bool → Demo S
  unfolding turn
  turns goes_on s [] = s
  turns goes_on s (choice ∷ choices) = turns goes_on (turn goes_on s choice) choices

  unfoldable pub demo_waitset_single : S → List Bool → Demo S
  unfolding single_goes_on turns
  demo_waitset_single set choices = turns single_goes_on (single_start set) choices

  unfoldable pub demo_waitset_multi : S → List Bool → Demo S
  unfolding multi_goes_on turns
  demo_waitset_multi set choices = turns multi_goes_on (multi_start set) choices

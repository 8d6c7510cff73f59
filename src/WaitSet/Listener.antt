-- ===== src/WaitSet/Listener.antt =====
-- MiniListener: a thread that waits on a set and calls back.
pub mod Stopping
pub mod Calls
use cpp_code.Prelude.{
  ℕ, zero, suc, ◌+◌, ◌-◌, ◌*◌, ◌/◌, ◌%◌, ◌^◌, ◌≤◌, ◌<◌, ◌≡◌, refl, sym, ap, ap₂, ◌∙◌, subst, ◌≢◌,
  ◌↔◌, ◌⊎◌, inl, inr, Bool, true, false, not, ◌&&◌, ◌||◌, Option, none, some, List, [], ◌∷◌, ◌++◌,
  arith, ltb, leb, ◌==◌, if◌then◌else◌, Bool-cases, Option-cases,
}
use cpp_code.WaitSet.{
  new, Semaphore, Place, outside, entering, collecting, WaitSet, attach, Action, waits, times_out,
  collects, act,
}

-- Where the loop's thread is: at the loop's test, in timedWait, at the callbacks with what timedWait
-- returned, or at its end.
pub data LoopPlace : Type 0 where
  testing in_wait exited : LoopPlace
  calling : List ℕ → LoopPlace

-- An entry has a source and the number of its callback; `called` are the calls made.
pub record Listener (S : Type 0) : Type 0 where
  pub set : WaitSet S
  pub entries : List (ℕ × ℕ)
  pub running : Bool
  pub at : LoopPlace
  pub called : List (ℕ × ℕ)

-- The inner loop: the first entry of the source is called.
unfoldable pub first_entry : List (ℕ × ℕ) → ℕ → List (ℕ × ℕ)
first_entry [] source = []
first_entry ((key, callback) ∷ entries) source =
    let rest = first_entry entries source in if key == source then (source, callback) ∷ [] else rest

unfoldable pub call_all : List (ℕ × ℕ) → List ℕ → List (ℕ × ℕ)
unfolding first_entry
call_all entries [] = []
call_all entries (source ∷ sources) = first_entry entries source ++ call_all entries sources

module _ {S : Type 0} (semaphore : Semaphore S) where
  -- attachWithCallback waits for the set's mutex while a collection runs.
  attach_entry : Place → Listener S → ℕ → ℕ → Listener S
  attach_entry (collecting left found) l source callback = l
  attach_entry place l source callback = record l {
    entries = l.entries ++ (source, callback) ∷ [];
    set = attach l.set source;
  }

  unfoldable pub attach_with_callback : Listener S → ℕ → ℕ → Listener S
  unfolding attach_entry
  attach_with_callback l source callback = attach_entry l.set.place l source callback

  unfoldable pub start : Listener S → Listener S
  start l = record l { running = true; at = testing }

  -- The store and the post; the join follows.
  unfoldable pub stop : Listener S → Listener S
  stop l = record l { running = false; set = record l.set { sem = semaphore.post l.set.sem } }

  -- timedWait, one step: `late` says that the time is over.
  in_wait_at : Place → Listener S → Bool → Listener S
  in_wait_at outside l true = record l { set = act semaphore l.set times_out; at = calling [] }
  in_wait_at outside l false = record l { set = act semaphore l.set waits }
  in_wait_at (collecting [] found) l late = record l {
    set = act semaphore l.set collects;
    at = calling found;
  }
  in_wait_at place l late = record l { set = act semaphore l.set collects }

  unfoldable pub loop_at : LoopPlace → Listener S → Bool → Listener S
  unfolding in_wait_at call_all
  loop_at testing l late = record l { at = (if l.running then in_wait else exited) }
  loop_at in_wait l late = in_wait_at l.set.place l late
  loop_at (calling found) l late = record l {
    called = l.called ++ call_all l.entries found;
    at = testing;
  }
  loop_at exited l late = l

  unfoldable pub loop : Listener S → List Bool → Listener S
  unfolding loop_at
  loop l [] = l
  loop l (late ∷ choices) = loop (loop_at l.at l late) choices

-- What may happen to a listener: other threads' calls, and a step of its own.
pub data Event : Type 0 where
  attaches : ℕ → ℕ → Event
  stores : ℕ → Event
  posts stops : Event
  steps : Bool → Event

module _ {S : Type 0} (semaphore : Semaphore S) where
  unfoldable pub happen : Listener S → Event → Listener S
  unfolding attach_with_callback stop loop_at
  happen l (attaches source callback) = attach_with_callback semaphore l source callback
  happen l (stores source) = record l { set = act semaphore l.set (Action.stores source) }
  happen l posts = record l { set = act semaphore l.set Action.posts }
  happen l stops = stop semaphore l
  happen l (steps late) = loop_at semaphore l.at l late

  unfoldable pub history : Listener S → List Event → Listener S
  unfolding happen
  history l [] = l
  history l (e ∷ events) = history (happen l e) events

abbrev pub new_listener : {S : Type 0} → S → Listener S
new_listener sem = record { set = new sem; entries = []; running = false; at = exited; called = [] }

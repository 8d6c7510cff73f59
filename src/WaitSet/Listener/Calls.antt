-- ===== src/WaitSet/Listener/Calls.antt =====
-- Each source that a listener collects is called back once, by its own callback.
use cpp_code.Prelude.{
  ℕ, ◌≡◌, refl, ap, ap₂, ◌∙◌, inl, inr, Bool, true, false, List, [], ◌∷◌, ◌++◌, arith, append-nil,
  ◌≢◌, ◌⊎◌, ◌==◌, Bool-cases, ==_iff,
}
use cpp_code.WaitSet.{
  Semaphore, Place, outside, entering, collecting, act, attach, collect_at, wait_at, time_out_at,
  fire_store, fire_post,
}
use cpp_code.WaitSet.Listener.{
  LoopPlace, testing, in_wait, exited, calling, Listener, first_entry, call_all,
  attach_with_callback, start, stop, in_wait_at, loop_at, Event, attaches, stores, posts, stops,
  steps, happen, history, new_listener,
}
use cpp_code.WaitSet.Counting.{concat, concat-append}
use cpp_code.WaitSet.Waking.{IsAmong}

pub keys : List (ℕ × ℕ) → List ℕ
keys [] = []
keys ((key, callback) ∷ entries) = key ∷ keys entries

abbrev AllAmong : List ℕ → List ℕ → Type 0
AllAmong [] ys = Unit {0}
AllAmong (x ∷ xs) ys = IsAmong x ys × AllAmong xs ys

-- The callback is that of the source's first entry.
abbrev pub IsFirst : List (ℕ × ℕ) → ℕ → ℕ → Type 0
IsFirst [] source callback = ⊥
IsFirst ((key, c) ∷ entries) source callback =
    ((key ≡ source) × (c ≡ callback)) ⊎ ((key ≢ source) × IsFirst entries source callback)

abbrev pub AllFirst : List (ℕ × ℕ) → List (ℕ × ℕ) → Type 0
AllFirst entries [] = Unit {0}
AllFirst entries ((source, callback) ∷ calls) =
    IsFirst entries source callback × AllFirst entries calls

AllFirst-append :
    (entries xs ys : List (ℕ × ℕ))
    → AllFirst entries xs
    → AllFirst entries ys
    → AllFirst entries (xs ++ ys)
AllFirst-append entries [] ys h k = k
AllFirst-append entries (x ∷ xs) ys (h, hs) k = (h, AllFirst-append entries xs ys hs k)

IsFirst-more :
    (entries more : List (ℕ × ℕ)) (source callback : ℕ)
    → IsFirst entries source callback
    → IsFirst (entries ++ more) source callback
IsFirst-more [] more source callback h = absurd h
IsFirst-more (e ∷ entries) more source callback (inl h) = inl h
IsFirst-more (e ∷ entries) more source callback (inr (other, h)) =
    inr (other, IsFirst-more entries more source callback h)

AllFirst-more :
    (entries more calls : List (ℕ × ℕ)) → AllFirst entries calls → AllFirst (entries ++ more) calls
AllFirst-more entries more [] h = tt
AllFirst-more entries more ((source, callback) ∷ calls) (h, hs) =
    (IsFirst-more entries more source callback h, AllFirst-more entries more calls hs)

-- What the inner loop calls: nothing, or the source's first entry.
abbrev CallsFirst : List (ℕ × ℕ) → ℕ → List (ℕ × ℕ) → Type 0
CallsFirst entries source calls =
    (calls ≡ [])
    ⊎ ((callback : ℕ) × (calls ≡ (source, callback) ∷ []) × IsFirst entries source callback)

first_entry-CallsFirst :
    (entries : List (ℕ × ℕ)) (source : ℕ) → CallsFirst entries source (first_entry entries source)
unfolding first_entry
first_entry-CallsFirst [] source = inl refl
first_entry-CallsFirst ((key, callback) ∷ entries) source = elim (Bool-cases (key == source)) [
  | inl same ↦ rw same (inr (callback, refl, inl ((==_iff key source).0 same, refl)))
  | inr other ↦ rw other (elim (first_entry-CallsFirst entries source) [
    | inl nothing ↦ inl nothing
    | inr (c, calls, first) ↦ inr (c, calls, inr (ground arith, first))
  ])
]

call_all-AllFirst :
    (entries : List (ℕ × ℕ)) (sources : List ℕ) → AllFirst entries (call_all entries sources)
unfolding call_all
call_all-AllFirst entries [] = tt
call_all-AllFirst entries (source ∷ sources) =
    let rest = call_all-AllFirst entries sources in
    AllFirst-append entries (first_entry entries source) (call_all entries sources)
      (elim (first_entry-CallsFirst entries source) [
        | inl nothing ↦ rw nothing tt
        | inr (c, calls, first) ↦ rw calls (first, tt)
      ])
      rest

keys-append : (xs ys : List (ℕ × ℕ)) → keys (xs ++ ys) ≡ keys xs ++ keys ys
unfolding keys
keys-append [] ys = refl
keys-append (x ∷ xs) ys = ap (λ tail. x.0 ∷ tail) (keys-append xs ys)

keys-first_entry :
    (entries : List (ℕ × ℕ)) (x : ℕ)
    → IsAmong x (keys entries)
    → keys (first_entry entries x) ≡ x ∷ []
unfolding keys first_entry
keys-first_entry [] x h = absurd h
keys-first_entry ((key, callback) ∷ entries) x h = ground (arith, keys-first_entry entries x)

keys-call_all :
    (entries : List (ℕ × ℕ)) (xs : List ℕ)
    → AllAmong xs (keys entries)
    → keys (call_all entries xs) ≡ xs
unfolding call_all
keys-call_all entries [] h = unfold keys in refl
keys-call_all entries (x ∷ xs) (h, hs) =
    keys-append (first_entry entries x) (call_all entries xs)
    ∙ ap₂ ◌++◌ (keys-first_entry entries x h) (keys-call_all entries xs hs)

IsAmong-more : (x y : ℕ) (ys : List ℕ) → IsAmong x ys → IsAmong x (ys ++ y ∷ [])
IsAmong-more x y [] h = absurd h
IsAmong-more x y (z ∷ ys) h = ground (arith, IsAmong-more x y ys)

AllAmong-more : (xs ys : List ℕ) (y : ℕ) → AllAmong xs ys → AllAmong xs (ys ++ y ∷ [])
AllAmong-more [] ys y h = tt
AllAmong-more (x ∷ xs) ys y (h, hs) = (IsAmong-more x y ys h, AllAmong-more xs ys y hs)

AllAmong-append :
    (xs : List ℕ) (x : ℕ) (ys : List ℕ) → AllAmong xs ys → IsAmong x ys → AllAmong (xs ++ x ∷ []) ys
AllAmong-append [] x ys h a = (a, tt)
AllAmong-append (z ∷ xs) x ys (h, hs) a = (h, AllAmong-append xs x ys hs a)

AllAmong-self : (xs ys : List ℕ) → ((x : ℕ) → IsAmong x xs → IsAmong x ys) → AllAmong xs ys
AllAmong-self [] ys h = tt
AllAmong-self (x ∷ xs) ys h = (h x (inl refl), AllAmong-self xs ys (λ y a. h y (inr a)))

-- The sources in a collection, and those at the callbacks, are attached.
abbrev Known : Place → List ℕ → Type 0
Known (collecting left found) attached = AllAmong left attached × AllAmong found attached
Known place attached = Unit {0}

abbrev pub pending : LoopPlace → List ℕ
pending (calling found) = found
pending p = []

module _ {S : Type 0} (semaphore : Semaphore S) where
  record Inv (l : Listener S) : Type 0 where
    same : keys l.entries ≡ l.set.attached
    known : Known l.set.place l.set.attached
    found : AllAmong (pending l.at) l.set.attached
    all : keys l.called ++ pending l.at ≡ concat l.set.returned
    own : AllFirst l.entries l.called

  attach-Inv :
      (place : Place) (l : Listener S) (x c : ℕ)
      → l.set.place ≡ place
      → Inv l
      → Inv (attach_with_callback semaphore l x c)
  unfolding attach_with_callback attach keys
  attach-Inv (collecting left found) l x c e v =
      ground (arith, v.same, v.known, v.found, v.all, v.own)
  attach-Inv outside l x c e v = record {
    same = ground (arith, v.same, keys-append l.entries ((x, c) ∷ []));
    known = ground arith;
    found = ground (arith, AllAmong-more (pending l.at) l.set.attached x v.found);
    all = ground (arith, v.all);
    own = ground (arith, AllFirst-more l.entries ((x, c) ∷ []) l.called v.own);
  }
  attach-Inv entering l x c e v = record {
    same = ground (arith, v.same, keys-append l.entries ((x, c) ∷ []));
    known = ground arith;
    found = ground (arith, AllAmong-more (pending l.at) l.set.attached x v.found);
    all = ground (arith, v.all);
    own = ground (arith, AllFirst-more l.entries ((x, c) ∷ []) l.called v.own);
  }

  in_wait-Inv :
      (place : Place) (l : Listener S) (late : Bool)
      → l.set.place ≡ place
      → l.at ≡ in_wait
      → Inv l
      → Inv (in_wait_at semaphore place l late)
  unfolding in_wait_at act collect_at wait_at time_out_at concat
  in_wait-Inv outside l true e i v = record {
    same = ground (arith, v.same);
    known = ground arith;
    found = tt;
    all = ground (
      arith,
      v.all,
      concat-append l.set.returned [],
      append-nil (concat l.set.returned),
      append-nil (keys l.called),
    );
    own = v.own;
  }
  in_wait-Inv outside l false e i v = record {
    same = ground (arith, v.same);
    known = ground arith;
    found = ground (arith, v.found);
    all = ground (arith, v.all);
    own = v.own;
  }
  in_wait-Inv entering l late e i v = record {
    same = ground (arith, v.same);
    known = ground (arith, AllAmong-self l.set.attached l.set.attached (λ x a. a));
    found = ground (arith, v.found);
    all = ground (arith, v.all);
    own = v.own;
  }
  in_wait-Inv (collecting [] found) l late e i v = record {
    same = ground (arith, v.same);
    known = ground arith;
    found = ground (arith, v.known);
    all = ground (arith, v.all, concat-append l.set.returned found, append-nil (keys l.called));
    own = v.own;
  }
  in_wait-Inv (collecting (x ∷ left) found) l late e i v = record {
    same = ground (arith, v.same);
    known = ground (arith, v.known, AllAmong-append found x l.set.attached);
    found = ground (arith, v.found);
    all = ground (arith, v.all);
    own = v.own;
  }

  called_known :
      (found : List ℕ) (l : Listener S)
      → l.at ≡ calling found
      → Inv l
      → AllAmong found (keys l.entries)
  called_known found l e v = rw v.same (rw e at v.found)

  loop-Inv :
      (p : LoopPlace) (l : Listener S) (late : Bool)
      → l.at ≡ p
      → Inv l
      → Inv (loop_at semaphore p l late)
  unfolding loop_at
  loop-Inv testing l late e v = record {
    same = v.same;
    known = v.known;
    found = ground arith;
    all = ground (arith, v.all);
    own = v.own;
  }
  loop-Inv in_wait l late e v = in_wait-Inv l.set.place l late refl e v
  loop-Inv (calling found) l late e v = record {
    same = v.same;
    known = v.known;
    found = tt;
    all =
        append-nil (keys (l.called ++ call_all l.entries found))
        ∙ keys-append l.called (call_all l.entries found)
        ∙ ap (λ tail. keys l.called ++ tail)
            (keys-call_all l.entries found (called_known found l e v))
        ∙ (rw e at v.all);
    own =
        AllFirst-append l.entries l.called (call_all l.entries found) v.own
          (call_all-AllFirst l.entries found);
  }
  loop-Inv exited l late e v = v

  happen-Inv : (l : Listener S) (event : Event) → Inv l → Inv (happen semaphore l event)
  unfolding happen act fire_store fire_post stop
  happen-Inv l (attaches x c) v = attach-Inv l.set.place l x c refl v
  happen-Inv l (stores x) v = record {
    same = v.same;
    known = v.known;
    found = v.found;
    all = v.all;
    own = v.own;
  }
  happen-Inv l posts v = record {
    same = ground (arith, v.same);
    known = ground (arith, v.known);
    found = ground (arith, v.found);
    all = ground (arith, v.all);
    own = v.own;
  }
  happen-Inv l stops v = record {
    same = v.same;
    known = v.known;
    found = v.found;
    all = v.all;
    own = v.own;
  }
  happen-Inv l (steps late) v = loop-Inv l.at l late refl v

  history-Inv : (l : Listener S) (events : List Event) → Inv l → Inv (history semaphore l events)
  unfolding history
  history-Inv l [] v = v
  history-Inv l (e ∷ events) v = history-Inv (happen semaphore l e) events (happen-Inv l e v)

  -- From the start of a listener's thread, after any events: sources attached with callbacks, events
  -- fired, stop, and steps of the thread. The sources whose callbacks were called, one call each,
  -- and those whose callbacks are next are together the sources that timedWait has returned, each
  -- as often and in their order; and the callback of each call is that of the first entry of its own
  -- source.
  pub each_called :
      (sem : S) (events : List Event)
      → let l = history semaphore (start semaphore (new_listener sem)) events in
        (keys l.called ++ pending l.at ≡ concat l.set.returned) × AllFirst l.entries l.called
  unfolding start keys concat
  each_called sem events =
      let v =
        history-Inv (start semaphore (new_listener sem)) events
          (record { same = refl; known = tt; found = tt; all = refl; own = tt }) in
      (v.all, v.own)

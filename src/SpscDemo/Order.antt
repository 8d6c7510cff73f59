-- ===== src/SpscDemo/Order.antt =====
-- The items are taken in their order.
use cpp_code.Prelude.{
  ℕ, zero, suc, ◌+◌, ◌≤◌, ◌<◌, ◌≡◌, refl, sym, ap, ap₂, ◌∙◌, inl, inr, Option, none, some, List, [],
  ◌∷◌, ◌++◌, arith, ltb, Bool-cases, ltb→lt,
}
use cpp_code.SpscDemo.{Fifo, item_count, Threads, pushed, produce, popped, consume}

unfoldable pub range : ℕ → ℕ → List ℕ
range a zero = []
range a (suc n) = a ∷ range (suc a) n

range-append : (a n : ℕ) → range a n ++ (a + n) ∷ [] ≡ range a (suc n)
unfolding range
range-append a zero = ground arith
range-append a (suc n) =
    ap (λ tail. a ∷ tail)
      (ap (λ m. range (suc a) n ++ m ∷ []) (omega arith) ∙ range-append (suc a) n)

range-first :
    (a n x : ℕ) (xs : List ℕ)
    → x ∷ xs ≡ range a n
    → (m : ℕ) × (n ≡ suc m) × (x ≡ a) × (xs ≡ range (suc a) m)
unfolding range
range-first a zero x xs e = ground arith
range-first a (suc n) x xs e = (n, refl, cc, cc)

pub range-empty : (a n : ℕ) → range a n ≡ [] → n ≡ 0
unfolding range
range-empty a zero e = refl
range-empty a (suc n) e = ground arith

pub range-none : (a n : ℕ) → n ≡ 0 → range a n ≡ []
unfolding range
range-none a zero e = refl
range-none a (suc n) e = ground arith

-- 0 + 1 + … up to the number before.
unfoldable pub sum_below : ℕ → ℕ
sum_below zero = 0
sum_below (suc n) = sum_below n + n

module _ {F : Type 0} (queue : Fifo F) where
  pub record Inv (s : Threads F) : Type 0 where
    pub held : ℕ
    pub contents : queue.contents s.fifo ≡ range s.count held
    pub ahead : s.next ≡ s.count + held
    pub bounded : s.next ≤ item_count
    pub sum : s.consumer_sum ≡ sum_below s.count

  pushed-Inv :
      (s : Threads F) (r : Option F)
      → queue.push s.fifo s.next ≡ r
      → s.next < item_count
      → Inv s
      → Inv (pushed queue s r)
  unfolding pushed
  pushed-Inv s none e h v = v
  pushed-Inv s (some f) e h v = record {
    held = suc v.held;
    contents =
        queue.contents-push s.fifo f s.next e
        ∙ ap₂ (λ xs m. xs ++ m ∷ []) v.contents v.ahead
        ∙ range-append s.count v.held;
    ahead = omega (arith, v.ahead);
    bounded = omega (arith, h);
    sum = v.sum;
  }

  popped-Inv :
      (s : Threads F) (r : Option (ℕ × F)) → queue.pop s.fifo ≡ r → Inv s → Inv (popped queue s r)
  unfolding popped sum_below
  popped-Inv s none e v = v
  popped-Inv s (some (x, f)) e v =
      let (m, more, first, rest) =
        range-first s.count v.held x (queue.contents f)
          (sym (queue.contents-pop s.fifo f x e) ∙ v.contents) in
      record {
        held = m;
        contents = rest;
        ahead = omega (arith, v.ahead, more);
        bounded = v.bounded;
        sum = ap₂ ◌+◌ v.sum first;
      }

  pub produce-Inv : (s : Threads F) → Inv s → Inv (produce queue s)
  unfolding produce
  produce-Inv s v = elim (Bool-cases (ltb s.next item_count)) [
    | inl e ↦ rw e (pushed-Inv s _ refl (ltb→lt s.next item_count e) v)
    | inr e ↦ rw e (record {
      held = v.held;
      contents = v.contents;
      ahead = v.ahead;
      bounded = v.bounded;
      sum = v.sum;
    })
  ]

  pub consume-Inv : (s : Threads F) → Inv s → Inv (consume queue s)
  unfolding consume
  consume-Inv s v = elim (Bool-cases (ltb s.count item_count)) [
    | inl e ↦ rw e (popped-Inv s _ refl v)
    | inr e ↦ rw e v
  ]

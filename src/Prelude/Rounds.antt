-- ===== src/Prelude/Rounds.antt =====
-- Steps of several threads in rounds: in each round every one of them has a turn, in any order and
-- as often as it may be.
use cpp_code.Prelude.{
  ℕ, ◌-◌, ◌≤◌, ◌<◌, ◌≡◌, refl, sym, ap, subst, ◌⊎◌, inl, inr, List, [], ◌∷◌, ◌++◌, arith, length,
}

abbrev pub Includes : List ℕ → ℕ → Type 0
Includes [] i = ⊥
Includes (j ∷ is) i = (i ≡ j) ⊎ Includes is i

abbrev pub IsRound : ℕ → List ℕ → Type 0
IsRound n is = (i : ℕ) → i < n → Includes is i

abbrev pub AllRounds : ℕ → List (List ℕ) → Type 0
AllRounds n [] = Unit {0}
AllRounds n (is ∷ rounds) = IsRound n is × AllRounds n rounds

abbrev pub concat : List (List ℕ) → List ℕ
concat [] = []
concat (is ∷ rounds) = is ++ concat rounds

abbrev pub steps : {S : Type 0} → (S → ℕ → S) → S → List ℕ → S
steps step s [] = s
steps step s (i ∷ is) = steps step (step s i) is

steps-append :
    {S : Type 0} (step : S → ℕ → S) (s : S) (is js : List ℕ)
    → steps step s (is ++ js) ≡ steps step (steps step s is) js
steps-append step s [] js = refl
steps-append step s (i ∷ is) js = steps-append step (step s i) is js

-- Where each turn does some of the work that is left or finds its thread blocked, and all threads
-- are blocked only at the end, each round does some work until none is left.
module _ {S : Type 0} (step : S → ℕ → S) (left : S → ℕ) (n : ℕ) (Inv : S → Type 0)
    (Blocked : S → ℕ → Type 0) (keeps : (s : S) (i : ℕ) → Inv s → Inv (step s i))
    (works : (s : S) (i : ℕ) → Inv s → (left (step s i) < left s) ⊎ ((step s i ≡ s) × Blocked s i))
    (over : (s : S) → Inv s → ((i : ℕ) → i < n → Blocked s i) → left s ≡ 0) where
  steps-keep : (s : S) (is : List ℕ) → Inv s → Inv (steps step s is)
  steps-keep s [] v = v
  steps-keep s (i ∷ is) v = steps-keep (step s i) is (keeps s i v)

  step-le : (s : S) (i : ℕ) → Inv s → left (step s i) ≤ left s
  step-le s i v = elim (works s i v) [
    | inl less ↦ omega (arith, less)
    | inr (same, blocked) ↦ omega (arith, ap left same)
  ]

  steps-le : (s : S) (is : List ℕ) → Inv s → left (steps step s is) ≤ left s
  steps-le s [] v = omega arith
  steps-le s (i ∷ is) v = omega (arith, steps-le (step s i) is (keeps s i v), step-le s i v)

  -- Where a sequence of turns does nothing, all whose turn it was were blocked.
  steps_work :
      (s : S) (is : List ℕ)
      → Inv s
      → (left (steps step s is) < left s) ⊎ ((i : ℕ) → Includes is i → Blocked s i)
  steps_work s [] v = inr (λ i here. absurd here)
  steps_work s (j ∷ is) v = elim (works s j v) [
    | inl less ↦ inl (omega (arith, less, steps-le (step s j) is (keeps s j v)))
    | inr (same, blocked) ↦ elim (steps_work s is v) [
      | inl less ↦ inl (omega (arith, less, ap (λ r. left (steps step r is)) same))
      | inr rest ↦ inr (λ i here. elim here [
        | inl e ↦ subst (Blocked s) (sym e) blocked
        | inr later ↦ rest i later
      ])
    ]
  ]

  round_works : (s : S) (is : List ℕ) → Inv s → IsRound n is → left (steps step s is) ≤ left s - 1
  round_works s is v all = elim (steps_work s is v) [
    | inl less ↦ omega (arith, less)
    | inr blocked ↦ omega (arith, over s v (λ i below. blocked i (all i below)), steps-le s is v)
  ]

  pub rounds_work :
      (s : S) (rounds : List (List ℕ))
      → Inv s
      → AllRounds n rounds
      → left (steps step s (concat rounds)) ≤ left s - length rounds
  rounds_work s [] v all = omega arith
  rounds_work s (is ∷ rounds) v (one, all) = omega (
    arith,
    round_works s is v one,
    rounds_work (steps step s is) rounds (steps-keep s is v) all,
    ap left (steps-append step s is (concat rounds)),
  )

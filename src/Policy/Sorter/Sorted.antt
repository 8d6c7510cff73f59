-- ===== src/Policy/Sorter/Sorted.antt =====
-- The sorter sorts.
use cpp_code.Prelude.{
  ℕ, zero, suc, ◌≤◌, ◌≡◌, refl, ap, sym, subst, inl, inr, Bool, true, false, List, [], ◌∷◌, arith,
  if◌then◌else◌, Bool-cases, length,
}
use mathlib.Core.List.{Perm}
use mathlib.Core.List.Perm
use cpp_code.Prelude.Int.{ℤ, ltb_ℤ}
use cpp_code.Policy.Sorter.{ascending_compare, descending_compare, inner_loop, outer_loop, sort}

abbrev pub All : {A : Type 0} → (A → Type 0) → List A → Type 0
All P [] = Unit {0}
All P (x ∷ xs) = P x × All P xs

-- No element compares before one that stands earlier.
abbrev pub IsSorted : (ℤ → ℤ → Bool) → List ℤ → Type 0
IsSorted compare [] = Unit {0}
IsSorted compare (x ∷ xs) = All (λ y. compare y x ≡ false) xs × IsSorted compare xs

-- What a compare policy has to be: a strict weak order.
pub record IsOrder (compare : ℤ → ℤ → Bool) : Type 0 where
  pub asymmetric : (a b : ℤ) → compare a b ≡ true → compare b a ≡ false
  pub transitive : (a b c : ℤ) → compare b a ≡ false → compare c b ≡ false → compare c a ≡ false

module _ (compare : ℤ → ℤ → Bool) where
  inner-perm :
      (x : ℤ) (ys : List ℤ) → let (l, rest) = inner_loop compare x ys in Perm (l ∷ rest) (x ∷ ys)
  unfolding inner_loop
  inner-perm x [] = Perm.refl (x ∷ [])
  inner-perm x (y ∷ ys) = elim (Bool-cases (compare y x)) [
    | inl e ↦
        rw e
          (Perm.trans (Perm.swap _ _ _) (Perm.trans (Perm.cons x (inner-perm y ys)) (Perm.refl _)))
    | inr e ↦ rw e (
        Perm.trans (Perm.swap _ _ _) (Perm.trans (Perm.cons y (inner-perm x ys)) (Perm.swap _ _ _)))
  ]

  outer-perm : (fuel : ℕ) (xs : List ℤ) → Perm (outer_loop compare fuel xs) xs
  unfolding outer_loop
  outer-perm zero xs = Perm.refl xs
  outer-perm (suc fuel) [] = Perm.refl []
  outer-perm (suc fuel) (x ∷ xs) =
      let (l, rest) = inner_loop compare x xs in
      Perm.trans (Perm.cons l (outer-perm fuel rest)) (inner-perm x xs)

  inner-All :
      (P : ℤ → Type 0) (x : ℤ) (ys : List ℤ)
      → P x
      → All P ys
      → let (l, rest) = inner_loop compare x ys in P l × All P rest
  unfolding inner_loop
  inner-All P x [] p ps = (p, tt)
  inner-All P x (y ∷ ys) p (q, qs) = elim (Bool-cases (compare y x)) [
    | inl e ↦ rw e (let (r, rs) = inner-All P y ys q qs in (r, (p, rs)))
    | inr e ↦ rw e (let (r, rs) = inner-All P x ys p qs in (r, (q, rs)))
  ]

  outer-All :
      (P : ℤ → Type 0) (fuel : ℕ) (xs : List ℤ) → All P xs → All P (outer_loop compare fuel xs)
  unfolding outer_loop
  outer-All P zero xs ps = ps
  outer-All P (suc fuel) [] ps = ps
  outer-All P (suc fuel) (x ∷ xs) (p, ps) =
      let (r, rs) = inner-All P x xs p ps in (r, outer-All P fuel _ rs)

  inner-length : (x : ℤ) (ys : List ℤ) → length (inner_loop compare x ys).1 ≡ length ys
  unfolding inner_loop
  inner-length x [] = refl
  inner-length x (y ∷ ys) = ap suc (inner-length (if compare y x then y else x) ys)

  -- Nothing that is left, nor x, compares before the element the inner loop has put first.
  abbrev IsLeast : ℤ → ℤ × List ℤ → Type 0
  IsLeast x (least, rest) = (compare x least ≡ false) × All (λ y. compare y least ≡ false) rest

  inner-before :
      (x y : ℤ) (ys : List ℤ)
      → compare y x ≡ true
      → inner_loop compare x (y ∷ ys)
        ≡ ((inner_loop compare y ys).0, x ∷ (inner_loop compare y ys).1)
  unfolding inner_loop
  inner-before x y ys e = rw e refl

  inner-after :
      (x y : ℤ) (ys : List ℤ)
      → compare y x ≡ false
      → inner_loop compare x (y ∷ ys)
        ≡ ((inner_loop compare x ys).0, y ∷ (inner_loop compare x ys).1)
  unfolding inner_loop
  inner-after x y ys e = rw e refl

  module _ (order : IsOrder compare) where
    irreflexive : (x : ℤ) → compare x x ≡ false
    irreflexive x = elim (Bool-cases (compare x x)) [ inl e ↦ order.asymmetric x x e | inr e ↦ e ]

    inner-IsLeast : (x : ℤ) (ys : List ℤ) → IsLeast x (inner_loop compare x ys)
    unfolding inner_loop
    inner-IsLeast x [] = (irreflexive x, tt)
    inner-IsLeast x (y ∷ ys) = elim (Bool-cases (compare y x)) [
      | inl e ↦
          let (r, rs) = inner-IsLeast y ys in
          let later = order.transitive _ y x r (order.asymmetric y x e) in
          subst (IsLeast x) (sym (inner-before x y ys e)) (later, (later, rs))
      | inr e ↦
          let (r, rs) = inner-IsLeast x ys in
          subst (IsLeast x) (sym (inner-after x y ys e)) (r, (order.transitive _ x y r e, rs))
    ]

    outer-IsSorted :
        (fuel : ℕ) (xs : List ℤ) → length xs ≤ fuel → IsSorted compare (outer_loop compare fuel xs)
    unfolding outer_loop
    outer-IsSorted zero [] h = tt
    outer-IsSorted zero (x ∷ xs) h = absurd (omega arith)
    outer-IsSorted (suc fuel) [] h = tt
    outer-IsSorted (suc fuel) (x ∷ xs) h =
        let (l, rest) = inner_loop compare x xs in
        (
          outer-All (λ y. compare y l ≡ false) fuel rest (inner-IsLeast x xs).1,
          outer-IsSorted fuel rest (omega (arith, inner-length x xs)),
        )

    -- For any compare policy that is a strict weak order, what sort_and_print prints is the given
    -- numbers, each as often, in an order in which none compares before an earlier one.
    pub sort-IsSorted :
        (xs : List ℤ) → IsSorted compare (sort compare xs) × Perm (sort compare xs) xs
    unfolding sort
    sort-IsSorted xs = (outer-IsSorted (length xs) xs (omega arith), outer-perm (length xs) xs)

ascending-IsOrder : IsOrder ascending_compare.compare
ascending-IsOrder = record {
  asymmetric = λ a b h. ground arith;
  transitive = λ a b c h k. ground arith;
}

descending-IsOrder : IsOrder descending_compare.compare
descending-IsOrder = record {
  asymmetric = λ a b h. ground arith;
  transitive = λ a b c h k. ground arith;
}

-- Both compare policies of the program sort: the ascending one puts the given numbers, each as often
-- as it is given, into an order in which no element is below an earlier one, and the descending one
-- puts them, each as often, into an order in which none is above an earlier one.
pub policies_sort :
    (xs : List ℤ)
    → IsSorted ltb_ℤ (sort ascending_compare.compare xs)
      × IsSorted (λ a b. ltb_ℤ b a) (sort descending_compare.compare xs)
      × Perm (sort ascending_compare.compare xs) xs
      × Perm (sort descending_compare.compare xs) xs
policies_sort xs =
    let (up, p) = sort-IsSorted _ ascending-IsOrder xs in
    let (down, q) = sort-IsSorted _ descending-IsOrder xs in (up, down, p, q)

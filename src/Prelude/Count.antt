-- ===== src/Prelude/Count.antt =====
-- How often a number is in a list.
use cpp_code.Prelude.{ℕ, ◌+◌, ◌≡◌, List, [], ◌∷◌, ◌++◌, arith, ◌==◌, if◌then◌else◌}

abbrev pub one_of : ℕ → ℕ → ℕ
one_of asked x = if asked == x then 1 else 0

abbrev pub times : ℕ → List ℕ → ℕ
times asked [] = 0
times asked (x ∷ xs) = one_of asked x + times asked xs

pub times-append :
    (asked : ℕ) (xs ys : List ℕ) → times asked (xs ++ ys) ≡ times asked xs + times asked ys
times-append asked [] ys = omega arith
times-append asked (x ∷ xs) ys = omega (arith, times-append asked xs ys)

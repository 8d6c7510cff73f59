-- ===== src/Policy/Sorter.antt =====
-- 014.template_policy.cpp, part 2: the compare and output policies and Sorter. What is written to
-- std::cout is a list of pieces.
pub mod Sorted
use cpp_code.Prelude.{
  ℕ, zero, suc, ◌+◌, ◌-◌, ◌*◌, ◌/◌, ◌%◌, ◌^◌, ◌≤◌, ◌<◌, ◌≡◌, refl, sym, ap, ap₂, ◌∙◌, subst, ◌≢◌,
  ◌↔◌, ◌⊎◌, inl, inr, Bool, true, false, not, ◌&&◌, ◌||◌, Option, none, some, List, [], ◌∷◌, ◌++◌,
  arith, ltb, leb, ◌==◌, if◌then◌else◌, Bool-cases, Option-cases, length,
}
use Prim.Native.String.{String}
use cpp_code.Prelude.Int.{ℤ, ltb_ℤ}

pub data Piece : Type 0 where
  text : String → Piece
  number : ℤ → Piece

-- A compare policy: compare(a, b), and its name.
pub record ComparePolicy : Type 0 where
  pub compare : ℤ → ℤ → Bool
  pub name : String

abbrev pub ascending_compare : ComparePolicy
ascending_compare = record { compare = ltb_ℤ; name = "升序" }

abbrev pub descending_compare : ComparePolicy
descending_compare = record { compare = λ a b. ltb_ℤ b a; name = "降序" }

unfoldable pub inline_output : List ℤ → List Piece
inline_output [] = text "\n" ∷ []
inline_output (v ∷ data_left) = number v ∷ text " " ∷ inline_output data_left

separated : List ℤ → List Piece
separated [] = text "]" ∷ text "\n" ∷ []
separated (v ∷ data_left) = text ", " ∷ number v ∷ separated data_left

bracketed : List ℤ → List Piece
unfolding separated
bracketed [] = text "]" ∷ text "\n" ∷ []
bracketed (v ∷ data_left) = number v ∷ separated data_left

unfoldable pub bracket_output : List ℤ → List Piece
unfolding bracketed
bracket_output values = text "[" ∷ bracketed values

-- The inner loop at an index i, on data[i] and the elements behind it: each that compares before
-- data[i] is swapped with it. The loop touches nothing before i.
unfoldable pub inner_loop : (ℤ → ℤ → Bool) → ℤ → List ℤ → ℤ × List ℤ
inner_loop compare x [] = (x, [])
inner_loop compare x (y ∷ ys) =
    let before = compare y x in
    let (least, rest) = inner_loop compare (if before then y else x) ys in
    (least, (if before then x else y) ∷ rest)

-- The outer loop from an index on, one unit of fuel for each index that is left.
outer_step : (List ℤ → List ℤ) → ℤ × List ℤ → List ℤ
outer_step next (least, rest) = least ∷ next rest

unfoldable pub outer_loop : (ℤ → ℤ → Bool) → ℕ → List ℤ → List ℤ
unfolding outer_step inner_loop
outer_loop compare zero values = values
outer_loop compare (suc fuel) [] = []
outer_loop compare (suc fuel) (x ∷ xs) =
    outer_step (outer_loop compare fuel) (inner_loop compare x xs)

unfoldable pub sort : (ℤ → ℤ → Bool) → List ℤ → List ℤ
unfolding outer_loop
sort compare values = outer_loop compare (length values) values

unfoldable pub sort_and_print : ComparePolicy → (List ℤ → List Piece) → List ℤ → List Piece
sort_and_print policy print values =
    text policy.name ∷ text "排序: " ∷ print (sort policy.compare values)

-- ===== src/AnyType/Tests.antt =====
-- The theorem on positions, with natural numbers written in tallies for std::stod.
use cpp_code.Prelude.{
  ℕ, zero, suc, ◌≡◌, refl, ap, Option, none, some, List, [], ◌∷◌, ◌++◌, arith, ◌==◌, if◌then◌else◌,
}
use cpp_code.AnyType.{
  AnyType, assign_text, get_string, get, copy_of, Position2D, semicolon, convert_from_string,
}
use cpp_code.AnyType.Position.{IsWithout, position_read}

-- A number is so many strokes, and a full stop ends it.
abbrev print : ℕ → List ℕ
print zero = 46 ∷ []
print (suc n) = 49 ∷ print n

abbrev counted : Option ℕ → Option ℕ
counted none = none
counted (some n) = some (suc n)

abbrev stod : List ℕ → Option ℕ
stod [] = none
stod (c ∷ str) = if c == 46 then some 0 else counted (stod str)

stod-print : (n : ℕ) → stod (print n) ≡ some n
stod-print zero = refl
stod-print (suc n) = ap counted (stod-print n)

print-IsWithout : (n : ℕ) → IsWithout semicolon (print n)
print-IsWithout zero = (λ e. omega (arith, e), tt)
print-IsWithout (suc n) = (λ e. omega (arith, e), print-IsWithout n)

abbrev two_three : Position2D ℕ
two_three = record { x = 2; y = 3 }

position_read_example :
    let convert = convert_from_string stod in
    let any' = assign_text (AnyType.text []) (print 2 ++ semicolon ∷ print 3) in
    (get convert any' ≡ some two_three)
    × ((copy : AnyType (Position2D ℕ)) × (copy_of convert any' ≡ some copy)
        × (get convert copy ≡ some two_three)
        × (get_string copy ≡ none))
    × (get convert (assign_text (AnyType.text []) (49 ∷ [])) ≡ none)
    × (copy_of convert (assign_text (AnyType.text []) (49 ∷ [])) ≡ none)
position_read_example =
    position_read stod print stod-print print-IsWithout (AnyType.text []) two_three (49 ∷ [])
      (λ e. omega (arith, e), tt)

-- ===== src/AnyType/Position.antt =====
-- A position read from a text, and from a copy.
use cpp_code.Prelude.{
  ℕ, suc, ◌+◌, ◌≡◌, refl, ap, ap₂, ◌∙◌, ◌≢◌, Option, none, some, List, [], ◌∷◌, ◌++◌, arith, length,
  take, drop,
}
use cpp_code.AnyType.{
  AnyType, assign_text, get_string, get, copy_of, Position2D, semicolon, find_from, both, parts,
  convert_from_string,
}

abbrev pub IsWithout : ℕ → List ℕ → Type 0
IsWithout c [] = Unit {0}
IsWithout c (d ∷ str) = (d ≢ c) × IsWithout c str

find_from-append :
    (c : ℕ) (left right : List ℕ) (position : ℕ)
    → IsWithout c left
    → find_from c (left ++ c ∷ right) position ≡ some (position + length left)
unfolding find_from
find_from-append c [] right position w = ground arith
find_from-append c (d ∷ left) right position w =
    ground (arith, find_from-append c left right (suc position) w.1)

find_from-start :
    (c : ℕ) (left right : List ℕ)
    → IsWithout c left
    → find_from c (left ++ c ∷ right) 0 ≡ some (length left)
find_from-start c left right w = find_from-append c left right 0 w ∙ ap (λ n. some n) (omega arith)

find_from-none :
    (c : ℕ) (str : List ℕ) (position : ℕ) → IsWithout c str → find_from c str position ≡ none
unfolding find_from
find_from-none c [] position w = refl
find_from-none c (d ∷ str) position w = ground (arith, find_from-none c str (suc position) w.1)

take-append : {A : Type 0} (left right : List A) → take (length left) (left ++ right) ≡ left
take-append [] right = refl
take-append (d ∷ left) right = ap (λ tail. d ∷ tail) (take-append left right)

drop-append :
    {A : Type 0} (left right : List A) (c : A)
    → drop (suc (length left)) (left ++ c ∷ right) ≡ right
drop-append [] right c = refl
drop-append (d ∷ left) right c = drop-append left right c

module _ {D : Type 0} (stod : List ℕ → Option D) where
  at_semicolon :
      (left right : List ℕ)
      → IsWithout semicolon left
      → convert_from_string stod (left ++ semicolon ∷ right) ≡ both (stod left) (stod right)
  unfolding convert_from_string parts
  at_semicolon left right w = rw (find_from-start semicolon left right w) (
      ap₂ (λ l r. both (stod l) (stod r)) (take-append left (semicolon ∷ right))
        (drop-append left right semicolon))

  without_semicolon : (str : List ℕ) → IsWithout semicolon str → convert_from_string stod str ≡ none
  unfolding convert_from_string parts
  without_semicolon str w = rw (find_from-none semicolon str 0 w) refl

  -- If std::stod reads what `print` writes, which has no semicolon: once a position's coordinates,
  -- printed with a semicolon between them, have been assigned as a text, get returns the position.
  -- A copy of the variable, which is not const, gives the same, but it holds the position and not
  -- the text: getString throws on it. After a text without a semicolon both get and the copy throw.
  pub position_read :
      (print : D → List ℕ)
      → ((d : D) → stod (print d) ≡ some d)
      → ((d : D) → IsWithout semicolon (print d))
      → (any : AnyType (Position2D D)) (p : Position2D D) (str : List ℕ) → IsWithout semicolon str
      → let convert = convert_from_string stod in
        let any' = assign_text any (print p.x ++ semicolon ∷ print p.y) in
        (get convert any' ≡ some p)
        × ((copy : AnyType (Position2D D)) × (copy_of convert any' ≡ some copy)
            × (get convert copy ≡ some p)
            × (get_string copy ≡ none))
        × (get convert (assign_text any str) ≡ none)
        × (copy_of convert (assign_text any str) ≡ none)
  unfolding get assign_text copy_of get_string
  position_read print reads clean any p str w =
      let read =
        at_semicolon (print p.x) (print p.y) (clean p.x) ∙ ap₂ both (reads p.x) (reads p.y) in
      let unread = without_semicolon str w in
      (read, (AnyType.value p, rw read refl, refl, refl), unread, rw unread refl)

-- ===== src/AnyType.antt =====
-- cpp_test/stand_cpp/003.any_test/003.any_test.cpp: AnyType, which holds a text or a value of type T,
-- and the conversion of a text to a Position2D. A text is the codes of its characters, a conversion
-- that throws is none, and std::stod is a parameter.
pub mod Position
mod Tests
use cpp_code.Prelude.{
  ℕ, zero, suc, ◌+◌, ◌-◌, ◌*◌, ◌/◌, ◌%◌, ◌^◌, ◌≤◌, ◌<◌, ◌≡◌, refl, sym, ap, ap₂, ◌∙◌, subst, ◌≢◌,
  ◌↔◌, ◌⊎◌, inl, inr, Bool, true, false, not, ◌&&◌, ◌||◌, Option, none, some, List, [], ◌∷◌, ◌++◌,
  arith, ltb, leb, ◌==◌, if◌then◌else◌, Bool-cases, Option-cases, take, drop,
}

pub data AnyType (T : Type 0) : Type 0 where
  text : List ℕ → AnyType T
  value : T → AnyType T

module _ {T : Type 0} where
  -- The assignments, whatever is held before.
  unfoldable pub assign_text : AnyType T → List ℕ → AnyType T
  assign_text any str = text str

  unfoldable pub assign_value : AnyType T → T → AnyType T
  assign_value any v = value v

  unfoldable pub is_string : AnyType T → Bool
  is_string (text str) = true
  is_string (value v) = false

  unfoldable pub get_string : AnyType T → Option (List ℕ)
  get_string (text str) = some str
  get_string (value v) = none

  unfoldable pub get_value : AnyType T → Option T
  get_value (text str) = none
  get_value (value v) = some v

  -- `convert` is detail::convertFromString<T>.
  unfoldable pub get : (List ℕ → Option T) → AnyType T → Option T
  get convert (text str) = convert str
  get convert (value v) = some v

  copied : Option T → Option (AnyType T)
  copied none = none
  copied (some v) = some (value v)

  -- AnyType<T> copy(any), where `any` is not const: AnyType(U&&) with U = AnyType<T>& fits better
  -- than the copy constructor, and makes the variant of what `any` converts to by operator T.
  unfoldable pub copy_of : (List ℕ → Option T) → AnyType T → Option (AnyType T)
  unfolding copied
  copy_of convert any = copied (get convert any)

pub record Position2D (D : Type 0) : Type 0 where
  pub x : D
  pub y : D

abbrev pub semicolon : ℕ
semicolon = 59

-- std::string::find, from a position on.
unfoldable pub find_from : ℕ → List ℕ → ℕ → Option ℕ
find_from c [] position = none
find_from c (d ∷ str) position =
    let later = find_from c str (suc position) in if d == c then some position else later

module _ {D : Type 0} where
  abbrev pub both : Option D → Option D → Option (Position2D D)
  both none second = none
  both (some x) none = none
  both (some x) (some y) = some (record { x = x; y = y })

  parts : (List ℕ → Option D) → List ℕ → Option ℕ → Option (Position2D D)
  parts stod str none = none
  parts stod str (some position) = both (stod (take position str)) (stod (drop (suc position) str))

  -- detail::convertFromString<Position2D>
  unfoldable pub convert_from_string : (List ℕ → Option D) → List ℕ → Option (Position2D D)
  unfolding parts
  convert_from_string stod str = parts stod str (find_from semicolon str 0)

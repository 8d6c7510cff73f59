-- ===== src/Constexpr.antt =====
-- cpp_test/stand_cpp/016.if_constexpr/016.if_constexpr.cpp: the concepts, isOk and test. A type is
-- what its declaration gives, a value the fields that it has; a branch of `if constexpr` is chosen by
-- the type, and none stands for a static_assert that fails.
pub mod Typing
mod Tests
use cpp_code.Prelude.Int.{ℤ, pos, negsuc}
use cpp_code.Prelude.{
  ℕ, zero, suc, ◌+◌, ◌-◌, ◌*◌, ◌/◌, ◌%◌, ◌^◌, ◌≤◌, ◌<◌, ◌≡◌, refl, sym, ap, ap₂, ◌∙◌, subst, ◌≢◌,
  ◌↔◌, ◌⊎◌, inl, inr, Bool, true, false, not, ◌&&◌, ◌||◌, Option, none, some, List, [], ◌∷◌, ◌++◌,
  arith, ltb, leb, ◌==◌, if◌then◌else◌, Bool-cases, Option-cases,
}

-- `int` stands for the integral types but bool, `other` for any further type.
pub data FieldType : Type 0 where
  bool int string other : FieldType

-- The type of an expression in double parentheses: a field is an lvalue.
pub data ExprType : Type 0 where
  value lvalue : FieldType → ExprType

pub data Value : FieldType → Type 0 where
  of_bool : Bool → Value bool
  of_int : ℤ → Value int
  of_string : ℕ → Value string
  of_other : Value other

pub record Struct : Type 0 where
  pub result : Option FieldType
  pub code : Option FieldType
  pub message : Option FieldType

unfoldable pub has_field : Option FieldType → Bool
has_field none = false
has_field (some T) = true

unfoldable pub has_result : Struct → Bool
unfolding has_field
has_result T = has_field T.result

unfoldable pub has_code : Struct → Bool
unfolding has_field
has_code T = has_field T.code

-- std::same_as
unfoldable pub same_as : ExprType → ExprType → Bool
same_as (value bool) (value bool) = true
same_as (value int) (value int) = true
same_as (value string) (value string) = true
same_as (lvalue bool) (lvalue bool) = true
same_as (lvalue int) (lvalue int) = true
same_as (lvalue string) (lvalue string) = true
same_as _ _ = false

message_same : Option FieldType → Bool
unfolding same_as
message_same none = false
message_same (some T) = same_as (lvalue T) (value string)

-- The requirement is on the type of `t.message` as an expression.
unfoldable pub has_message : Struct → Bool
unfolding message_same
has_message T = message_same T.message

pub data Fields : Option FieldType → Type 0 where
  absent : Fields none
  present : {T : FieldType} → Value T → Fields (some T)

pub record Object (T : Struct) : Type 0 where
  pub result : Fields T.result
  pub code : Fields T.code
  pub message : Fields T.message

is_zero : ℤ → Bool
is_zero (pos n) = n == 0
is_zero (negsuc n) = false

unfoldable pub is_ok : {T : FieldType} → Value T → Option Bool
unfolding is_zero
is_ok (of_bool b) = some b
is_ok (of_int n) = some (is_zero n)
is_ok (of_string s) = none
is_ok of_other = none

field_ok : {o : Option FieldType} → Fields o → Option Bool
unfolding is_ok
field_ok absent = none
field_ok (present v) = is_ok v

-- Whether the type has a result; whether it has a code.
chosen : {T : Struct} → Bool → Bool → Object T → Option Bool
unfolding field_ok
chosen true _ t = field_ok t.result
chosen false true t = field_ok t.code
chosen false false t = none

with_print : Bool → Option Bool → Option (Bool × Bool)
with_print p none = none
with_print p (some ok) = some (ok, p)

-- What test returns, and whether it prints the message.
unfoldable pub test : (T : Struct) → Object T → Option (Bool × Bool)
unfolding has_result has_code has_message chosen with_print
test T t = with_print (has_message T) (chosen (has_result T) (has_code T) t)

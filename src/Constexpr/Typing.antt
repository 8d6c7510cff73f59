-- ===== src/Constexpr/Typing.antt =====
-- Which types test is instantiated for, and what it returns and prints.
use cpp_code.Prelude.{
  ◌≡◌, refl, sym, ap, ◌∙◌, subst, ◌⊎◌, inl, inr, Bool, false, Option, none, some,
}
use cpp_code.Constexpr.{
  message_same, with_print, test, FieldType, bool, int, string, other, Value, of_bool, of_int,
  of_string, of_other, Struct, Fields, absent, present, Object, has_field, has_result, has_code,
  same_as, has_message, is_ok, field_ok, chosen,
}

-- The types that isOk takes.
abbrev pub IsTestable : FieldType → Type 0
IsTestable bool = Unit {0}
IsTestable int = Unit {0}
IsTestable string = ⊥
IsTestable other = ⊥

-- Which field decides: a result of a type that isOk takes, or, where there is no result, such a
-- code.
pub data Decides (F : FieldType) (T : Struct) : Type 0 where
  by_result : T.result ≡ some F → IsTestable F → Decides F T
  by_code : T.result ≡ none → T.code ≡ some F → IsTestable F → Decides F T

message_same-false : (o : Option FieldType) → message_same o ≡ false
unfolding message_same same_as
message_same-false none = refl
message_same-false (some bool) = refl
message_same-false (some int) = refl
message_same-false (some string) = refl
message_same-false (some other) = refl

is_ok-IsTestable :
    {F : FieldType} (v : Value F)
    → ((b : Bool) × (is_ok v ≡ some b) × IsTestable F) ⊎ ((is_ok v ≡ none) × (IsTestable F → ⊥))
unfolding is_ok
is_ok-IsTestable (of_bool b) = inl (b, refl, tt)
is_ok-IsTestable (of_int n) = inl (_, refl, tt)
is_ok-IsTestable (of_string s) = inr (refl, λ h. h)
is_ok-IsTestable of_other = inr (refl, λ h. h)

some_injective : {A : Type 0} (a b : A) → some a ≡ some b → a ≡ b
some_injective a b e = cc

result_testable :
    (F G : FieldType) (c m : Option FieldType)
    → Decides G (record { result = some F; code = c; message = m })
    → IsTestable F
result_testable F G c m (by_result e h) = subst IsTestable (sym (some_injective F G e)) h
result_testable F G c m (by_code e e' h) = cc

code_testable :
    (F G : FieldType) (m : Option FieldType)
    → Decides G (record { result = none; code = some F; message = m })
    → IsTestable F
code_testable F G m (by_result e h) = cc
code_testable F G m (by_code e e' h) = subst IsTestable (sym (some_injective F G e')) h

nothing-Decides :
    (G : FieldType) (m : Option FieldType)
    → ¬ Decides G (record { result = none; code = none; message = m })
nothing-Decides G m (by_result e h) = cc
nothing-Decides G m (by_code e e' h) = cc

-- What is to be shown of one object.
abbrev IsTyped : (T : Struct) → Object T → Type 0
IsTyped T t =
    ((F : FieldType) → Decides F T → (ok : Bool) × (test T t ≡ some (ok, false)))
    × ((ok p : Bool) → test T t ≡ some (ok, p) → (F : FieldType) × Decides F T)

none-some : {a : Bool × Bool} → none ≡ some a → ⊥
none-some e = cc

typed :
    (r c m : Option FieldType) (result : Fields r) (code : Fields c) (message : Fields m)
    → IsTyped
        (record { result = r; code = c; message = m })
        (record { result = result; code = code; message = message })
unfolding test has_result has_code has_message chosen with_print has_field field_ok
typed _ c m (present {T = F} v) code message = elim (is_ok-IsTestable v) [
  | inl (b, e, h) ↦ (λ G d. (b, rw (e, message_same-false m)), λ ok p e'. (F, by_result refl h))
  | inr (e, h) ↦ (
    λ G d. absurd (h (result_testable F G c m d)),
    λ ok p e'. absurd (none-some (ap (with_print (message_same m)) (sym e) ∙ e')),
  )
]
typed _ _ m absent (present {T = F} v) message = elim (is_ok-IsTestable v) [
  | inl (b, e, h) ↦ (λ G d. (b, rw (e, message_same-false m)), λ ok p e'. (F, by_code refl refl h))
  | inr (e, h) ↦ (
    λ G d. absurd (h (code_testable F G m d)),
    λ ok p e'. absurd (none-some (ap (with_print (message_same m)) (sym e) ∙ e')),
  )
]
typed _ _ m absent absent message =
    (λ G d. absurd (nothing-Decides G m d), λ ok p e. absurd (none-some e))

-- test is instantiated for a type exactly when its result is a bool or an integer, or it has no
-- result and such a code; then it returns for every object of the type, and it prints nothing: no
-- type satisfies HasMessage, since the type of `t.message` as an expression is a reference.
pub test_typed :
    (T : Struct) (t : Object T)
    → ((F : FieldType) → Decides F T → (ok : Bool) × (test T t ≡ some (ok, false)))
      × ((ok p : Bool) → test T t ≡ some (ok, p) → (F : FieldType) × Decides F T)
test_typed T t = typed T.result T.code T.message t.result t.code t.message

-- ===== src/Constexpr/Tests.antt =====
-- The theorems at the structs of the program.
use cpp_code.Prelude.{◌≡◌, refl, Bool, false, none, some}
use cpp_code.Prelude.Int.{pos}
use cpp_code.Constexpr.{
  FieldType, int, string, of_int, of_string, Struct, Object, absent, present, test,
}
use cpp_code.Constexpr.Typing.{Decides, by_result, test_typed}

-- struct Result and struct Code, and the program's objects of these types.
abbrev result_struct : Struct
result_struct = record { result = some int; code = none; message = some string }

abbrev failed_result : Object result_struct
failed_result = record {
  result = present (of_int (pos 1));
  code = absent;
  message = present (of_string 0);
}

test_typed_example :
    ((F : FieldType)
      → Decides F result_struct
      → (ok : Bool) × (test result_struct failed_result ≡ some (ok, false)))
    × ((ok p : Bool)
        → test result_struct failed_result ≡ some (ok, p)
        → (F : FieldType) × Decides F result_struct)
test_typed_example = test_typed result_struct failed_result

result-Decides : Decides int result_struct
result-Decides = by_result refl tt

failed_result-test : test result_struct failed_result ≡ some (false, false)
unfolding test
failed_result-test = refl

-- ===== src/Reducer/Tests.antt =====
-- The reducer's theorems at concrete calls.
use cpp_code.Prelude.{◌*◌, ◌≡◌, refl, inl, inr, List, [], ◌∷◌, arith}
use cpp_code.Prelude.Int.{ℤ, pos}
use cpp_code.Reducer.{new, run}
use cpp_code.Reducer.Invariant.{Inv}
use cpp_code.Reducer.Window.{documented_business, documented_run, AllDocumented, run-new_documented}

-- A business state, a quiet frame, one more business state, and one after the window has passed.
abbrev frames : List (ℤ × ℤ)
frames =
    (pos 0, pos 2)
    ∷ (pos 1000000, pos 0)
    ∷ (pos 2000000, pos 3)
    ∷ (pos 90000000, pos 0)
    ∷ (pos 95000000, pos 6)
    ∷ []

frames_documented : AllDocumented frames
unfolding documented_business
frames_documented =
    (inr (inl refl), (inl refl, (inr (inl refl), (inl refl, (inr (inr (omega arith)), tt)))))

run-new_documented_example :
    (run (new 50 3) frames).1 ≡ documented_run (pos (50 * 1000000)) 3 [] frames
run-new_documented_example = run-new_documented 50 3 frames (omega arith) frames_documented

fresh_Inv : Inv (new 50 3)
unfolding new
fresh_Inv = record {
  fits = omega arith;
  bounded = inr refl;
  shut_empty = λ _. refl;
  count_last = λ _. refl;
}

-- ===== src/Policy/Tests.antt =====
-- The sorter's theorems at concrete numbers.
use cpp_code.Prelude.{◌≡◌, refl, List, [], ◌∷◌}
use cpp_code.Prelude.Int.{ℤ, pos, negsuc, ltb_ℤ}
use cpp_code.Policy.Sorter.{ascending_compare, descending_compare, sort, inner_loop, outer_loop}
use cpp_code.Policy.Sorter.Sorted.{IsSorted, policies_sort}
use mathlib.Core.List.{Perm}
use cpp_code.Policy.Plugins.{spin_lock, color_log}
use cpp_code.Policy.Plugins.Lookup.{Rearranged, exchange}

abbrev numbers : List ℤ
numbers = pos 3 ∷ negsuc 0 ∷ pos 3 ∷ pos 0 ∷ []

policies_sort_example :
    IsSorted ltb_ℤ (sort ascending_compare.compare numbers)
    × IsSorted (λ a b. ltb_ℤ b a) (sort descending_compare.compare numbers)
    × Perm (sort ascending_compare.compare numbers) numbers
    × Perm (sort descending_compare.compare numbers) numbers
policies_sort_example = policies_sort numbers

sort-numbers : sort ascending_compare.compare numbers ≡ negsuc 0 ∷ pos 0 ∷ pos 3 ∷ pos 3 ∷ []
unfolding sort outer_loop inner_loop
sort-numbers = refl

lock_and_log : Rearranged (spin_lock ∷ color_log ∷ []) (color_log ∷ spin_lock ∷ [])
lock_and_log = exchange spin_lock color_log [] refl

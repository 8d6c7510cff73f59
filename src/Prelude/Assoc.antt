-- ===== src/Prelude/Assoc.antt =====
-- Maps from numbers, as association lists.
use cpp_code.Prelude.{ℕ, ◌≡◌, Option, none, some, List, [], ◌∷◌, arith, ◌==◌, if◌then◌else◌, refl}

module _ {ℓ} {V : Type ℓ} where
  -- m[key] = v
  unfoldable pub put : List (ℕ × V) → ℕ → V → List (ℕ × V)
  put [] key v = (key, v) ∷ []
  put ((k, kept) ∷ m) key v =
      let rest = put m key v in if k == key then (key, v) ∷ m else (k, kept) ∷ rest

  unfoldable pub find : List (ℕ × V) → ℕ → Option V
  find [] key = none
  find ((k, kept) ∷ m) key = let rest = find m key in if k == key then some kept else rest

  pub find-put :
      (m : List (ℕ × V)) (key : ℕ) (v : V) (asked : ℕ)
      → find (put m key v) asked ≡ (if key == asked then some v else find m asked)
  unfolding find put
  find-put [] key v asked = refl
  find-put ((k, kept) ∷ m) key v asked = ground (arith, find-put m key v asked)

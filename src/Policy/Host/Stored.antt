-- ===== src/Policy/Host/Stored.antt =====
-- What a repository holds.
use cpp_code.Prelude.{
  ◌≡◌, refl, sym, ap, ap₂, ◌∙◌, Bool, true, List, [], ◌∷◌, ◌++◌, arith, if◌then◌else◌, append-nil,
  map, append_assoc,
}
use cpp_code.Prelude.Int.{ℤ, pos, ltb_ℤ}
use cpp_code.Policy.Host.{
  ValidationPolicy, Repository, add, adds, strict_validation, strict_validate, no_validation,
}

abbrev pub is_valid : ValidationPolicy → ℤ → Bool
is_valid p v = (p.validate v).0

pub valid : ValidationPolicy → List ℤ → List ℤ
valid p [] = []
valid p (v ∷ values) = let rest = valid p values in if is_valid p v then v ∷ rest else rest

add_state :
    (r : Repository) (v : ℤ)
    → let (r', done, said) = add r v in
      (r'.stored ≡ r.stored ++ valid r.validation_policy (v ∷ []))
      × (r'.validation_policy ≡ r.validation_policy)
      × (done ≡ is_valid r.validation_policy v)
unfolding add valid
add_state r v = ground (arith, append-nil r.stored)

valid-cons :
    (p : ValidationPolicy) (v : ℤ) (values : List ℤ)
    → valid p (v ∷ []) ++ valid p values ≡ valid p (v ∷ values)
unfolding valid
valid-cons p v values = ground arith

keep_state :
    (r : Repository) (values : List ℤ)
    → let (last, dones) = adds r values in
      (last.stored ≡ r.stored ++ valid r.validation_policy values)
      × (dones ≡ map (is_valid r.validation_policy) values)
unfolding adds
keep_state r [] = (unfold valid in sym (append-nil r.stored), refl)
keep_state r (v ∷ values) =
    let (one, same, done) = add_state r v in
    let (more, dones) = keep_state (add r v).0 values in
    (
      more
          ∙ ap₂ (λ kept p. kept ++ valid p values) one same
          ∙ append_assoc r.stored (valid r.validation_policy (v ∷ []))
              (valid r.validation_policy values)
          ∙ ap (λ kept. r.stored ++ kept) (valid-cons r.validation_policy v values),
      ap₂ ◌∷◌ done (dones ∙ ap (λ p. map (is_valid p) values) same),
    )

pub AllStrict : List ℤ → Type 0
AllStrict [] = Unit {0}
AllStrict (v ∷ values) = (ltb_ℤ (pos 0) v ≡ true) × (ltb_ℤ v (pos 1000) ≡ true) × AllStrict values

valid-AllStrict : (values : List ℤ) → AllStrict (valid strict_validation values)
unfolding AllStrict valid strict_validate
valid-AllStrict [] = tt
valid-AllStrict (v ∷ values) = ground (arith, valid-AllStrict values)

valid-no_validation : (values : List ℤ) → valid no_validation values ≡ values
unfolding valid
valid-no_validation [] = refl
valid-no_validation (v ∷ values) = ap (λ rest. v ∷ rest) (valid-no_validation values)

-- After any calls of add a repository holds what it held and then, in the order of the calls, just
-- the values that its validation policy accepts; each call returned whether its value is accepted.
-- What the strict policy accepts lies between 1 and 999, and without validation nothing is left out.
pub adds_stored :
    (r : Repository) (values : List ℤ)
    → let (last, dones) = adds r values in
      (last.stored ≡ r.stored ++ valid r.validation_policy values)
      × (dones ≡ map (is_valid r.validation_policy) values)
      × AllStrict (valid strict_validation values)
      × (valid no_validation values ≡ values)
adds_stored r values =
    let (stored, dones) = keep_state r values in
    (stored, dones, valid-AllStrict values, valid-no_validation values)

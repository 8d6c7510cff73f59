-- ===== src/Policy/Plugins/Lookup.antt =====
-- The order of a host's policies.
use cpp_code.Prelude.{
  ◌≡◌, refl, ap, ◌∙◌, inl, inr, true, false, List, ◌∷◌, arith, if◌then◌else◌, Bool-cases, [], ◌++◌,
}
use cpp_code.Prelude.Int.{ℤ}
use cpp_code.Policy.Plugins.{
  Tag, Plugin, same_tag, default_of, find_policy, host_add, plugin_host, validate_tag, lock_tag,
  log_tag,
}

-- The same policies in another order: two that change places have different tags.
pub data Rearranged : List Plugin → List Plugin → Type 0 where
  keep : (policies : List Plugin) → Rearranged policies policies
  behind : (p : Plugin) {ps qs : List Plugin} → Rearranged ps qs → Rearranged (p ∷ ps) (p ∷ qs)
  exchange :
      (p q : Plugin) (ps : List Plugin)
      → same_tag p.policy_tag q.policy_tag ≡ false
      → Rearranged (p ∷ q ∷ ps) (q ∷ p ∷ ps)
  then_again : {ps qs rs : List Plugin} → Rearranged ps qs → Rearranged qs rs → Rearranged ps rs

tags_apart : (a b t : Tag) → same_tag a b ≡ false → same_tag a t ≡ true → same_tag b t ≡ false
tags_apart a b t apart e = ground arith

find-exchange :
    (tag : Tag) (default p q : Plugin) (ps : List Plugin)
    → same_tag p.policy_tag q.policy_tag ≡ false
    → find_policy tag default (p ∷ q ∷ ps) ≡ find_policy tag default (q ∷ p ∷ ps)
unfolding find_policy
find-exchange tag default p q ps apart = elim (Bool-cases (same_tag p.policy_tag tag)) [
  | inl e ↦ rw (e, tags_apart p.policy_tag q.policy_tag tag apart e) refl
  | inr e ↦ rw e refl
]

find-Rearranged :
    (tag : Tag) (default : Plugin) {ps qs : List Plugin}
    → Rearranged ps qs
    → find_policy tag default ps ≡ find_policy tag default qs
unfolding find_policy
find-Rearranged tag default (keep policies) = refl
find-Rearranged tag default (behind p r) =
    ap (λ rest. if same_tag p.policy_tag tag then p else rest) (find-Rearranged tag default r)
find-Rearranged tag default (exchange p q ps apart) = find-exchange tag default p q ps apart
find-Rearranged tag default (then_again r r') =
    find-Rearranged tag default r ∙ find-Rearranged tag default r'

same_host :
    (ps qs : List Plugin) (stored : List ℤ)
    → Rearranged ps qs
    → plugin_host ps stored ≡ plugin_host qs stored
unfolding plugin_host
same_host ps qs stored r =
    rw
      (
        find-Rearranged lock_tag (default_of lock_tag) r,
        find-Rearranged log_tag (default_of log_tag) r,
        find-Rearranged validate_tag (default_of validate_tag) r,
      )
      refl

-- The order in which a host is given its policies does not matter, as long as those that change
-- places are of different kinds: add stores, returns and prints the same. A host without policies
-- accepts every value and prints nothing.
pub host_add-Rearranged :
    (ps qs : List Plugin) (stored : List ℤ) (v : ℤ)
    → Rearranged ps qs
    → (host_add (plugin_host ps stored) v ≡ host_add (plugin_host qs stored) v)
      × (host_add (plugin_host [] stored) v ≡ (plugin_host [] (stored ++ v ∷ []), true, []))
unfolding host_add
host_add-Rearranged ps qs stored v r =
    (ap (λ h. host_add h v) (same_host ps qs stored r), unfold plugin_host in refl)

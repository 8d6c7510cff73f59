-- ===== src/Policy/Plugins.antt =====
-- 014.template_policy.cpp, part 6: FindPolicy and PluginHost. A policy is a type with a tag and the
-- functions of its kind: here a record of a tag and all functions, of which a host calls those of
-- the tag's kind only.
pub mod Lookup
use cpp_code.Prelude.{
  ℕ, zero, suc, ◌+◌, ◌-◌, ◌*◌, ◌/◌, ◌%◌, ◌^◌, ◌≤◌, ◌<◌, ◌≡◌, refl, sym, ap, ap₂, ◌∙◌, subst, ◌≢◌,
  ◌↔◌, ◌⊎◌, inl, inr, Bool, true, false, not, ◌&&◌, ◌||◌, Option, none, some, List, [], ◌∷◌, ◌++◌,
  arith, ltb, leb, ◌==◌, if◌then◌else◌, Bool-cases, Option-cases,
}
use cpp_code.Prelude.Int.{ℤ, pos, leb_ℤ}
use cpp_code.Policy.Sorter.{Piece, text, number}

pub data Tag : Type 0 where
  lock_tag log_tag validate_tag : Tag

abbrev pub same_tag : Tag → Tag → Bool
same_tag lock_tag lock_tag = true
same_tag log_tag log_tag = true
same_tag validate_tag validate_tag = true
same_tag a b = false

pub record Plugin : Type 0 where
  pub policy_tag : Tag
  pub lock : List Piece
  pub unlock : List Piece
  pub log : List Piece → List Piece
  pub validate : ℤ → Bool × List Piece

abbrev pub default_of : Tag → Plugin
default_of tag = record {
  policy_tag = tag;
  lock = [];
  unlock = [];
  log = λ msg. [];
  validate = λ v. (true, []);
}

abbrev pub spin_lock : Plugin
spin_lock = record (default_of lock_tag) {
  lock = text "    [spinlock locked]\n" ∷ [];
  unlock = text "    [spinlock unlocked]\n" ∷ [];
}

abbrev pub color_log : Plugin
color_log = record (default_of log_tag) {
  log = λ msg. (text "    \033[32m[log]\033[0m " ∷ msg) ++ text "\n" ∷ [];
}

range_validated : ℤ → Bool × List Piece
range_validated v =
    let ok = leb_ℤ (pos 0) v && leb_ℤ v (pos 100) in
    (ok, (if ok then [] else text "    [range] REJECTED: " ∷ number v ∷ text "\n" ∷ []))

unfoldable pub range_validate : Plugin
unfolding range_validated
range_validate = record (default_of validate_tag) { validate = range_validated }

-- FindPolicy: the first policy of the tag, or the default.
unfoldable pub find_policy : Tag → Plugin → List Plugin → Plugin
find_policy tag default [] = default
find_policy tag default (head ∷ tail) =
    let rest = find_policy tag default tail in if same_tag head.policy_tag tag then head else rest

-- PluginHost: the policies that it inherits from, and its data.
pub record PluginHost : Type 0 where
  pub lock_p : Plugin
  pub log_p : Plugin
  pub validate_p : Plugin
  pub stored : List ℤ

-- A host with the policies that it is given.
unfoldable pub plugin_host : List Plugin → List ℤ → PluginHost
unfolding find_policy
plugin_host policies stored = record {
  lock_p = find_policy lock_tag (default_of lock_tag) policies;
  log_p = find_policy log_tag (default_of log_tag) policies;
  validate_p = find_policy validate_tag (default_of validate_tag) policies;
  stored = stored;
}

-- The host after the call, what the call returns, and what it prints.
host_added : PluginHost → ℤ → Bool × List Piece → PluginHost × Bool × List Piece
host_added h v (false, said) =
    (h, false, said ++ h.log_p.log (text "Validation failed: " ∷ number v ∷ []))
host_added h v (true, said) = (
  record h { stored = h.stored ++ v ∷ [] },
  true,
  said ++ (h.lock_p.lock ++ (h.lock_p.unlock ++ h.log_p.log (text "Added: " ∷ number v ∷ []))),
)

unfoldable pub host_add : PluginHost → ℤ → PluginHost × Bool × List Piece
unfolding host_added
host_add h v = host_added h v (h.validate_p.validate v)

-- ===== src/Policy/Host.antt =====
-- 014.template_policy.cpp, part 5: Repository, which has one policy of each of three kinds, and the
-- policies. A policy is a record of its functions, and what it prints is returned.
pub mod Stored
use cpp_code.Prelude.{
  ℕ, zero, suc, ◌+◌, ◌-◌, ◌*◌, ◌/◌, ◌%◌, ◌^◌, ◌≤◌, ◌<◌, ◌≡◌, refl, sym, ap, ap₂, ◌∙◌, subst, ◌≢◌,
  ◌↔◌, ◌⊎◌, inl, inr, Bool, true, false, not, ◌&&◌, ◌||◌, Option, none, some, List, [], ◌∷◌, ◌++◌,
  arith, ltb, leb, ◌==◌, if◌then◌else◌, Bool-cases, Option-cases,
}
use cpp_code.Prelude.Int.{ℤ, pos, ltb_ℤ}
use cpp_code.Policy.Sorter.{Piece, text, number}
use Prim.Native.String.{String}

pub record ThreadPolicy : Type 0 where
  pub lock : List Piece
  pub unlock : List Piece
  pub thread_policy_name : String

abbrev pub no_lock : ThreadPolicy
no_lock = record { lock = []; unlock = []; thread_policy_name = "NoLock" }

abbrev pub mutex_lock : ThreadPolicy
mutex_lock = record {
  lock = text "    [mutex locked]\n" ∷ [];
  unlock = text "    [mutex unlocked]\n" ∷ [];
  thread_policy_name = "MutexLock";
}

pub record LogPolicy : Type 0 where
  pub log : List Piece → List Piece
  pub log_policy_name : String

abbrev pub stdout_log : LogPolicy
stdout_log = record {
  log = λ msg. (text "    [log] " ∷ msg) ++ text "\n" ∷ [];
  log_policy_name = "StdoutLog";
}

abbrev pub silent_log : LogPolicy
silent_log = record { log = λ msg. []; log_policy_name = "SilentLog" }

-- What validate returns and prints.
pub record ValidationPolicy : Type 0 where
  pub validate : ℤ → Bool × List Piece
  pub validation_policy_name : String

strict_test : ℤ → Bool
strict_test v = ltb_ℤ (pos 0) v && ltb_ℤ v (pos 1000)

unfoldable pub strict_validate : ℤ → Bool × List Piece
unfolding strict_test
strict_validate v =
    let ok = strict_test v in
    (ok, (if ok then [] else text "    [validate] REJECTED: " ∷ number v ∷ text "\n" ∷ []))

abbrev pub strict_validation : ValidationPolicy
strict_validation = record { validate = strict_validate; validation_policy_name = "Strict" }

abbrev pub no_validation : ValidationPolicy
no_validation = record { validate = λ v. (true, []); validation_policy_name = "None" }

pub record Repository : Type 0 where
  pub thread_policy : ThreadPolicy
  pub log_policy : LogPolicy
  pub validation_policy : ValidationPolicy
  pub stored : List ℤ

unfoldable pub describe : Repository → List Piece
describe r =
    text "  Repository<"
    ∷ text r.thread_policy.thread_policy_name
    ∷ text ", "
    ∷ text r.log_policy.log_policy_name
    ∷ text ", "
    ∷ text r.validation_policy.validation_policy_name
    ∷ text ">\n"
    ∷ []

-- The repository after the call, what the call returns, and what it prints.
added : Repository → ℤ → Bool × List Piece → Repository × Bool × List Piece
added r v (false, said) =
    (r, false, said ++ r.log_policy.log (text "Validation failed for value: " ∷ number v ∷ []))
added r v (true, said) = (
  record r { stored = r.stored ++ v ∷ [] },
  true,
  said
      ++ (r.thread_policy.lock
          ++ (r.thread_policy.unlock ++ r.log_policy.log (text "Added value: " ∷ number v ∷ []))),
)

unfoldable pub add : Repository → ℤ → Repository × Bool × List Piece
unfolding added
add r v = added r v (r.validation_policy.validate v)

separated : List ℤ → List Piece
separated [] = text "]\n" ∷ []
separated (v ∷ values) = text ", " ∷ number v ∷ separated values

unfoldable pub printed : List ℤ → List Piece
unfolding separated
printed [] = text "  data: [" ∷ text "]\n" ∷ []
printed (v ∷ values) = text "  data: [" ∷ number v ∷ separated values

-- Some calls of add: the repository afterwards, and what the calls returned.
unfoldable pub adds : Repository → List ℤ → Repository × List Bool
unfolding add
adds r [] = (r, [])
adds r (v ∷ values) =
    let (r', done, said) = add r v in let (last, dones) = adds r' values in (last, done ∷ dones)

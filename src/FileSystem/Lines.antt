-- ===== src/FileSystem/Lines.antt =====
-- utils/filesystem_wrapper/filesystem_wrapper.cpp: detail::Trim, readFileContent and
-- getFileFirstNotEmptyLine. A text is a list of byte codes; a file that cannot be opened is none.
pub mod Laws
use cpp_code.Prelude.{
  ℕ, zero, suc, ◌+◌, ◌-◌, ◌*◌, ◌/◌, ◌%◌, ◌^◌, ◌≤◌, ◌<◌, ◌≡◌, refl, sym, ap, ap₂, ◌∙◌, subst, ◌≢◌,
  ◌↔◌, ◌⊎◌, inl, inr, Bool, true, false, not, ◌&&◌, ◌||◌, Option, none, some, List, [], ◌∷◌, ◌++◌,
  arith, ltb, leb, ◌==◌, if◌then◌else◌, Bool-cases, Option-cases,
}

-- \s of the regular expression: space, \t, \n, \v, \f and \r.
unfoldable pub is_space : ℕ → Bool
is_space c = c == b' ' || (leb 9 c && leb c 13)

unfoldable pub drop_spaces : List ℕ → List ℕ
drop_spaces [] = []
drop_spaces (c ∷ cs) = if is_space c then drop_spaces cs else c ∷ cs

-- The text up to its last byte that is no space.
unfoldable pub drop_trailing : List ℕ → List ℕ
drop_trailing [] = []
drop_trailing (c ∷ cs) =
    let rest = drop_trailing cs in
    elim rest [ [] ↦ if is_space c then [] else c ∷ [] | d ∷ ds ↦ c ∷ d ∷ ds ]

-- What regex_replace leaves of the text: `^\s+` and `\s+$` are taken out.
unfoldable pub trim : List ℕ → List ℕ
trim cs = drop_trailing (drop_spaces cs)

-- The lines that std::getline gives: a last line that is empty is not given.
add_char : ℕ → List (List ℕ) → List (List ℕ)
add_char c [] = (c ∷ []) ∷ []
add_char c (line ∷ lines) = (c ∷ line) ∷ lines

unfoldable pub get_lines : List ℕ → List (List ℕ)
unfolding add_char
get_lines [] = []
get_lines (c ∷ cs) = let rest = get_lines cs in if c == b'\n' then [] ∷ rest else add_char c rest

pub data ReadError : Type 0 where
  open_failed read_failed file_empty no_line : ReadError

pub data Expected (A : Type 0) : Type 0 where
  value : A → Expected A
  unexpected : ReadError → Expected A

-- The stream's flags after its buffer was read through istreambuf_iterator, which does not set
-- them: they are as after the open.
pub record Flags : Type 0 where
  pub failed : Bool
  pub at_end : Bool

after_open : Flags
after_open = record { failed = false; at_end = false }

unfoldable pub checked : Flags → List ℕ → Expected (List ℕ)
checked flags content =
    if flags.failed
    then unexpected read_failed
    else if flags.at_end
    then unexpected file_empty
    else value content

unfoldable pub read_file_content : Option (List ℕ) → Expected (List ℕ)
unfolding checked after_open
read_file_content none = unexpected open_failed
read_file_content (some bytes) = checked after_open bytes

unfoldable pub first_line : List (List ℕ) → Expected (List ℕ)
first_line [] = unexpected no_line
first_line (line ∷ lines) =
    let rest = first_line lines in elim (trim line) [ [] ↦ rest | c ∷ cs ↦ value (c ∷ cs) ]

first_of_content : Expected (List ℕ) → Expected (List ℕ)
unfolding first_line get_lines
first_of_content (unexpected e) = unexpected e
first_of_content (value content) = first_line (get_lines content)

unfoldable pub get_file_first_not_empty_line : Option (List ℕ) → Expected (List ℕ)
unfolding first_of_content read_file_content
get_file_first_not_empty_line file = first_of_content (read_file_content file)

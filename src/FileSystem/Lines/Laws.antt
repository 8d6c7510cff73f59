-- ===== src/FileSystem/Lines/Laws.antt =====
-- What trimming, splitting into lines and the search for a line amount to.
use cpp_code.Prelude.{
  ℕ, ◌≡◌, refl, sym, ap, ◌∙◌, ◌≢◌, ◌⊎◌, inl, inr, true, false, none, some, List, [], ◌∷◌, ◌++◌,
  arith, ◌==◌, if◌then◌else◌, Bool-cases,
}
use cpp_code.FileSystem.Lines.{
  is_space, drop_spaces, drop_trailing, trim, get_lines, add_char, open_failed, no_line, Expected,
  value, unexpected, read_file_content, first_line, get_file_first_not_empty_line,
}

abbrev pub AllSpace : List ℕ → Type 0
AllSpace [] = Unit {0}
AllSpace (c ∷ cs) = (is_space c ≡ true) × AllSpace cs

abbrev pub StartsClean : List ℕ → Type 0
StartsClean [] = Unit {0}
StartsClean (c ∷ cs) = is_space c ≡ false

abbrev pub EndsClean : List ℕ → Type 0
EndsClean [] = Unit {0}
EndsClean (c ∷ []) = is_space c ≡ false
EndsClean (c ∷ d ∷ cs) = EndsClean (d ∷ cs)

leading :
    (cs : List ℕ)
    → (lead : List ℕ) × (cs ≡ lead ++ drop_spaces cs) × AllSpace lead × StartsClean (drop_spaces cs)
unfolding drop_spaces
leading [] = ([], refl, tt, tt)
leading (c ∷ cs) = elim (Bool-cases (is_space c)) [
  | inl e ↦
      let (lead, same, spaces, clean) = leading cs in
      rw e (c ∷ lead, ap (◌∷◌ c) same, (e, spaces), clean)
  | inr e ↦ rw e ([], refl, tt, e)
]

abbrev Trailing : List ℕ → List ℕ → Type 0
Trailing cs kept = (trail : List ℕ) × (cs ≡ kept ++ trail) × AllSpace trail × EndsClean kept

Trailing-step :
    (c : ℕ) (cs kept : List ℕ)
    → Trailing cs kept
    → Trailing (c ∷ cs) (elim kept [ [] ↦ if is_space c then [] else c ∷ [] | d ∷ ds ↦ c ∷ d ∷ ds ])
Trailing-step c cs [] (trail, same, spaces, clean) = elim (Bool-cases (is_space c)) [
  | inl e ↦ rw e (c ∷ trail, ap (◌∷◌ c) same, (e, spaces), tt)
  | inr e ↦ rw e (trail, ap (◌∷◌ c) same, spaces, e)
]
Trailing-step c cs (d ∷ ds) (trail, same, spaces, clean) = (trail, ap (◌∷◌ c) same, spaces, clean)

trailing : (cs : List ℕ) → Trailing cs (drop_trailing cs)
unfolding drop_trailing
trailing [] = ([], refl, tt, tt)
trailing (c ∷ cs) = Trailing-step c cs (drop_trailing cs) (trailing cs)

drop_trailing-StartsClean : (cs : List ℕ) → StartsClean cs → StartsClean (drop_trailing cs)
unfolding drop_trailing
drop_trailing-StartsClean [] h = tt
drop_trailing-StartsClean (c ∷ cs) h = ground arith

-- Every text is some white space, then the trimmed text, then some white space; and the trimmed
-- text, unless it is empty, neither begins nor ends with white space.
pub trim_lem :
    (cs : List ℕ)
    → (lead : List ℕ) × (trail : List ℕ) × (cs ≡ lead ++ (trim cs ++ trail))
      × AllSpace lead
      × AllSpace trail
      × StartsClean (trim cs)
      × EndsClean (trim cs)
unfolding trim
trim_lem cs =
    let (lead, same, spaces, clean) = leading cs in
    let (trail, same', spaces', clean') = trailing (drop_spaces cs) in
    (
      lead,
      trail,
      same ∙ ap (◌++◌ lead) same',
      spaces,
      spaces',
      drop_trailing-StartsClean (drop_spaces cs) clean,
      clean',
    )

-- The lines, each ended by a newline.
pub unlines : List (List ℕ) → List ℕ
unlines [] = []
unlines (line ∷ lines) = line ++ (b'\n' ∷ unlines lines)

abbrev pub NoNewline : List ℕ → Type 0
NoNewline [] = Unit {0}
NoNewline (c ∷ cs) = (c ≢ b'\n') × NoNewline cs

abbrev pub AllNoNewline : List (List ℕ) → Type 0
AllNoNewline [] = Unit {0}
AllNoNewline (line ∷ lines) = NoNewline line × AllNoNewline lines

abbrev pub AreLines : List ℕ → List (List ℕ) → Type 0
AreLines content lines =
    AllNoNewline lines × ((unlines lines ≡ content) ⊎ (unlines lines ≡ content ++ (b'\n' ∷ [])))

add_char-AreLines :
    (c : ℕ) (cs : List ℕ) (lines : List (List ℕ))
    → c ≢ b'\n'
    → AreLines cs lines
    → AreLines (c ∷ cs) (add_char c lines)
unfolding add_char unlines
add_char-AreLines c cs [] nl (all, same) = ground arith
add_char-AreLines c cs (line ∷ lines) nl (all, same) = ground arith

newline-AreLines :
    (c : ℕ) (cs : List ℕ) (lines : List (List ℕ))
    → (c == b'\n') ≡ true
    → AreLines cs lines
    → AreLines (c ∷ cs) ([] ∷ lines)
unfolding unlines
newline-AreLines c cs lines nl (all, same) = ground arith

-- The lines that std::getline gives hold no newline, and written out again, each with a newline,
-- they are the text, or the text with one newline added.
pub get_lines_lem : (content : List ℕ) → AreLines content (get_lines content)
unfolding get_lines
get_lines_lem [] = (tt, unfold unlines in inl refl)
get_lines_lem (c ∷ cs) = elim (Bool-cases (c == b'\n')) [
  | inl e ↦ rw e (newline-AreLines c cs (get_lines cs) e (get_lines_lem cs))
  | inr e ↦ rw e (add_char-AreLines c cs (get_lines cs) (ground arith) (get_lines_lem cs))
]

abbrev pub AllBlank : List (List ℕ) → Type 0
AllBlank [] = Unit {0}
AllBlank (line ∷ lines) = (trim line ≡ []) × AllBlank lines

abbrev pub FirstLine : List (List ℕ) → Expected (List ℕ) → Type 0
FirstLine lines r =
    (AllBlank lines × (r ≡ unexpected no_line))
    ⊎ ((before : List (List ℕ)) × (line : List ℕ) × (after : List (List ℕ)) × (lines
          ≡ before ++ (line ∷ after))
        × AllBlank before
        × (trim line ≢ [])
        × (r ≡ value (trim line)))

FirstLine-step :
    (line t : List ℕ) (lines : List (List ℕ)) (r : Expected (List ℕ))
    → trim line ≡ t
    → FirstLine lines r
    → FirstLine (line ∷ lines) (elim t [ [] ↦ r | c ∷ cs ↦ value (c ∷ cs) ])
FirstLine-step line [] lines r e (inl (blank, same)) = inl ((e, blank), same)
FirstLine-step line [] lines r e (inr (before, found, after, split, blank, clean, same)) =
    inr (line ∷ before, found, after, ap (◌∷◌ line) split, (e, blank), clean, same)
FirstLine-step line (c ∷ cs) lines r e rest =
    inr ([], line, lines, refl, tt, (λ empty. cc), ap value (sym e))

first_line_lem : (lines : List (List ℕ)) → FirstLine lines (first_line lines)
unfolding first_line
first_line_lem [] = inl (tt, refl)
first_line_lem (line ∷ lines) = FirstLine-step line (trim line) lines _ refl (first_line_lem lines)

-- Of a file that can be opened getFileFirstNotEmptyLine returns the trimmed text of the first line
-- that is not all white space, and the error that no such line was found exactly if there is none;
-- of any other file, the error of the open. (An empty file is of the first kind: it is not reported
-- as empty.)
pub get_file_first_not_empty_line_lem :
    (bytes : List ℕ)
    → FirstLine (get_lines bytes) (get_file_first_not_empty_line (some bytes))
      × (get_file_first_not_empty_line none ≡ unexpected open_failed)
      × (read_file_content (some bytes) ≡ value bytes)
unfolding get_file_first_not_empty_line read_file_content
get_file_first_not_empty_line_lem bytes = (first_line_lem (get_lines bytes), refl, refl)

-- ===== src/FileSystem/Tests.antt =====
-- The theorems on files at concrete texts and answers.
use cpp_code.Prelude.{ℕ, ◌≤◌, ◌≡◌, refl, ◌↔◌, true, false, none, some, List, [], ◌∷◌, length}
use cpp_code.FileSystem.Atomic.{
  Disk, Answers, Atomic, atomic_write_file, construct, write, commit, destruct,
  atomic_write_file-Atomic,
}

abbrev good : Answers
good = record {
  has_parent = true;
  parent_exists = true;
  created = false;
  opened = true;
  written = 3;
  flushed = true;
  has_fileno = true;
  synced = true;
  dir_opened = true;
  renamed = true;
  dir_synced = false;
  dir_closed = true;
}

-- The target has contents, and a temporary file was left over.
abbrev before : Disk ℕ
before = record { target = some (9 ∷ []); temp = some (8 ∷ []) }

abbrev after : Disk ℕ
after = record { target = some (1 ∷ 2 ∷ 3 ∷ []); temp = none }

written_lem : atomic_write_file good before (1 ∷ 2 ∷ 3 ∷ []) ≡ some (after, true)
unfolding atomic_write_file construct write commit destruct
written_lem = refl

atomic_write_file-Atomic_example :
    Atomic before (1 ∷ 2 ∷ 3 ∷ []) after true
    × ((true ≡ true) ↔ (
        (good.opened ≡ true)
        × (length {A = ℕ} (1 ∷ 2 ∷ 3 ∷ []) ≤ good.written)
        × (good.flushed ≡ true)
        × (good.has_fileno ≡ true)
        × (good.synced ≡ true)
        × (good.renamed ≡ true)))
atomic_write_file-Atomic_example =
    atomic_write_file-Atomic good before after (1 ∷ 2 ∷ 3 ∷ []) true written_lem

-- A blank line, a line with spaces on both sides, and a last line.
abbrev content : List ℕ
content = b'\n' ∷ b' ' ∷ b'a' ∷ b' ' ∷ b'b' ∷ b' ' ∷ b'\n' ∷ b'c' ∷ []

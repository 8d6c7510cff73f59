-- ===== src/FileSystem/Atomic.antt =====
-- utils/filesystem_wrapper/atomic_file_writer.cpp, and atomicWriteFile of filesystem_wrapper.cpp.
-- Of the disk the model keeps the two files concerned, the target and its temporary neighbour. What
-- each call of the system answers is given beforehand, in `Answers`; a crash is not an answer.
use cpp_code.Prelude.{
  length-take-le, ℕ, zero, suc, ◌≤◌, ◌≡◌, refl, ap, ◌↔◌, Bool, true, false, not, ◌&&◌, Option, none,
  some, List, [], ◌∷◌, ◌++◌, arith, ◌==◌, if◌then◌else◌, take, length,
}

pub record Disk (A : Type 0) : Type 0 where
  pub target : Option (List A)
  pub temp : Option (List A)

-- The answers of create_directories (false: it throws), fopen, fwrite (how much it took), fflush,
-- fileno, fsync, the open of the directory, rename, and the directory's fsync and close.
pub record Answers : Type 0 where
  pub has_parent : Bool
  pub parent_exists : Bool
  pub created : Bool
  pub opened : Bool
  pub written : ℕ
  pub flushed : Bool
  pub has_fileno : Bool
  pub synced : Bool
  pub dir_opened : Bool
  pub renamed : Bool
  pub dir_synced : Bool
  pub dir_closed : Bool

-- The object: the open FILE with what it buffers, or a null pointer.
pub record Writer (A : Type 0) : Type 0 where
  pub file : Option (List A)
  pub disk : Disk A

module _ {A : Type 0} where
  open_temp : Answers → Disk A → Writer A
  open_temp a d =
      if a.opened
      then record { file = some []; disk = record d { temp = some [] } }
      else record { file = none; disk = d }

  -- The constructor: `none` where create_directories throws.
  unfoldable pub construct : Answers → Disk A → Option (Writer A)
  unfolding open_temp
  construct a d =
      if a.has_parent && not a.parent_exists && not a.created then none else some (open_temp a d)

  written_to : Writer A → Option (List A) → List A → ℕ → Writer A × Bool
  written_to w none bytes n = (w, false)
  written_to w (some buffered) bytes n =
      (record w { file = some (buffered ++ take n bytes) }, length (take n bytes) == length bytes)

  -- fwrite takes no more than it is given.
  unfoldable pub write : Answers → Writer A → List A → Writer A × Bool
  unfolding written_to
  write a w bytes = written_to w w.file bytes a.written

  rename_temp : Answers → Disk A → Disk A × Bool
  rename_temp a d =
      if a.renamed then (record { target = d.temp; temp = none }, true) else (d, false)

  -- After fclose: what was buffered is in the temporary file. The directory's descriptor is only
  -- synced and closed, and what these answer is only logged.
  closed : Answers → Writer A → List A → Writer A × Bool
  unfolding rename_temp
  closed a w buffered =
      let (disk, done) = rename_temp a (record w.disk { temp = some buffered }) in
      (record { file = none; disk = disk }, done)

  flushed_file : Answers → Writer A → List A → Writer A × Bool
  unfolding closed
  flushed_file a w buffered =
      if a.flushed
      then if a.has_fileno && a.synced
        then closed a w buffered
        else (record w { disk = record w.disk { temp = some buffered } }, false)
      else (w, false)

  committed : Answers → Writer A → Option (List A) → Writer A × Bool
  unfolding flushed_file
  committed a w none = (w, false)
  committed a w (some buffered) = flushed_file a w buffered

  unfoldable pub commit : Answers → Writer A → Writer A × Bool
  unfolding committed
  commit a w = committed a w w.file

  close_file : Writer A → Option (List A) → Disk A
  close_file w none = w.disk
  close_file w (some buffered) = record w.disk { temp = some buffered }

  -- The destructor closes the file and removes the temporary one if it is there.
  unfoldable pub destruct : Writer A → Disk A
  unfolding close_file
  destruct w = record (close_file w w.file) { temp = none }

  finish : Answers → Writer A × Bool → Disk A × Bool
  unfolding commit destruct
  finish a (w, false) = (destruct w, false)
  finish a (w, true) = let (w', done) = commit a w in (destruct w', done)

  used : Answers → Disk A → List A → Option (Writer A) → Option (Disk A × Bool)
  unfolding finish
  used a d bytes none = none
  used a d bytes (some w) = some (finish a (write a w bytes))

  -- `none` where the constructor threw, which leaves the disk as it was.
  unfoldable pub atomic_write_file : Answers → Disk A → List A → Option (Disk A × Bool)
  unfolding construct write used
  atomic_write_file a d bytes = used a d bytes (construct a d)

  -- What a call may leave: on true the target holds the bytes, on false what it held before; the
  -- temporary file is gone either way.
  pub record Atomic (d : Disk A) (bytes : List A) (d' : Disk A) (done : Bool) : Type 0 where
    pub success : done ≡ true → d'.target ≡ some bytes
    pub failure : done ≡ false → d'.target ≡ d.target
    pub cleaned : d'.temp ≡ none

  take_all : (n : ℕ) (bytes : List A) → length (take n bytes) ≡ length bytes → take n bytes ≡ bytes
  take_all zero [] h = refl
  take_all zero (x ∷ bytes) h = absurd (omega arith)
  take_all (suc n) [] h = refl
  take_all (suc n) (x ∷ bytes) h = ap (◌∷◌ x) (take_all n bytes (omega arith))

  take_longer : (n : ℕ) (bytes : List A) → length bytes ≤ n → length (take n bytes) ≡ length bytes
  take_longer zero [] h = refl
  take_longer zero (x ∷ bytes) h = absurd (omega arith)
  take_longer (suc n) [] h = refl
  take_longer (suc n) (x ∷ bytes) h = ap suc (take_longer n bytes (omega arith))

  -- Whatever the system's calls answer, with a temporary file left over from before or without: if
  -- the constructor does not throw, atomicWriteFile returns true and the target holds exactly the
  -- bytes, or returns false and the target is what it was; the temporary file is gone. It returns
  -- true exactly when the file was opened, took all bytes, was flushed and synced, and was renamed.
  pub atomic_write_file-Atomic :
      (a : Answers) (d d' : Disk A) (bytes : List A) (done : Bool)
      → atomic_write_file a d bytes ≡ some (d', done)
      → Atomic d bytes d' done
        × ((done ≡ true) ↔ (
            (a.opened ≡ true)
            × (length bytes ≤ a.written)
            × (a.flushed ≡ true)
            × (a.has_fileno ≡ true)
            × (a.synced ≡ true)
            × (a.renamed ≡ true)))
  unfolding atomic_write_file
  atomic_write_file-Atomic a d d' bytes done h =
      ground (
        arith,
        take_all a.written bytes,
        take_longer a.written bytes,
        length-take-le a.written bytes,
      )

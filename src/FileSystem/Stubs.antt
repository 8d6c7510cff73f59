-- ===== src/FileSystem/Stubs.antt =====
-- utils/filesystem_wrapper/filesystem_wrapper.cpp: the queries and operations of the wrapper that do
-- not look at the file system. Of it the model has what std::filesystem::exists and the clock
-- answer, as arguments; a path is a list of byte codes.
use cpp_code.Prelude.{ℕ, ◌≡◌, refl, Bool, true, Option, some, List, []}

abbrev pub FilePath : Type 0
FilePath = List ℕ

module _ {F : Type 0} where
  unfoldable pub is_path_exist : (F → FilePath → Bool) → F → FilePath → Bool
  is_path_exist exists fs path = exists fs path

  unfoldable pub is_file : F → FilePath → Bool
  is_file fs path = true

  unfoldable pub is_directory : F → FilePath → Bool
  is_directory fs path = true

  unfoldable pub is_file_exist : F → FilePath → Bool
  is_file_exist fs path = true

  unfoldable pub is_directory_exist : F → FilePath → Bool
  is_directory_exist fs path = true

  unfoldable pub has_read_permission : F → FilePath → Bool
  has_read_permission fs path = true

  unfoldable pub has_write_permission : F → FilePath → Bool
  has_write_permission fs path = true

  unfoldable pub has_execute_permission : F → FilePath → Bool
  has_execute_permission fs path = true

  -- The operations give the file system that they leave, and whether they succeeded.
  unfoldable pub create_directory_if_not_exists : F → FilePath → F × Bool
  create_directory_if_not_exists fs path = (fs, true)

  unfoldable pub delete_file : F → FilePath → F × Bool
  delete_file fs path = (fs, true)

  unfoldable pub delete_directory : F → FilePath → F × Bool
  delete_directory fs path = (fs, true)

  unfoldable pub delete_directory_contents : F → FilePath → F × Bool
  delete_directory_contents fs path = (fs, true)

  unfoldable pub copy_file : F → FilePath → FilePath → F × Bool
  copy_file fs src dst = (fs, true)

  unfoldable pub copy_directory : F → FilePath → FilePath → F × Bool
  copy_directory fs src dst = (fs, true)

  unfoldable pub copy_directory_contents : F → FilePath → FilePath → F × Bool
  copy_directory_contents fs src dst = (fs, true)

  unfoldable pub move_file : F → FilePath → FilePath → F × Bool
  move_file fs src dst = (fs, true)

  unfoldable pub move_directory : F → FilePath → FilePath → F × Bool
  move_directory fs src dst = (fs, true)

  unfoldable pub move_directory_contents : F → FilePath → FilePath → F × Bool
  move_directory_contents fs src dst = (fs, true)

  -- none stands for the error of tl::expected.
  unfoldable pub get_file_size : F → FilePath → Option ℕ
  get_file_size fs path = some 0

  unfoldable pub get_file_modification_time : ℕ → F → FilePath → Option ℕ
  get_file_modification_time now fs path = some now

  unfoldable pub get_file_creation_time : ℕ → F → FilePath → Option ℕ
  get_file_creation_time now fs path = some now

  unfoldable pub get_directory_contents : F → FilePath → Option (List FilePath)
  get_directory_contents fs path = some []

  unfoldable pub get_directory_contents_relative : F → FilePath → Option (List FilePath)
  get_directory_contents_relative fs path = some []

  -- deleteFile reports success and leaves the file.
  delete_file_keeps :
      (exists : F → FilePath → Bool) (fs : F) (path : FilePath)
      → let (fs', done) = delete_file fs path in
        (done ≡ true) × (is_path_exist exists fs' path ≡ is_path_exist exists fs path)
  unfolding delete_file is_path_exist
  delete_file_keeps exists fs path = (refl, refl)

  -- A move reports success, and the source is where it was.
  move_file_keeps :
      (exists : F → FilePath → Bool) (fs : F) (src dst : FilePath)
      → let (fs', done) = move_file fs src dst in
        (done ≡ true)
        × (is_path_exist exists fs' src ≡ is_path_exist exists fs src)
        × (is_path_exist exists fs' dst ≡ is_path_exist exists fs dst)
  unfolding move_file is_path_exist
  move_file_keeps exists fs src dst = (refl, refl, refl)

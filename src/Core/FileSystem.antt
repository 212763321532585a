-- ===== src/Core/FileSystem.antt =====
-- The local file system, `tokio::fs` and `std::fs`, as the crates call it: an interface over an
-- unknown state. A call that fails may change the state too.
use omni_fuse.Prelude.{ℕ, Bool, List, Option, ◌≡◌, ◌≢◌, Fallible, ok}
use omni_fuse.FilePath.{FilePath}

-- What `metadata` and `symlink_metadata` yield that the crates read; a time is `none` where the
-- platform lacks it.
pub record Metadata : Type 0 where
  pub len : ℕ
  pub accessed : Option ℕ
  pub modified : Option ℕ
  pub created : Option ℕ
  pub is_dir : Bool
  pub is_symlink : Bool
  pub mode : ℕ
  pub nlink : ℕ
  pub uid : ℕ
  pub gid : ℕ

pub record FileSystem : Type 1 where
  pub State : Type 0
  pub IoError : Type 0
  pub is_not_found : IoError → Bool
  pub metadata : FilePath → State → Fallible IoError Metadata
  pub symlink_metadata : FilePath → State → Fallible IoError Metadata
  pub read : FilePath → State → Fallible IoError (List ℕ)
  pub write : FilePath → List ℕ → State → Fallible IoError (Unit {0}) × State
  pub remove_file : FilePath → State → Fallible IoError (Unit {0}) × State
  pub rename : FilePath → FilePath → State → Fallible IoError (Unit {0}) × State
  pub symlink : FilePath → FilePath → State → Fallible IoError (Unit {0}) × State
  pub create_dir_all : FilePath → State → Fallible IoError (Unit {0}) × State
  pub set_len : FilePath → ℕ → State → Fallible IoError (Unit {0}) × State
  pub set_permissions : FilePath → ℕ → State → Fallible IoError (Unit {0}) × State

-- A file that was written holds the bytes, and the other files are as they were.
pub record IsLawful (F : FileSystem) : Type 0 where
  pub read-write :
      (p : FilePath) (bytes : List ℕ) (s : F.State)
      → (F.write p bytes s).0 ≡ ok tt
      → F.read p (F.write p bytes s).1 ≡ ok bytes
  pub read-write_ne :
      (p q : FilePath) (bytes : List ℕ) (s : F.State)
      → q ≢ p
      → F.read q (F.write p bytes s).1 ≡ F.read q s

-- ===== src/Core/Directories.antt =====
-- The calls on directories, links, times, extended attributes and the whole file system that the
-- crates make: `tokio::fs`, `std::fs`, the crates xattr and nix, as an interface over the state of
-- the file system.
use omni_fuse.Prelude.{ℕ, Bool, List, Option, Fallible}
use omni_fuse.FilePath.{FilePath, Name}
use omni_fuse.Core.FileSystem.{FileSystem}
use omni_fuse.Unifuse.Types.{StatFs}

-- What `std::fs::FileType` says.
pub record RawType : Type 0 where
  pub is_dir : Bool
  pub is_symlink : Bool

-- An entry of a directory; asking for its type can fail.
pub record RawEntry (IoError : Type 0) : Type 0 where
  pub file_name : Name
  pub file_type : Fallible IoError RawType

-- `read_dir` yields what each call of `next_entry` does. `statvfs` fails with the text of its error.
pub record Directories (F : FileSystem) : Type 0 where
  pub read_dir :
      FilePath → F.State → Fallible F.IoError (List (Fallible F.IoError (RawEntry F.IoError)))
  pub create_dir : FilePath → F.State → Fallible F.IoError (Unit {0}) × F.State
  pub remove_dir : FilePath → F.State → Fallible F.IoError (Unit {0}) × F.State
  pub read_link : FilePath → F.State → Fallible F.IoError FilePath
  pub open_to_read : FilePath → F.State → Fallible F.IoError (Unit {0})
  pub set_modified : FilePath → ℕ → F.State → Fallible F.IoError (Unit {0}) × F.State
  pub xattr_set : FilePath → Name → List ℕ → F.State → Fallible F.IoError (Unit {0}) × F.State
  pub xattr_get : FilePath → Name → F.State → Fallible F.IoError (Option (List ℕ))
  pub xattr_list : FilePath → F.State → Fallible F.IoError (List Name)
  pub xattr_remove : FilePath → Name → F.State → Fallible F.IoError (Unit {0}) × F.State
  pub statvfs : FilePath → F.State → Fallible (List ℕ) StatFs

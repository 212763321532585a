-- ===== src/Core/Vfs.antt =====
-- The virtual file system (crates/omnifuse-core/src/vfs.rs, `OmniFuseVfs` and its methods as a
-- `UniFuseFilesystem`): the table of open files over the file mutation pipeline, and the guards of
-- the directory calls. On Unix. Arguments that the source ignores are left out; the clock's answer is
-- an argument.
pub mod Session
pub mod Calls
pub mod Handles
pub mod Listing
pub mod Mounted
use omni_fuse.Prelude.{
  ℕ, ◌%◌, ◌^◌, Bool, true, ◌||◌, not, List, [], ◌∷◌, Option, none, some, ◌==◌, list_eq, nat_eq,
  if◌then◌else◌, fetch_add_one, Fallible, ok, err,
}
use omni_fuse.Prelude.Map.{Map, lookup, insert, erase}
use omni_fuse.FilePath.{FilePath, Name, join, components}
use omni_fuse.Core.TextMerge.Utf8.{from_utf8_lossy}
use omni_fuse.Core.FileSystem.{FileSystem, Metadata}
use omni_fuse.Core.Directories.{Directories, RawType, RawEntry}
use omni_fuse.Core.Backend.{Backend}
use omni_fuse.Core.Buffer.{Bytes}
use omni_fuse.Core.FileMutations
use omni_fuse.Core.FileMutations.{Pipeline, OpenFile, M, metadata_to_attr}
use omni_fuse.Unifuse.Types.{
  FsError, io, not_found, other, FileType, directory, symlink_type, regular_file, FileAttr,
  FileHandle, DirEntry, StatFs,
}

-- The fields that change. An `Arc<OpenFileMutation>` is its value, since none of its fields that are
-- read ever changes.
pub record Vfs (F : FileSystem) : Type 0 where
  pub local_dir : FilePath
  pub pipeline : Pipeline F
  pub open_files : Map FileHandle OpenFile
  pub next_fh : ℕ

abbrev pub V : FileSystem → Type 0 → Type 0
V F A = Vfs F → Fallible (FsError F.IoError) A × Vfs F

-- `map_err(FsError::Io)`
abbrev pub from_io : {E A : Type 0} → Fallible E A → Fallible (FsError E) A
from_io (ok a) = ok a
from_io (err e) = err (io e)

-- `to_string_lossy` and the two tests: `.git` and `.vfs`.
abbrev pub git_dir : Name
git_dir = b'.' ∷ b'g' ∷ b'i' ∷ b't' ∷ []

abbrev pub vfs_dir : Name
vfs_dir = b'.' ∷ b'v' ∷ b'f' ∷ b's' ∷ []

unfoldable pub is_hidden : Backend → FilePath → Name → Bool
is_hidden backend path name =
    let text = from_utf8_lossy name in
    if text == git_dir || text == vfs_dir
    then true
    else not (backend.should_track (join path (components name)))

unfoldable pub raw_kind : RawType → FileType
raw_kind t = if t.is_dir then directory else if t.is_symlink then symlink_type else regular_file

-- An entry whose type is not known ends the listing with an error.
abbrev add_entry :
    {E : Type 0}
    → Name
    → Fallible E RawType
    → Fallible (FsError E) (List DirEntry)
    → Fallible (FsError E) (List DirEntry)
add_entry name (err e) rest = err (io e)
add_entry name (ok t) (err e) = err e
add_entry name (ok t) (ok found) = ok (record { name = name; kind = raw_kind t } ∷ found)

-- The loop of `readdir`.
unfoldable pub read_entries :
    {E : Type 0}
    → Backend
    → FilePath
    → List (Fallible E (RawEntry E))
    → Fallible (FsError E) (List DirEntry)
read_entries backend path [] = ok []
read_entries backend path (err e ∷ entries) = err (io e)
read_entries backend path (ok entry ∷ entries) =
    let rest = read_entries backend path entries in
    if is_hidden backend path entry.file_name
    then rest
    else add_entry (from_utf8_lossy entry.file_name) entry.file_type rest

module _ {F : FileSystem} where
  -- `OmniFuseVfs::new_with_buffer_manager`, over a pipeline on the same directory.
  unfoldable pub new_vfs : FilePath → Pipeline F → Vfs F
  new_vfs local_dir pipeline = record {
    local_dir = local_dir;
    pipeline = pipeline;
    open_files = [];
    next_fh = 1;
  }

  infixl 5 ◌>>=◌ ◌>>◌
  abbrev pub ◌>>=◌ : {A B : Type 0} → V F A → (A → V F B) → V F B
  ◌>>=◌ m f s = let (result, s') = m s in elim result [ err e ↦ (err e, s') | ok a ↦ f a s' ]

  abbrev pub ◌>>◌ : {B : Type 0} → V F (Unit {0}) → V F B → V F B
  m >> k = m >>= λ _. k

  abbrev pub pure : {A : Type 0} → A → V F A
  pure a s = (ok a, s)

  -- A step of the pipeline, a call that reads the disk and one that writes it.
  abbrev pub through : {A : Type 0} → M F A → V F A
  through m s =
      let (result, pipeline) = m s.pipeline in (from_io result, record s { pipeline = pipeline })

  abbrev pub ask : {A : Type 0} → (F.State → Fallible F.IoError A) → V F A
  ask f = through (FileMutations.ask f)

  abbrev pub on_disk : {A : Type 0} → (F.State → Fallible F.IoError A × F.State) → V F A
  on_disk f = through (FileMutations.on_disk f)

  unfoldable pub full_path : FilePath → Vfs F → FilePath
  full_path path s = join s.local_dir path

  -- The count after `alloc_fh`, whose answer is the count before it.
  unfoldable pub alloc_fh : OpenFile → Vfs F → FileHandle × Vfs F
  alloc_fh file s =
      let fh = s.next_fh in
      (fh, record s { next_fh = fetch_add_one fh; open_files = insert fh file s.open_files })

  unfoldable pub mutation_for_handle_or_path : FilePath → FileHandle → ℕ → V F OpenFile
  mutation_for_handle_or_path path fh now s = elim (lookup fh s.open_files) [
    | some file ↦ (ok file, s)
    | none ↦ through (FileMutations.open_file path now) s
  ]

  abbrev attr_of : FilePath → ℕ → V F FileAttr
  attr_of full now = do meta ← ask (F.symlink_metadata full); pure (metadata_to_attr meta now)

  unfoldable pub getattr : FilePath → ℕ → V F FileAttr
  getattr path now s = attr_of (full_path path s) now s

  unfoldable pub set_mode_unix : FilePath → ℕ → V F (Unit {0})
  set_mode_unix path mode = on_disk (F.set_permissions path mode)

  -- `lookup` tells a missing file from other errors.
  unfoldable pub lookup_child : FilePath → Name → ℕ → V F FileAttr
  lookup_child parent name now s =
      elim (F.symlink_metadata (full_path (join parent (components name)) s)
        s.pipeline.cache.disk) [
          | err e ↦ (err (if F.is_not_found e then not_found else io e), s)
          | ok meta ↦ (ok (metadata_to_attr meta now), s)
        ]

  unfoldable pub open_path : FilePath → ℕ → V F FileHandle
  unfolding alloc_fh
  open_path path now = do
    file ← through (FileMutations.open_file path now)
    λ s. let (fh, s') = alloc_fh file s in (ok fh, s')

  unfoldable pub create : FilePath → ℕ → ℕ → V F (FileHandle × FileAttr)
  unfolding alloc_fh
  create path mode now = do
    created ← through (FileMutations.create_file path mode now)
    λ s. let (fh, s') = alloc_fh created.0 s in (ok (fh, created.1), s')

  -- `none` if the buffer's read or write panics.
  abbrev read_file : ℕ → ℕ → OpenFile → Vfs F → Option (Fallible (FsError F.IoError) Bytes × Vfs F)
  read_file offset size file s = elim (FileMutations.read file offset size s.pipeline) [
    | none ↦ none
    | some bytes ↦ some (ok bytes, s)
  ]

  abbrev write_file :
      ℕ → Bytes → ℕ → OpenFile → Vfs F → Option (Fallible (FsError F.IoError) ℕ × Vfs F)
  write_file offset bytes now file s = elim (FileMutations.write file offset bytes now s.pipeline) [
    | none ↦ none
    | some (n, pipeline) ↦ some (ok n, record s { pipeline = pipeline })
  ]

  -- A call on the file of the handle, or of the path if the handle is not in the table.
  abbrev pub with_file :
      {A : Type 0}
      → FilePath
      → FileHandle
      → ℕ
      → (OpenFile → Vfs F → Option (Fallible (FsError F.IoError) A × Vfs F))
      → Vfs F
      → Option (Fallible (FsError F.IoError) A × Vfs F)
  with_file path fh now k s =
      let (found, s') = mutation_for_handle_or_path path fh now s in
      elim found [ err e ↦ some (err e, s') | ok file ↦ k file s' ]

  unfoldable pub read :
      FilePath
      → FileHandle
      → ℕ
      → ℕ
      → ℕ
      → Vfs F
      → Option (Fallible (FsError F.IoError) Bytes × Vfs F)
  read path fh offset size now = with_file path fh now (read_file offset size)

  unfoldable pub write :
      FilePath
      → FileHandle
      → ℕ
      → Bytes
      → ℕ
      → Vfs F
      → Option (Fallible (FsError F.IoError) ℕ × Vfs F)
  write path fh offset bytes now = with_file path fh now (write_file offset bytes now)

  unfoldable pub flush : FilePath → FileHandle → ℕ → V F (Unit {0})
  flush path fh now = do
    file ← mutation_for_handle_or_path path fh now
    through (FileMutations.flush file)

  unfoldable pub fsync : FilePath → FileHandle → ℕ → V F (Unit {0})
  fsync path fh now = do
    file ← mutation_for_handle_or_path path fh now
    through (FileMutations.flush file)

  unfoldable pub removed_or_opened : FilePath → ℕ → Option OpenFile → V F OpenFile
  removed_or_opened path now (some file) s = (ok file, s)
  removed_or_opened path now none s = through (FileMutations.open_file path now) s

  unfoldable pub release : FilePath → FileHandle → ℕ → V F (Unit {0})
  release path fh now s =
      (do
        file ← removed_or_opened path now (lookup fh s.open_files)
        through (FileMutations.close file))
        (record s { open_files = erase fh s.open_files })

  unfoldable pub unlink : FilePath → V F (Unit {0})
  unlink path = through (FileMutations.unlink path)

  unfoldable pub rename : FilePath → FilePath → V F (Unit {0})
  rename from to = through (FileMutations.rename from to)

  unfoldable pub symlink : FilePath → FilePath → ℕ → V F FileAttr
  symlink target link now = through (FileMutations.symlink target link now)

module _ {F : FileSystem} (D : Directories F) where
  -- The new access time is ignored.
  unfoldable pub set_times_unix : FilePath → Option ℕ → V F (Unit {0})
  set_times_unix path mtime = do
    ask (D.open_to_read path)
    elim mtime [ none ↦ pure tt | some t ↦ on_disk (D.set_modified path t) ]

  abbrev truncate_to : FilePath → ℕ → Option ℕ → V F (Unit {0})
  truncate_to path now none = pure tt
  truncate_to path now (some size) = do
    file ← through (FileMutations.open_file path now)
    attr ← through (FileMutations.truncate file size now)
    pure tt

  abbrev change_times : FilePath → Option ℕ → Option ℕ → V F (Unit {0})
  change_times full none none = pure tt
  change_times full atime mtime = set_times_unix full mtime

  abbrev change_mode : FilePath → Option ℕ → V F (Unit {0})
  change_mode full none = pure tt
  change_mode full (some mode) = set_mode_unix full mode

  unfoldable pub setattr : FilePath → (size atime mtime mode : Option ℕ) → ℕ → V F FileAttr
  setattr path size atime mtime mode now s =
      let full = full_path path s in
      (do
        truncate_to path now size
        change_times full atime mtime
        change_mode full mode
        attr_of full now)
        s

  unfoldable pub readdir : Backend → FilePath → V F (List DirEntry)
  readdir backend path s =
      (do
        entries ← ask (D.read_dir (full_path path s))
        λ t. (read_entries backend path entries, t))
        s

  unfoldable pub mkdir : FilePath → ℕ → ℕ → V F FileAttr
  mkdir path mode now s =
      let full = full_path path s in
      (do on_disk (D.create_dir full); set_mode_unix full mode; attr_of full now) s

  unfoldable pub rmdir : FilePath → V F (Unit {0})
  rmdir path s = on_disk (D.remove_dir (full_path path s)) s

  unfoldable pub readlink : FilePath → V F FilePath
  readlink path s = ask (D.read_link (full_path path s)) s

  -- `statfs_unix`: two numbers are cast to 32 bits.
  unfoldable pub statfs : V F StatFs
  statfs s = elim (D.statvfs s.local_dir s.pipeline.cache.disk) [
    | err text ↦ (err (other text), s)
    | ok stat ↦
        (ok (record stat { bsize = stat.bsize % 2 ^ 32; namelen = stat.namelen % 2 ^ 32 }), s)
  ]

  unfoldable pub setxattr : FilePath → Name → List ℕ → V F (Unit {0})
  setxattr path name value s = on_disk (D.xattr_set (full_path path s) name value) s

  unfoldable pub getxattr : FilePath → Name → V F (List ℕ)
  getxattr path name s =
      (do
        found ← ask (D.xattr_get (full_path path s) name)
        λ t. elim found [ none ↦ (err not_found, t) | some value ↦ (ok value, t) ])
        s

  unfoldable pub listxattr : FilePath → V F (List Name)
  listxattr path s = ask (D.xattr_list (full_path path s)) s

  unfoldable pub removexattr : FilePath → Name → V F (Unit {0})
  removexattr path name s = on_disk (D.xattr_remove (full_path path s) name) s

-- ===== src/Core/Vfs/Calls.antt =====
-- What each call does to the table of open files (crates/omnifuse-core/src/vfs.rs).
use omni_fuse.Prelude.{
  ℕ, ◌+◌, ◌<◌, ◌≤◌, Bool, false, ◌||◌, List, [], ◌∷◌, Option, none, some, ◌≡◌, refl, inl, inr,
  arith, list_eq, nat_eq, eqb_iff, ◌==◌, u64_mod, fetch_add_one, wrapping_add, Fallible-cases,
}
use omni_fuse.Prelude.Map.{lookup, insert, erase, lookup-insert, lookup-erase}
use omni_fuse.FilePath.{FilePath, Name, component_eq}
use omni_fuse.Core.FileSystem.{FileSystem}
use omni_fuse.Core.Directories.{Directories}
use omni_fuse.Core.Backend.{Backend}
use omni_fuse.Core.Buffer.{Bytes}
use omni_fuse.Core.FileMutations
use omni_fuse.Core.FileMutations.{OpenFile}
use omni_fuse.Core.Vfs
use omni_fuse.Core.Vfs.{
  Vfs, open_path, create, write, flush, release, removed_or_opened, mutation_for_handle_or_path,
  alloc_fh, through, fsync, getattr, setattr, set_times_unix, set_mode_unix, lookup_child, readdir,
  rmdir, unlink, readlink, listxattr, mkdir, rename, symlink, statfs, setxattr, getxattr,
  removexattr,
}
use omni_fuse.Unifuse.Types.{FileHandle}

-- The methods of `OmniFuseVfs` as a `UniFuseFilesystem`, those without a handle included.
pub data Call : Type 0 where
  open_call : (path : FilePath) (now : ℕ) → Call
  create_call : (path : FilePath) (mode now : ℕ) → Call
  read_call : (path : FilePath) (fh : FileHandle) (offset size now : ℕ) → Call
  write_call : (path : FilePath) (fh : FileHandle) (offset : ℕ) (bytes : Bytes) (now : ℕ) → Call
  flush_call : (path : FilePath) (fh : FileHandle) (now : ℕ) → Call
  fsync_call : (path : FilePath) (fh : FileHandle) (now : ℕ) → Call
  getattr_call : (path : FilePath) (now : ℕ) → Call
  setattr_call : (path : FilePath) (size atime mtime mode : Option ℕ) (now : ℕ) → Call
  lookup_call : (parent : FilePath) (name : Name) (now : ℕ) → Call
  readdir_call rmdir_call unlink_call readlink_call listxattr_call : (path : FilePath) → Call
  mkdir_call : (path : FilePath) (mode now : ℕ) → Call
  rename_call : (from to : FilePath) → Call
  symlink_call : (target link : FilePath) (now : ℕ) → Call
  statfs_call : Call
  setxattr_call : (path : FilePath) (name : Name) (value : List ℕ) → Call
  getxattr_call removexattr_call : (path : FilePath) (name : Name) → Call
  release_call : (path : FilePath) (fh : FileHandle) (now : ℕ) → Call

-- The handle that a call releases.
unfoldable pub released_by : Call → Option FileHandle
released_by (release_call path fh now) = some fh
released_by _ = none

abbrev pub is_handle : FileHandle → Option FileHandle → Bool
is_handle fh none = false
is_handle fh (some g) = g == fh

-- Whether one of the calls releases the handle.
unfoldable pub releases : FileHandle → List Call → Bool
releases fh [] = false
releases fh (call ∷ calls) = is_handle fh (released_by call) || releases fh calls

module _ {F : FileSystem} where
  -- Every handle in the table was given out, so it is less than the counter.
  abbrev pub IsFresh : Vfs F → Type 0
  IsFresh s = (fh : FileHandle) → s.next_fh ≤ fh → lookup fh s.open_files ≡ none

  -- What a call does to the table: nothing, one new entry under the counter, or one entry less.
  pub data Step (call : Call) (s t : Vfs F) : Type 0 where
    kept : t.open_files ≡ s.open_files → t.next_fh ≡ s.next_fh → Step call s t
    opened :
        (file : OpenFile)
        → t.open_files ≡ insert s.next_fh file s.open_files
        → t.next_fh ≡ fetch_add_one s.next_fh
        → Step call s t
    closed :
        (fh : FileHandle)
        → released_by call ≡ some fh
        → t.open_files ≡ erase fh s.open_files
        → t.next_fh ≡ s.next_fh
        → Step call s t

  mutation-kept :
      (path : FilePath) (fh : FileHandle) (now : ℕ) (s : Vfs F)
      → ((mutation_for_handle_or_path path fh now s).1.open_files ≡ s.open_files)
        × ((mutation_for_handle_or_path path fh now s).1.next_fh ≡ s.next_fh)
  unfolding mutation_for_handle_or_path
  mutation-kept path fh now s = ground arith

  pub Step-IsFresh :
      (call : Call) (s t : Vfs F) → Step call s t → s.next_fh + 1 < u64_mod → IsFresh s → IsFresh t
  unfolding fetch_add_one wrapping_add
  Step-IsFresh call s t (kept same count) bound fresh = λ fh above. ground (arith, fresh fh)
  Step-IsFresh call s t (opened file table count) bound fresh = λ fh above.
      ground (arith, fresh fh, lookup-insert fh s.next_fh file s.open_files, eqb_iff fh s.next_fh)
  Step-IsFresh call s t (closed g by table count) bound fresh =
      λ fh above. ground (arith, fresh fh, lookup-erase fh g s.open_files)

  pub Step-count :
      (call : Call) (s t : Vfs F)
      → Step call s t
      → s.next_fh + 1 < u64_mod
      → (s.next_fh ≤ t.next_fh) × (t.next_fh ≤ s.next_fh + 1)
  unfolding fetch_add_one wrapping_add
  Step-count call s t (kept same count) bound = ground arith
  Step-count call s t (opened file table count) bound = ground arith
  Step-count call s t (closed g by table count) bound = ground arith

  pub Step-lookup :
      (call : Call) (s t : Vfs F) (fh : FileHandle)
      → Step call s t
      → fh < s.next_fh
      → is_handle fh (released_by call) ≡ false
      → lookup fh t.open_files ≡ lookup fh s.open_files
  Step-lookup call s t fh (kept same count) old held = ground arith
  Step-lookup call s t fh (opened file table count) old held =
      ground (arith, lookup-insert fh s.next_fh file s.open_files, eqb_iff fh s.next_fh)
  Step-lookup call s t fh (closed g by table count) old held =
      ground (arith, lookup-erase fh g s.open_files, eqb_iff fh g, eqb_iff g fh)

module _ {F : FileSystem} (D : Directories F) where
  setattr-kept :
      (path : FilePath) (size atime mtime mode : Option ℕ) (now : ℕ) (s : Vfs F)
      → ((setattr D path size atime mtime mode now s).1.open_files ≡ s.open_files)
        × ((setattr D path size atime mtime mode now s).1.next_fh ≡ s.next_fh)
  unfolding setattr set_times_unix set_mode_unix
  setattr-kept path size atime mtime mode now s = ground arith

module _ {F : FileSystem} (D : Directories F) (backend : Backend) where
  -- The state after a call; a call that panics leaves it.
  unfoldable pub perform : Call → Vfs F → Vfs F
  perform (open_call path now) s = (open_path path now s).1
  perform (create_call path mode now) s = (create path mode now s).1
  perform (read_call path fh offset size now) s = elim (Vfs.read path fh offset size now s) [
    | none ↦ s
    | some (_, t) ↦ t
  ]
  perform (write_call path fh offset bytes now) s = elim (write path fh offset bytes now s) [
    | none ↦ s
    | some (_, t) ↦ t
  ]
  perform (flush_call path fh now) s = (flush path fh now s).1
  perform (fsync_call path fh now) s = (fsync path fh now s).1
  perform (getattr_call path now) s = (getattr path now s).1
  perform (setattr_call path size atime mtime mode now) s =
      (setattr D path size atime mtime mode now s).1
  perform (lookup_call parent name now) s = (lookup_child parent name now s).1
  perform (readdir_call path) s = (readdir D backend path s).1
  perform (rmdir_call path) s = (rmdir D path s).1
  perform (unlink_call path) s = (unlink path s).1
  perform (readlink_call path) s = (readlink D path s).1
  perform (listxattr_call path) s = (listxattr D path s).1
  perform (mkdir_call path mode now) s = (mkdir D path mode now s).1
  perform (rename_call from to) s = (rename from to s).1
  perform (symlink_call target link now) s = (symlink target link now s).1
  perform statfs_call s = (statfs D s).1
  perform (setxattr_call path name value) s = (setxattr D path name value s).1
  perform (getxattr_call path name) s = (getxattr D path name s).1
  perform (removexattr_call path name) s = (removexattr D path name s).1
  perform (release_call path fh now) s = (release path fh now s).1

  unfoldable pub perform_all : List Call → Vfs F → Vfs F
  perform_all [] s = s
  perform_all (call ∷ calls) s = perform_all calls (perform call s)

  pub perform-Step : (call : Call) (s : Vfs F) → Step call s (perform call s)
  unfolding perform released_by open_path create alloc_fh Vfs.read write flush release
      removed_or_opened fsync getattr lookup_child readdir rmdir unlink readlink listxattr mkdir
      rename symlink statfs setxattr getxattr removexattr set_mode_unix
  perform-Step (open_call path now) s =
      elim (Fallible-cases (FileMutations.open_file path now s.pipeline).0) [
        | inl (e, h) ↦ kept (ground arith) (ground arith)
        | inr (file, h) ↦ opened file (ground arith) (ground arith)
      ]
  perform-Step (create_call path mode now) s =
      elim (Fallible-cases (FileMutations.create_file path mode now s.pipeline).0) [
        | inl (e, h) ↦ kept (ground arith) (ground arith)
        | inr (created, h) ↦ opened created.0 (ground arith) (ground arith)
      ]
  perform-Step (read_call path fh offset size now) s =
      kept (ground (arith, mutation-kept path fh now s))
        (ground (arith, mutation-kept path fh now s))
  perform-Step (write_call path fh offset bytes now) s =
      kept (ground (arith, mutation-kept path fh now s))
        (ground (arith, mutation-kept path fh now s))
  perform-Step (flush_call path fh now) s =
      kept (ground (arith, mutation-kept path fh now s))
        (ground (arith, mutation-kept path fh now s))
  perform-Step (fsync_call path fh now) s =
      kept (ground (arith, mutation-kept path fh now s))
        (ground (arith, mutation-kept path fh now s))
  perform-Step (getattr_call path now) s = kept (ground arith) (ground arith)
  perform-Step (setattr_call path size atime mtime mode now) s =
      let (table, count) = setattr-kept D path size atime mtime mode now s in kept table count
  perform-Step (lookup_call parent name now) s = kept (ground arith) (ground arith)
  perform-Step (readdir_call path) s = kept (ground arith) (ground arith)
  perform-Step (rmdir_call path) s = kept (ground arith) (ground arith)
  perform-Step (unlink_call path) s = kept (ground arith) (ground arith)
  perform-Step (readlink_call path) s = kept (ground arith) (ground arith)
  perform-Step (listxattr_call path) s = kept (ground arith) (ground arith)
  perform-Step (mkdir_call path mode now) s = kept (ground arith) (ground arith)
  perform-Step (rename_call from to) s = kept (ground arith) (ground arith)
  perform-Step (symlink_call target link now) s = kept (ground arith) (ground arith)
  perform-Step statfs_call s = kept (ground arith) (ground arith)
  perform-Step (setxattr_call path name value) s = kept (ground arith) (ground arith)
  perform-Step (getxattr_call path name) s = kept (ground arith) (ground arith)
  perform-Step (removexattr_call path name) s = kept (ground arith) (ground arith)
  perform-Step (release_call path fh now) s = closed fh refl (ground arith) (ground arith)

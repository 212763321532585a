-- ===== src/Core/Vfs/Session.antt =====
-- The session interface of the virtual file system (crates/omnifuse-core/src/vfs.rs, `SessionPathFs`
-- for `OmniFuseVfs`).
use omni_fuse.Prelude.{
  ℕ, ◌+◌, ◌%◌, ◌^◌, min, List, Option, none, some, if◌then◌else◌, ltb, length, take, drop, map,
  Fallible, ok, err,
}
use omni_fuse.FilePath.{FilePath}
use omni_fuse.Core.FileSystem.{FileSystem}
use omni_fuse.Core.Directories.{Directories}
use omni_fuse.Core.Backend.{Backend}
use omni_fuse.Core.Buffer.{Bytes}
use omni_fuse.Core.FileMutations
use omni_fuse.Core.Vfs
use omni_fuse.Core.Vfs.{Vfs, V, ◌>>=◌, ◌>>◌, pure, through, getattr, setattr, readdir, mkdir, rmdir}
use omni_fuse.Unifuse.Types.{
  FsError, not_supported, FileAttr, regular, directory_attr, DirEntryMeta, entry_meta, NodeMeta,
  OpenedNode, FlushMode, flush_mode, fsync_mode, DirPageRequest, DirPage, all_entries, FsMutation,
  create_node, mkdir_node, unlink_node, rmdir_node, rename_node, symlink_node, readlink_node,
  set_attr, set_xattr, remove_xattr,
}

-- What `read_dir` makes of the whole listing. `skip` by 0 changes nothing.
unfoldable pub page_of : DirPageRequest → List DirEntryMeta → DirPage
page_of page entries =
    let rest = drop page.offset entries in
    elim page.limit [
      | none ↦ all_entries rest
      | some limit ↦ record {
        entries = take limit rest;
        next_offset = if ltb limit (length rest) then some (page.offset + limit) else none;
      }
    ]

module _ {F : FileSystem} where
  abbrev pub meta_at : FilePath → V F FileAttr → V F NodeMeta
  meta_at path m = do attr ← m; pure (record { path = path; attr = attr })

  unfoldable pub session_lookup : FilePath → ℕ → V F NodeMeta
  session_lookup path now = meta_at path (getattr path now)

  unfoldable pub session_open : FilePath → ℕ → V F OpenedNode
  session_open path now = do
    handle ← Vfs.open_path path now
    attr ← getattr path now
    pure (record { path = path; handle = handle; kind = attr.kind; attr = attr })

  -- The bytes that end up in a buffer of the given size, whose length is cast to 32 bits.
  unfoldable pub read_into :
      OpenedNode → ℕ → ℕ → ℕ → Vfs F → Option (Fallible (FsError F.IoError) Bytes × Vfs F)
  read_into file offset out_len now s =
      elim (Vfs.read file.path file.handle offset (out_len % 2 ^ 32) now s) [
        | none ↦ none
        | some (err e, t) ↦ some (err e, t)
        | some (ok bytes, t) ↦ some (ok (take (min (length bytes) out_len) bytes), t)
      ]

  unfoldable pub write_from :
      OpenedNode → ℕ → Bytes → ℕ → Vfs F → Option (Fallible (FsError F.IoError) ℕ × Vfs F)
  write_from file offset bytes now = Vfs.write file.path file.handle offset bytes now

  unfoldable pub flush_as : FlushMode → OpenedNode → ℕ → V F (Unit {0})
  flush_as flush_mode file now = Vfs.flush file.path file.handle now
  flush_as (fsync_mode datasync) file now = Vfs.fsync file.path file.handle now

  unfoldable pub session_flush : OpenedNode → FlushMode → ℕ → V F NodeMeta
  session_flush file mode now = do flush_as mode file now; meta_at file.path (getattr file.path now)

  unfoldable pub session_close : OpenedNode → ℕ → V F (Unit {0})
  session_close file now = Vfs.release file.path file.handle now

module _ {F : FileSystem} (D : Directories F) where
  unfoldable pub session_read_dir : Backend → FilePath → DirPageRequest → V F DirPage
  session_read_dir backend path page = do
    entries ← readdir D backend path
    pure (page_of page (map entry_meta entries))

  -- A created file is not entered in the table. Modes `0o644` and `0o755` are written in decimal.
  unfoldable pub mutate : FsMutation → ℕ → V F NodeMeta
  mutate (create_node path flags mode) now = do
    created ← through (FileMutations.create_file path mode now)
    pure (record { path = path; attr = created.1 })
  mutate (mkdir_node path mode) now = meta_at path (mkdir D path mode now)
  mutate (unlink_node path) now = do
    Vfs.unlink path
    pure (record { path = path; attr = regular 0 420 now })
  mutate (rmdir_node path) now = do
    rmdir D path
    pure (record { path = path; attr = directory_attr 493 now })
  mutate (rename_node from to flags) now = do Vfs.rename from to; meta_at to (getattr to now)
  mutate (symlink_node target link) now = meta_at link (Vfs.symlink target link now)
  mutate (set_attr path size atime mtime mode) now =
      meta_at path (setattr D path size atime mtime mode now)
  mutate (set_xattr path name value flags) now = do
    Vfs.setxattr D path name value
    meta_at path (getattr path now)
  mutate (remove_xattr path name) now = do
    Vfs.removexattr D path name
    meta_at path (getattr path now)
  mutate (readlink_node path) now = λ s. (err not_supported, s)

-- ===== src/Unifuse/Rfuse3/Calls.antt =====
-- The calls of the adapter (crates/unifuse/src/rfuse3_adapter.rs, `rfuse3::raw::Filesystem`).
use Prim.Native.Nat.{bit_and}
use omni_fuse.Prelude.{
  ℕ, ◌+◌, ◌%◌, ◌^◌, Bool, not, List, [], ◌∷◌, ◌++◌, Option, none, some, list_eq, nat_eq,
  if◌then◌else◌, eqb, ltb, Fallible, ok, err,
}
use omni_fuse.Prelude.Map.{Map, insert, erase}
use omni_fuse.Prelude.Map
use omni_fuse.FilePath.{FilePath, Name, join, components}
use omni_fuse.Unifuse.Inode
use omni_fuse.Unifuse.Inode.{NodeKind, file, dir, root_inode, path_text}
use omni_fuse.Unifuse.Session.{SessionFs}
use omni_fuse.Unifuse.Types.{
  FsError, to_errno, enoent, ebadf, enotsup, directory, StatFs, OpenedNode, flush_mode, fsync_mode,
  released, DirEntryMeta, FsMutation, create_node, mkdir_node, unlink_node, rmdir_node, rename_node,
  symlink_node, set_attr,
}
use omni_fuse.Unifuse.Rfuse3.{
  Timestamp, timestamp_to_system_time, ReplyAttr, to_rfuse3_attr, to_node_kind, decode_open_flags,
  write_only, DirectoryEntry, Created, Adapter, R,
}

-- Files of a mode: the type's mask, a regular file, and the permissions.
abbrev pub s_ifmt : ℕ
s_ifmt = 61440

abbrev pub s_ifreg : ℕ
s_ifreg = 32768

-- `SetAttr`, the fields that the adapter reads.
pub record SetAttr : Type 0 where
  pub size : Option ℕ
  pub atime : Option Timestamp
  pub mtime : Option Timestamp
  pub mode : Option ℕ

abbrev time_of : Option Timestamp → Option ℕ
time_of none = none
time_of (some ts) = some (timestamp_to_system_time ts)

unfoldable pub list_bytes : List Name → List ℕ
list_bytes [] = []
list_bytes (attr ∷ attrs) = attr ++ (0 ∷ list_bytes attrs)

-- `fs_error_to_errno`
abbrev pub with_errno : {E A : Type 0} → (E → Option ℕ) → Fallible (FsError E) A → Fallible ℕ A
with_errno raw_os_error (ok a) = ok a
with_errno raw_os_error (err e) = err (to_errno raw_os_error e)

abbrev found_or : {A : Type 0} → ℕ → Option A → Fallible ℕ A
found_or n none = err n
found_or n (some a) = ok a

abbrev dot_entry : ℕ → Name → ℕ → ℕ → List DirectoryEntry
dot_entry inode name offset index =
    if ltb offset index
    then record { inode = inode; kind = directory; name = name; offset = index } ∷ []
    else []

module _ {S : SessionFs} where
  infixl 5 ◌>>=◌ ◌>>◌
  abbrev pub ◌>>=◌ : {A B : Type 0} → R S A → (A → R S B) → R S B
  ◌>>=◌ m f s = let (result, s') = m s in elim result [ err e ↦ (err e, s') | ok a ↦ f a s' ]

  abbrev pub ◌>>◌ : {B : Type 0} → R S (Unit {0}) → R S B → R S B
  m >> k = m >>= λ _. k

  abbrev pub pure : {A : Type 0} → A → R S A
  pure a s = (ok a, s)

  abbrev pub fail : {A : Type 0} → ℕ → R S A
  fail n s = (err n, s)

  abbrev pub inside : {A : Type 0} → (S.State → Fallible (FsError S.IoError) A × S.State) → R S A
  inside f s =
      let (result, inner) = f s.inner in
      (with_errno S.raw_os_error result, record s { inner = inner })

  abbrev pub change_inodes : (Inode.InodeMap → Inode.InodeMap) → R S (Unit {0})
  change_inodes f s = (ok tt, record s { inode_map = f s.inode_map })

  abbrev pub number : FilePath → NodeKind → R S ℕ
  number path kind s =
      let (ino, inode_map) = Inode.get_or_insert path kind s.inode_map in
      (ok ino, record s { inode_map = inode_map })

  unfoldable pub resolve_path : ℕ → R S FilePath
  resolve_path inode s = (found_or enoent (Inode.get_path inode s.inode_map), s)

  unfoldable pub opened_node : ℕ → R S OpenedNode
  opened_node fh s = (found_or ebadf (Map.lookup fh s.open_nodes), s)

  unfoldable pub child : ℕ → Name → R S FilePath
  child parent name = do
    parent_path ← resolve_path parent
    pure (join parent_path (components name))

  abbrev pub entry_at : FilePath → NodeKind → FsMutation → R S ReplyAttr
  entry_at path kind mutation = do
    meta ← inside (S.mutate mutation)
    ino ← number path kind
    pure (to_rfuse3_attr meta.attr ino)

  unfoldable pub lookup : ℕ → Name → R S ReplyAttr
  lookup parent name = do
    path ← child parent name
    meta ← inside (S.lookup path)
    ino ← number path (to_node_kind meta.attr.kind)
    pure (to_rfuse3_attr meta.attr ino)

  unfoldable pub getattr : ℕ → R S ReplyAttr
  getattr inode = do
    path ← resolve_path inode
    meta ← inside (S.lookup path)
    pure (to_rfuse3_attr meta.attr inode)

  unfoldable pub setattr : ℕ → SetAttr → R S ReplyAttr
  setattr inode attr = do
    path ← resolve_path inode
    meta ←
        inside
          (S.mutate (set_attr path attr.size (time_of attr.atime) (time_of attr.mtime) attr.mode))
    pure (to_rfuse3_attr meta.attr inode)

  abbrev register_node : OpenedNode → R S (Unit {0})
  register_node opened s =
      (ok tt, record s { open_nodes = insert opened.handle opened s.open_nodes })

  unfoldable pub open_inode : ℕ → ℕ → R S ℕ
  open_inode inode flags = do
    path ← resolve_path inode
    opened ← inside (S.open_node path (decode_open_flags flags))
    register_node opened
    pure opened.handle

  -- `none` if the call inside panics.
  abbrev panicking :
      {A : Type 0}
      → (S.State → Option (Fallible (FsError S.IoError) A × S.State))
      → Adapter S
      → Option (Fallible ℕ A × Adapter S)
  panicking f s = elim (f s.inner) [
    | none ↦ none
    | some (result, inner) ↦ some (with_errno S.raw_os_error result, record s { inner = inner })
  ]

  abbrev on_node :
      {A : Type 0}
      → ℕ
      → (OpenedNode → Adapter S → Option (Fallible ℕ A × Adapter S))
      → Adapter S
      → Option (Fallible ℕ A × Adapter S)
  on_node fh k s = elim (Map.lookup fh s.open_nodes) [
    | none ↦ some (err ebadf, s)
    | some opened ↦ k opened s
  ]

  unfoldable pub read : ℕ → ℕ → ℕ → Adapter S → Option (Fallible ℕ (List ℕ) × Adapter S)
  read fh offset size = on_node fh (λ opened. panicking (S.read_into opened offset size))

  -- The count is cast to 32 bits.
  abbrev narrow : Option (Fallible ℕ ℕ × Adapter S) → Option (Fallible ℕ ℕ × Adapter S)
  narrow none = none
  narrow (some (err e, s)) = some (err e, s)
  narrow (some (ok n, s)) = some (ok (n % 2 ^ 32), s)

  unfoldable pub write : ℕ → ℕ → List ℕ → Adapter S → Option (Fallible ℕ ℕ × Adapter S)
  write fh offset bytes s =
      narrow (on_node fh (λ opened. panicking (S.write_from opened offset bytes)) s)

  unfoldable pub release : ℕ → R S (Unit {0})
  release fh s = elim (Map.lookup fh s.open_nodes) [
    | none ↦ (err ebadf, s)
    | some opened ↦
        inside (S.close opened released) (record s { open_nodes = erase fh s.open_nodes })
  ]

  unfoldable pub flush : ℕ → R S (Unit {0})
  flush fh = do opened ← opened_node fh; meta ← inside (S.flush opened flush_mode); pure tt

  unfoldable pub fsync : ℕ → Bool → R S (Unit {0})
  fsync fh datasync = do
    opened ← opened_node fh
    meta ← inside (S.flush opened (fsync_mode datasync))
    pure tt

  -- The loop of `readdir` over the entries of the page, from `index` on.
  unfoldable pub list_entries : FilePath → ℕ → ℕ → List DirEntryMeta → R S (List DirectoryEntry)
  list_entries path offset index [] s = (ok [], s)
  list_entries path offset index (entry ∷ entries) s =
      let here = ltb offset index in
      let (ino, inode_map) =
        Inode.get_or_insert (join path (components entry.name)) (to_node_kind entry.kind)
          s.inode_map in
      let (rest, t) =
        list_entries path offset (index + 1) entries
          (if here then record s { inode_map = inode_map } else s) in
      elim rest [
        | err e ↦ (err e, t)
        | ok rest ↦ (
          ok (
              if here
              then record { inode = ino; kind = entry.kind; name = entry.name; offset = index }
                ∷ rest
              else rest),
          t,
        )
      ]

  unfoldable pub readdir : ℕ → ℕ → R S (List DirectoryEntry)
  readdir inode offset = do
    path ← resolve_path inode
    page ← inside (S.read_dir path (record { offset = 0; limit = none }))
    entries ← list_entries path offset 3 page.entries
    pure (
        dot_entry inode (b'.' ∷ []) offset 1
        ++ (dot_entry root_inode (b'.' ∷ b'.' ∷ []) offset 2 ++ entries))

  unfoldable pub mkdir : ℕ → Name → ℕ → R S ReplyAttr
  mkdir parent name mode = do path ← child parent name; entry_at path dir (mkdir_node path mode)

  -- `mode & 0o777`
  unfoldable pub mknod : ℕ → Name → ℕ → R S ReplyAttr
  mknod parent name mode = if not (eqb (bit_and mode s_ifmt) s_ifreg) then fail enotsup else do
    path ← child parent name
    entry_at path file (create_node path write_only (bit_and mode 511))

  unfoldable pub rmdir : ℕ → Name → R S (Unit {0})
  rmdir parent name = do
    path ← child parent name
    meta ← inside (S.mutate (rmdir_node path))
    change_inodes (Inode.remove path)

  unfoldable pub unlink : ℕ → Name → R S (Unit {0})
  unlink parent name = do
    path ← child parent name
    meta ← inside (S.mutate (unlink_node path))
    change_inodes (Inode.remove path)

  -- Both parents are resolved first.
  unfoldable pub rename_with : ℕ → Name → ℕ → Name → ℕ → R S (Unit {0})
  rename_with origin_parent origin_name parent name flags = do
    old_path ← child origin_parent origin_name
    new_path ← child parent name
    meta ← inside (S.mutate (rename_node old_path new_path flags))
    change_inodes (Inode.rename_subtree old_path new_path)

  unfoldable pub rename : ℕ → Name → ℕ → Name → R S (Unit {0})
  rename origin_parent origin_name parent name = rename_with origin_parent origin_name parent name 0

  unfoldable pub rename2 : ℕ → Name → ℕ → Name → ℕ → R S (Unit {0})
  rename2 origin_parent origin_name parent name flags =
      if eqb flags 0 then rename_with origin_parent origin_name parent name flags else fail enotsup

  unfoldable pub create : ℕ → Name → ℕ → ℕ → R S Created
  create parent name mode flags = do
    path ← child parent name
    meta ← inside (S.mutate (create_node path (decode_open_flags flags) mode))
    opened ← inside (S.open_node path (decode_open_flags flags))
    ino ← number path file
    register_node opened
    pure (record { attr = to_rfuse3_attr meta.attr ino; fh = opened.handle })

  unfoldable pub symlink : ℕ → Name → Name → R S ReplyAttr
  symlink parent name link_path = do
    path ← child parent name
    entry_at path file (symlink_node (components link_path) path)

  unfoldable pub readlink : ℕ → R S (List ℕ)
  readlink inode = do
    path ← resolve_path inode
    target ← inside (S.read_link path)
    pure (path_text target)

  -- `frsize` repeats `bsize`.
  unfoldable pub statfs : ℕ → R S StatFs
  statfs inode = do path ← resolve_path inode; inside S.statfs

  unfoldable pub access : ℕ → R S (Unit {0})
  access inode = do path ← resolve_path inode; meta ← inside (S.lookup path); pure tt

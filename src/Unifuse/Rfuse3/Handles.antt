-- ===== src/Unifuse/Rfuse3/Handles.antt =====
-- Unknown inodes and handles (crates/unifuse/src/rfuse3_adapter.rs).
use omni_fuse.Prelude.{
  ℕ, Bool, true, eqb, List, ◌≡◌, none, some, inl, inr, arith, nat_eq, eqb_iff, err, Option-cases,
}
use Prim.Native.Nat.{bit_and}
use omni_fuse.Prelude.Map.{lookup-erase}
use omni_fuse.Prelude.Map
use omni_fuse.FilePath.{Name}
use omni_fuse.Unifuse.Session.{SessionFs}
use omni_fuse.Unifuse.Types.{ebadf}
use omni_fuse.Unifuse.Rfuse3.{Adapter, R}
use omni_fuse.Unifuse.Rfuse3.Calls
use omni_fuse.Unifuse.Rfuse3.Calls.{
  SetAttr, ◌>>=◌, ◌>>◌, pure, opened_node, release, s_ifmt, s_ifreg,
}
use omni_fuse.Unifuse.Rfuse3.Xattr

-- The calls that look the path of an inode up. A renaming looks up two; in `rename_into_call` the inode
-- is the new parent.
pub data InodeCall : Type 0 where
  getattr_call opendir_call readlink_call statfs_call access_call : InodeCall
  setattr_call : SetAttr → InodeCall
  open_call : (flags : ℕ) → InodeCall
  readdir_call : (offset : ℕ) → InodeCall
  lookup_call : Name → InodeCall
  mkdir_call : Name → (mode : ℕ) → InodeCall
  rmdir_call unlink_call : Name → InodeCall
  rename_call : Name → (parent : ℕ) → Name → InodeCall
  rename_into_call : (origin_parent : ℕ) → Name → Name → InodeCall
  rename2_call : Name → (parent : ℕ) → Name → (flags : ℕ) → InodeCall
  mknod_call : Name → (mode : ℕ) → InodeCall
  create_call : Name → (mode flags : ℕ) → InodeCall
  symlink_call : (name target : Name) → InodeCall
  setxattr_call : Name → List ℕ → (flags : ℕ) → InodeCall
  getxattr_call : Name → (size : ℕ) → InodeCall
  listxattr_call : (size : ℕ) → InodeCall
  removexattr_call : Name → InodeCall
  lseek_call : (offset whence : ℕ) → InodeCall

-- Whether a call gets as far as the look-up: a renaming with flags, and a node that is no regular file,
-- are refused before.
abbrev pub is_supported : InodeCall → Bool
is_supported (rename2_call origin parent name flags) = eqb flags 0
is_supported (mknod_call name mode) = eqb (bit_and mode s_ifmt) s_ifreg
is_supported _ = true

-- The calls that name a handle and cannot panic.
pub data HandleCall : Type 0 where
  flush_call release_call : HandleCall
  fsync_call : (datasync : Bool) → HandleCall

module _ {S : SessionFs} where
  abbrev drop_result : {A : Type 0} → R S A → R S (Unit {0})
  drop_result m = do a ← m; pure tt

  unfoldable pub on_inode : InodeCall → ℕ → R S (Unit {0})
  on_inode getattr_call inode = drop_result (Calls.getattr inode)
  on_inode opendir_call inode = drop_result (Xattr.opendir inode)
  on_inode readlink_call inode = drop_result (Calls.readlink inode)
  on_inode statfs_call inode = drop_result (Calls.statfs inode)
  on_inode access_call inode = Calls.access inode
  on_inode (setattr_call attr) inode = drop_result (Calls.setattr inode attr)
  on_inode (open_call flags) inode = drop_result (Calls.open_inode inode flags)
  on_inode (readdir_call offset) inode = drop_result (Calls.readdir inode offset)
  on_inode (lookup_call name) inode = drop_result (Calls.lookup inode name)
  on_inode (mkdir_call name mode) inode = drop_result (Calls.mkdir inode name mode)
  on_inode (rmdir_call name) inode = Calls.rmdir inode name
  on_inode (unlink_call name) inode = Calls.unlink inode name
  on_inode (rename_call origin parent name) inode = Calls.rename inode origin parent name
  on_inode (rename_into_call origin_parent origin name) inode =
      Calls.rename origin_parent origin inode name
  on_inode (rename2_call origin parent name flags) inode =
      Calls.rename2 inode origin parent name flags
  on_inode (mknod_call name mode) inode = drop_result (Calls.mknod inode name mode)
  on_inode (create_call name mode flags) inode = drop_result (Calls.create inode name mode flags)
  on_inode (symlink_call name target) inode = drop_result (Calls.symlink inode name target)
  on_inode (setxattr_call name value flags) inode = Xattr.setxattr inode name value flags
  on_inode (getxattr_call name size) inode = drop_result (Xattr.getxattr inode name size)
  on_inode (listxattr_call size) inode = drop_result (Xattr.listxattr inode size)
  on_inode (removexattr_call name) inode = Xattr.removexattr inode name
  on_inode (lseek_call offset whence) inode = drop_result (Xattr.lseek inode offset whence)

  unfoldable pub on_handle : HandleCall → ℕ → R S (Unit {0})
  on_handle flush_call fh = Calls.flush fh
  on_handle release_call fh = release fh
  on_handle (fsync_call datasync) fh = Calls.fsync fh datasync

  unknown_handle :
      (call : HandleCall) (fh offset size : ℕ) (bytes : List ℕ) (t : Adapter S)
      → Map.lookup fh t.open_nodes ≡ none
      → (on_handle call fh t ≡ (err ebadf, t))
        × (Calls.read fh offset size t ≡ some (err ebadf, t))
        × (Calls.write fh offset bytes t ≡ some (err ebadf, t))
  unfolding on_handle release opened_node Calls.flush Calls.fsync Calls.read Calls.write
  unknown_handle flush_call fh offset size bytes t h = ground arith
  unknown_handle release_call fh offset size bytes t h = ground arith
  unknown_handle (fsync_call datasync) fh offset size bytes t h = ground arith

  lookup-release : (fh : ℕ) (s : Adapter S) → Map.lookup fh (release fh s).1.open_nodes ≡ none
  unfolding release
  lookup-release fh s = elim (Option-cases (Map.lookup fh s.open_nodes)) [
    | inl gone ↦ ground arith
    | inr (opened, there) ↦ ground (arith, lookup-erase fh fh s.open_nodes, eqb_iff fh fh)
  ]

  -- After a release, successful or not, the handle is gone: a flush, a synchronization and a second
  -- release of it fail with `EBADF` and change nothing, and so do a read and a write.
  pub release-once :
      (call : HandleCall) (fh offset size : ℕ) (bytes : List ℕ) (s : Adapter S)
      → let t = (release fh s).1 in
        (on_handle call fh t ≡ (err ebadf, t))
        × (Calls.read fh offset size t ≡ some (err ebadf, t))
        × (Calls.write fh offset bytes t ≡ some (err ebadf, t))
  release-once call fh offset size bytes s =
      unknown_handle call fh offset size bytes (release fh s).1 (lookup-release fh s)

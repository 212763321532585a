-- ===== src/Unifuse/Rfuse3/Xattr.antt =====
-- The remaining calls of the adapter (crates/unifuse/src/rfuse3_adapter.rs) on extended
-- attributes, directories and positions.
use omni_fuse.Prelude.{ℕ, List, nat_eq, if◌then◌else◌, eqb, leb, saturating_add, Fallible, ok, err}
use omni_fuse.FilePath.{Name}
use omni_fuse.Unifuse.Session.{SessionFs}
use omni_fuse.Unifuse.Types.{enotsup, set_xattr, remove_xattr}
use omni_fuse.Unifuse.Rfuse3.{ReplyXattr, xattr_reply, R}
use omni_fuse.Unifuse.Rfuse3.Calls.{◌>>=◌, pure, inside, resolve_path, list_bytes}

abbrev pub enxio : ℕ
enxio = 6

-- `whence` on Linux
abbrev pub seek_set : ℕ
seek_set = 0

abbrev pub seek_end : ℕ
seek_end = 2

abbrev pub seek_data : ℕ
seek_data = 3

abbrev pub seek_hole : ℕ
seek_hole = 4

-- Where to seek in a file of the given size.
unfoldable pub seek : ℕ → ℕ → ℕ → Fallible ℕ ℕ
seek size offset whence =
    if eqb whence seek_data
    then (if leb offset size then ok offset else err enxio)
    else if eqb whence seek_hole
    then (if leb offset size then ok size else err enxio)
    else if eqb whence seek_set
    then ok offset
    else if eqb whence seek_end
    then ok (saturating_add size offset)
    else err enotsup

module _ {S : SessionFs} where
  unfoldable pub setxattr : ℕ → Name → List ℕ → ℕ → R S (Unit {0})
  setxattr inode name value flags = do
    path ← resolve_path inode
    meta ← inside (S.mutate (set_xattr path name value flags))
    pure tt

  abbrev reply : {A : Type 0} → Fallible ℕ A → R S A
  reply result s = (result, s)

  unfoldable pub getxattr : ℕ → Name → ℕ → R S ReplyXattr
  getxattr inode name size = do
    path ← resolve_path inode
    value ← inside (S.get_xattr path name)
    reply (xattr_reply value size)

  unfoldable pub listxattr : ℕ → ℕ → R S ReplyXattr
  listxattr inode size = do
    path ← resolve_path inode
    attrs ← inside (S.list_xattr path)
    reply (xattr_reply (list_bytes attrs) size)

  unfoldable pub removexattr : ℕ → Name → R S (Unit {0})
  removexattr inode name = do
    path ← resolve_path inode
    meta ← inside (S.mutate (remove_xattr path name))
    pure tt

  unfoldable pub opendir : ℕ → R S ℕ
  opendir inode = do path ← resolve_path inode; pure 0

  unfoldable pub lseek : ℕ → ℕ → ℕ → R S ℕ
  lseek inode offset whence = do
    path ← resolve_path inode
    meta ← inside (S.lookup path)
    reply (seek meta.attr.size offset whence)

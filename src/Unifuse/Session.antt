-- ===== src/Unifuse/Session.antt =====
-- The session interface of a path file system (crates/unifuse/src/session.rs, `SessionPathFs`) over its
-- own state. A call that panics yields `none`.
use omni_fuse.Prelude.{ℕ, List, Option, Fallible}
use omni_fuse.FilePath.{FilePath, Name}
use omni_fuse.Unifuse.Types.{
  FsError, StatFs, NodeMeta, OpenedNode, OpenFlags, FlushMode, CloseReason, DirPageRequest, DirPage,
  FsMutation,
}

-- `raw_os_error` is the standard library's, of the errors of the operating system.
pub record SessionFs : Type 1 where
  pub State : Type 0
  pub IoError : Type 0
  pub raw_os_error : IoError → Option ℕ
  pub lookup : FilePath → State → Fallible (FsError IoError) NodeMeta × State
  pub open_node : FilePath → OpenFlags → State → Fallible (FsError IoError) OpenedNode × State
  pub read_into :
      OpenedNode
      → (offset out_len : ℕ) → State
      → Option (Fallible (FsError IoError) (List ℕ) × State)
  pub write_from :
      OpenedNode → (offset : ℕ) → List ℕ → State → Option (Fallible (FsError IoError) ℕ × State)
  pub flush : OpenedNode → FlushMode → State → Fallible (FsError IoError) NodeMeta × State
  pub close : OpenedNode → CloseReason → State → Fallible (FsError IoError) (Unit {0}) × State
  pub read_dir : FilePath → DirPageRequest → State → Fallible (FsError IoError) DirPage × State
  pub mutate : FsMutation → State → Fallible (FsError IoError) NodeMeta × State
  pub read_link : FilePath → State → Fallible (FsError IoError) FilePath × State
  pub get_xattr : FilePath → Name → State → Fallible (FsError IoError) (List ℕ) × State
  pub list_xattr : FilePath → State → Fallible (FsError IoError) (List Name) × State
  pub statfs : State → Fallible (FsError IoError) StatFs × State

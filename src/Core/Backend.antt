-- ===== src/Core/Backend.antt =====
-- The backend contract (crates/omnifuse-core/src/backend.rs): its result types, and the trait as
-- an interface over the backend's own state.
use omni_fuse.Prelude.{ℕ, Bool, List, Fallible}
use omni_fuse.FilePath.{FilePath}

pub data RemoteApplyMode : Type 0 where
  apply_safe detect_only : RemoteApplyMode

pub data RemoteDeferReason : Type 0 where
  protected_local_change detect_only conflict : RemoteDeferReason

pub data RemoteRefreshResult : Type 0 where
  unchanged : RemoteRefreshResult
  applied : (changed deleted : List FilePath) → RemoteRefreshResult
  deferred : (affected : List FilePath) (reason : RemoteDeferReason) → RemoteRefreshResult
  offline : RemoteRefreshResult

pub data InitResult : Type 0 where
  fresh up_to_date updated : InitResult
  conflicts : (files : List FilePath) → InitResult
  offline : InitResult

pub data SyncResult : Type 0 where
  success : (synced_files : ℕ) → SyncResult
  conflict : (synced_files : ℕ) (conflict_files : List FilePath) → SyncResult
  offline : SyncResult

-- `RemoteRefresh`: the paths that must not be overwritten, by the test of `PathProtection`.
pub record RemoteRefresh : Type 0 where
  pub protected_paths : FilePath → Bool
  pub mode : RemoteApplyMode

-- The methods of `Backend` that the engine calls. `poll_interval`, `name` and `is_online` carry
-- no state.
pub record Backend : Type 1 where
  pub State : Type 0
  pub Error : Type 0
  pub Code : Type 0
  pub sync : List FilePath → State → Fallible Error SyncResult × State
  pub refresh_remote : RemoteRefresh → State → Fallible Error RemoteRefreshResult × State
  pub should_track : FilePath → Bool
  pub classify_error : Error → Code

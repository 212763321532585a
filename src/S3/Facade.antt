-- ===== src/S3/Facade.antt =====
-- The S3 backend that the sync engine calls (crates/omnifuse-s3/src/lib.rs). The session is there
-- once the backend is initialized.
pub mod Polls
use omni_fuse.Prelude.{Bool, not, Option, none, some, Fallible, ok, err}
use omni_fuse.FilePath.{FilePath}
use omni_fuse.Core.Backend.{Backend}
use omni_fuse.S3.Path.{is_internal_path}
use omni_fuse.S3.Error.{AnyError, Code, S3Error, s3, not_initialized, classify_s3_error}
use omni_fuse.S3.State.{Env, S3Session, M}
use omni_fuse.S3.Upload.{sync_dirty}
use omni_fuse.S3.Refresh.{refresh_remote}

-- `self.session()?`
unfoldable pub with_session :
    {E : Env} {A : Type 0}
    → M E A
    → Option (S3Session E)
    → Fallible AnyError A × Option (S3Session E)
with_session m none = (err (s3 not_initialized), none)
with_session m (some session) = let (result, session') = m session in (result, some session')

abbrev pub s3_backend : Env → Backend
s3_backend E = record {
  State = Option (S3Session E);
  Error = AnyError;
  Code = Code;
  sync = λ files. with_session (sync_dirty files);
  refresh_remote = λ request. with_session (refresh_remote request);
  should_track = λ path. not (is_internal_path path);
  classify_error = classify_s3_error;
}

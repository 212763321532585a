-- ===== src/Wiki/Facade.antt =====
-- The wiki backend that the sync engine calls (crates/omnifuse-wiki/src/lib.rs). The session is there once
-- the backend is initialized.
use omni_fuse.Prelude.{Bool, not, ◌&&◌, Option, none, some, Fallible, err}
use omni_fuse.FilePath.{FilePath}
use omni_fuse.Core.Backend.{Backend}
use omni_fuse.Core.FileSystem.{FileSystem}
use omni_fuse.S3.Error.{Code}
use omni_fuse.Wiki.Error.{AnyError, wiki, not_initialized, classify_wiki_error}
use omni_fuse.Wiki.Page.{extension, is_md, has_vfs_component}
use omni_fuse.Wiki.State.{Outside, Session, W}
use omni_fuse.Wiki.Upload.{sync_dirty}
use omni_fuse.Wiki.Refresh.{refresh_remote}

-- `self.session()?`
unfoldable pub with_session :
    {F : FileSystem} {O : Outside} {A : Type 0}
    → W F O A
    → Option (Session F O)
    → Fallible AnyError A × Option (Session F O)
with_session m none = (err (wiki not_initialized), none)
with_session m (some session) = let (result, session') = m session in (result, some session')

-- Only pages are tracked, and nothing of the metadata directory.
unfoldable pub should_track : FilePath → Bool
should_track path = is_md (extension path) && not (has_vfs_component path)

abbrev or_internal : Option Code → Code
or_internal none = Code.internal
or_internal (some code) = code

unfoldable pub classify_error : AnyError → Code
classify_error e = or_internal (classify_wiki_error e)

abbrev pub wiki_backend : FileSystem → Outside → Backend
wiki_backend F O = record {
  State = Option (Session F O);
  Error = AnyError;
  Code = Code;
  sync = λ files. with_session (sync_dirty files);
  refresh_remote = λ request. with_session (refresh_remote request);
  should_track = should_track;
  classify_error = classify_error;
}

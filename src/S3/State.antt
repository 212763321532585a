-- ===== src/S3/State.antt =====
-- The state of the S3 session (crates/omnifuse-s3/src/session.rs), and the monad of its methods. The
-- operator of OpenDAL, the persistent object cache, `diffy::merge` and the JSON encoder are
-- parameters.
use omni_fuse.Prelude.{ℕ, Bool, List, Option, list_eq, nat_eq, Fallible, ok, err}
use omni_fuse.FilePath.{FilePath}
use omni_fuse.Core.FileSystem.{FileSystem}
use omni_fuse.Core.TextMerge.{Merge}
use omni_fuse.S3.Path.{Key, PathError, invalid_path}
use omni_fuse.S3.Error.{ErrorKind, S3Error, AnyError, s3, operator_error, other}
use omni_fuse.S3.Manifest.{Bytes, S3Manifest}

pub record ObjectMetadata : Type 0 where
  pub is_file : Bool
  pub etag : Option Bytes
  pub version : Option Bytes
  pub last_modified : Option Bytes
  pub content_length : ℕ

-- The operator: the calls that the session makes, over the remote's state.
pub record Operator : Type 1 where
  pub State : Type 0
  pub stat : Key → State → Fallible ErrorKind ObjectMetadata
  pub read : Key → State → Fallible ErrorKind Bytes
  pub write_if_match : Key → Bytes → Bytes → State → Fallible ErrorKind ObjectMetadata × State
  pub write_if_not_exists : Key → Bytes → State → Fallible ErrorKind ObjectMetadata × State
  pub delete : Key → State → Fallible ErrorKind (Unit {0}) × State
  pub list_recursive : State → Fallible ErrorKind (List (Key × ObjectMetadata))

-- The persistent cache of this instance, keyed by path and ETag. A failed `put` is only logged.
pub record ObjectCache : Type 1 where
  pub State : Type 0
  pub get : Key → Bytes → State → Option Bytes × State
  pub put : Key → Bytes → Bytes → State → State

pub record Env : Type 1 where
  pub operator : Operator
  pub files : FileSystem
  pub objects : ObjectCache
  pub merge : Bytes → Bytes → Bytes → Merge
  pub to_json : S3Manifest → Bytes

pub record S3Session (E : Env) : Type 0 where
  pub local_dir : FilePath
  pub manifest_path : FilePath
  pub manifest_tmp : FilePath
  pub base_dir : FilePath
  pub manifest : S3Manifest
  pub cache : Option E.objects.State
  pub remote : E.operator.State
  pub disk : E.files.State

abbrev pub M : Env → Type 0 → Type 0
M E A = S3Session E → Fallible AnyError A × S3Session E

-- A call of the local file system; its error is neither of S3 nor of the operator.
abbrev pub as_io : {IoError A : Type 0} → Fallible IoError A → Fallible AnyError A
as_io (ok a) = ok a
as_io (err e) = err other

abbrev pub as_operator : {A : Type 0} → Fallible ErrorKind A → Fallible AnyError A
as_operator (ok a) = ok a
as_operator (err kind) = err (operator_error kind)

module _ {E : Env} where
  infixl 5 ◌>>=◌ ◌>>◌
  abbrev pub ◌>>=◌ : {A B : Type 0} → M E A → (A → M E B) → M E B
  ◌>>=◌ m f s = let (result, s') = m s in elim result [ err e ↦ (err e, s') | ok a ↦ f a s' ]

  abbrev pub ◌>>◌ : {B : Type 0} → M E (Unit {0}) → M E B → M E B
  m >> k = m >>= λ _. k

  abbrev pub pure : {A : Type 0} → A → M E A
  pure a s = (ok a, s)

  abbrev pub fail : {A : Type 0} → AnyError → M E A
  fail e s = (err e, s)

  abbrev pub lift_path : {A : Type 0} → Fallible PathError A → M E A
  lift_path (ok a) s = (ok a, s)
  lift_path (err (invalid_path p)) s = (err (s3 (S3Error.invalid_path p)), s)

  abbrev pub lift_s3 : {A : Type 0} → Fallible S3Error A → M E A
  lift_s3 (ok a) s = (ok a, s)
  lift_s3 (err e) s = (err (s3 e), s)

  abbrev pub on_disk :
      {A : Type 0} → (E.files.State → Fallible E.files.IoError A × E.files.State) → M E A
  on_disk f s = let (result, disk) = f s.disk in (as_io result, record s { disk = disk })

  abbrev pub ask_disk : {A : Type 0} → (E.files.State → Fallible E.files.IoError A) → M E A
  ask_disk f s = (as_io (f s.disk), s)

  abbrev pub ask_remote : {A : Type 0} → (E.operator.State → Fallible ErrorKind A) → M E A
  ask_remote f s = (as_operator (f s.remote), s)

  abbrev pub change_remote :
      {A : Type 0} → (E.operator.State → Fallible ErrorKind A × E.operator.State) → M E A
  change_remote f s =
      let (result, remote) = f s.remote in (as_operator result, record s { remote = remote })

  -- A call whose error is dropped, `let _ = …`.
  abbrev pub try_disk :
      {A : Type 0} → (E.files.State → Fallible E.files.IoError A × E.files.State) → M E (Unit {0})
  try_disk f s = (ok tt, record s { disk = (f s.disk).1 })

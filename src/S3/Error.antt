-- ===== src/S3/Error.antt =====
-- The errors of the S3 backend and their classes (crates/omnifuse-s3/src/error.rs). An
-- `opendal::Error` is its kind.
use omni_fuse.FilePath.{FilePath}

-- `opendal::ErrorKind`; `unexpected` stands for the kinds that the crate does not name.
pub data ErrorKind : Type 0 where
  config_invalid not_found permission_denied condition_not_match already_exists : ErrorKind
  unsupported is_a_directory not_a_directory range_not_satisfied rate_limited unexpected : ErrorKind

-- `omnifuse_core::Code`
pub data Code : Type 0 where
  offline timeout auth_failed permission_denied not_found conflict rate_limited : Code
  invalid_config invalid_input fs_io backend_command_failed protocol_violation internal : Code

pub data S3Error : Type 0 where
  invalid_config : S3Error
  invalid_path : FilePath → S3Error
  conflict : FilePath → S3Error
  precondition_failed : FilePath → S3Error
  missing_capability : S3Error
  not_initialized : S3Error
  opendal : ErrorKind → S3Error

-- `anyhow::Error` by what `downcast_ref` finds in it.
pub data AnyError : Type 0 where
  s3 : S3Error → AnyError
  operator_error : ErrorKind → AnyError
  other : AnyError

unfoldable pub classify_opendal_kind : ErrorKind → Code
classify_opendal_kind config_invalid = Code.invalid_config
classify_opendal_kind ErrorKind.not_found = Code.not_found
classify_opendal_kind ErrorKind.permission_denied = Code.permission_denied
classify_opendal_kind condition_not_match = Code.conflict
classify_opendal_kind already_exists = Code.conflict
classify_opendal_kind unsupported = invalid_input
classify_opendal_kind is_a_directory = invalid_input
classify_opendal_kind not_a_directory = invalid_input
classify_opendal_kind range_not_satisfied = invalid_input
classify_opendal_kind ErrorKind.rate_limited = offline
classify_opendal_kind unexpected = internal

unfoldable pub classify_s3_error : AnyError → Code
unfolding classify_opendal_kind
classify_s3_error (s3 S3Error.invalid_config) = Code.invalid_config
classify_s3_error (s3 (invalid_path _)) = Code.invalid_config
classify_s3_error (s3 missing_capability) = Code.invalid_config
classify_s3_error (s3 (S3Error.conflict _)) = Code.conflict
classify_s3_error (s3 (precondition_failed _)) = Code.conflict
classify_s3_error (s3 not_initialized) = internal
classify_s3_error (s3 (opendal kind)) = classify_opendal_kind kind
classify_s3_error (operator_error kind) = classify_opendal_kind kind
classify_s3_error other = internal

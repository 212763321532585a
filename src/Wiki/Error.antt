-- ===== src/Wiki/Error.antt =====
-- The errors of the wiki backend and their classes (crates/omnifuse-wiki/src/error.rs). A text that the
-- error only shows is left out.
use omni_fuse.Prelude.{Option, none, some}
use omni_fuse.S3.Error.{Code}

pub data WikiError : Type 0 where
  invalid_config page_not_found access_denied changes_conflict : WikiError
  slug_occupied_or_reserved transport request_failed redirect : WikiError
  deserialization http_status not_initialized : WikiError

-- `anyhow::Error` by what `downcast_ref` finds in it.
pub data AnyError : Type 0 where
  wiki : WikiError → AnyError
  other : AnyError

unfoldable pub classify_wiki_error : AnyError → Option Code
classify_wiki_error (wiki invalid_config) = some Code.invalid_config
classify_wiki_error (wiki page_not_found) = some Code.not_found
classify_wiki_error (wiki access_denied) = some Code.permission_denied
classify_wiki_error (wiki changes_conflict) = some Code.conflict
classify_wiki_error (wiki slug_occupied_or_reserved) = some Code.invalid_input
classify_wiki_error (wiki transport) = some Code.offline
classify_wiki_error (wiki request_failed) = some Code.internal
classify_wiki_error (wiki not_initialized) = some Code.internal
classify_wiki_error (wiki redirect) = some Code.protocol_violation
classify_wiki_error (wiki deserialization) = some Code.protocol_violation
classify_wiki_error (wiki http_status) = some Code.protocol_violation
classify_wiki_error other = none

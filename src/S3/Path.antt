-- ===== src/S3/Path.antt =====
-- Local paths and object paths (crates/omnifuse-s3/src/path.rs). An object path is its text.
pub mod Names
pub mod Safe
use omni_fuse.Prelude.{
  Bool, false, ◌&&◌, ◌||◌, List, [], ◌∷◌, ◌++◌, Eq, ◌==◌, list_eq, nat_eq, Fallible, ok, err, ◌>>=◌,
  if◌then◌else◌, is_empty,
}
use omni_fuse.Core.TextMerge.Utf8.{from_utf8_lossy}
use omni_fuse.FilePath.{
  FilePath, Name, root_dir, cur_dir, parent_dir, normal, is_absolute, components, split,
  collect_segments, component_eq,
}

abbrev pub Key : Type 0
Key = Name

-- `S3Error::InvalidPath`
pub data PathError : Type 0 where
  invalid_path : FilePath → PathError

abbrev pub vfs_name : Name
vfs_name = b'.' ∷ b'v' ∷ b'f' ∷ b's' ∷ []

-- The loop of `validate_components`, over the components left, with the whole path for the error. A
-- part is `part.to_string_lossy()`.
unfoldable pub validate_each : FilePath → FilePath → Fallible PathError (List Name)
validate_each path [] = ok []
validate_each path (normal name ∷ rest) =
    let part = from_utf8_lossy name in
    let parts = validate_each path rest >>= λ parts. ok (part ∷ parts) in
    if is_empty part || part == vfs_name then err (invalid_path path) else parts
validate_each path (cur_dir ∷ rest) = validate_each path rest
validate_each path (parent_dir ∷ rest) = err (invalid_path path)
validate_each path (root_dir ∷ rest) = err (invalid_path path)

unfoldable pub validate_components : FilePath → Fallible PathError (List Name)
validate_components path =
    if is_absolute path
    then err (invalid_path path)
    else validate_each path path >>= λ parts.
        if is_empty parts then err (invalid_path path) else ok parts

-- `parts.join("/")`
unfoldable pub join_parts : List Name → Key
join_parts [] = []
join_parts (part ∷ []) = part
join_parts (part ∷ part' ∷ parts) = part ++ (b'/' ∷ join_parts (part' ∷ parts))

unfoldable pub from_local : FilePath → Fallible PathError Key
from_local path = validate_components path >>= λ parts. ok (join_parts parts)

-- `text.trim_start_matches('/')` and `text.trim_matches('/')`
unfoldable pub trim_start_matches : Name → Name
trim_start_matches [] = []
trim_start_matches (b ∷ text) =
    let rest = trim_start_matches text in if b == b'/' then rest else b ∷ text

unfoldable pub trim_end_matches : Name → Name
trim_end_matches [] = []
trim_end_matches (b ∷ text) =
    let rest = trim_end_matches text in if b == b'/' && is_empty rest then [] else b ∷ rest

unfoldable pub trim_matches : Name → Name
unfolding trim_start_matches trim_end_matches
trim_matches text = trim_end_matches (trim_start_matches text)

-- The error names the key.
abbrev pub rename_error : Key → Fallible PathError (List Name) → Fallible PathError (List Name)
rename_error key (ok parts) = ok parts
rename_error key (err e) = err (invalid_path (components key))

unfoldable pub from_remote : Key → Fallible PathError Key
from_remote key =
    rename_error key (validate_components (components (trim_matches key))) >>= λ parts.
    ok (join_parts parts)

unfoldable pub to_local_path : Key → FilePath
to_local_path key = collect_segments (split key)

-- `path.components().any(|c| c.as_os_str() == ".vfs")`
unfoldable pub is_internal_path : FilePath → Bool
is_internal_path [] = false
is_internal_path (component ∷ path) = component == normal vfs_name || is_internal_path path

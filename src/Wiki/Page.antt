-- ===== src/Wiki/Page.antt =====
-- Slugs of wiki pages and their local paths (crates/omnifuse-wiki/src/page.rs).
pub mod Names
pub mod Paths
use omni_fuse.Prelude.{
  ℕ, Bool, true, false, ◌&&◌, ◌||◌, not, List, [], ◌∷◌, ◌++◌, Option, none, some, ◌==◌, list_eq,
  nat_eq, if◌then◌else◌, is_empty, eqb,
}
use omni_fuse.FilePath.{
  FilePath, Name, normal, component_eq, split, segment_components, strip_prefix, is_absolute,
}
use omni_fuse.Core.TextMerge.Utf8.{from_utf8_lossy}
use omni_fuse.Unifuse.Inode.{path_text}

-- `.md` as a suffix and as an extension, and `.vfs`
abbrev pub md_suffix : Name
md_suffix = b'.' ∷ b'm' ∷ b'd' ∷ []

abbrev pub md : Name
md = b'm' ∷ b'd' ∷ []

abbrev pub vfs_dir : Name
vfs_dir = b'.' ∷ b'v' ∷ b'f' ∷ b's' ∷ []

-- `Slug(String)`
abbrev pub Slug : Type 0
Slug = Name

-- `value.replace('\\', "/")`
unfoldable pub replace_backslash : Name → Name
replace_backslash [] = []
replace_backslash (b ∷ text) = (if eqb b b'\\' then b'/' else b) ∷ replace_backslash text

abbrev prefix_byte : ℕ → Option Name → Option Name
prefix_byte b none = none
prefix_byte b (some text) = some (b ∷ text)

-- `text.strip_suffix(suffix)`, the suffix first
unfoldable pub strip_suffix : Name → Name → Option Name
strip_suffix suffix [] = if is_empty suffix then some [] else none
strip_suffix suffix (b ∷ text) =
    let rest = strip_suffix suffix text in
    if (b ∷ text) == suffix then some [] else prefix_byte b rest

abbrev pub or_whole : Name → Option Name → Name
or_whole whole none = whole
or_whole whole (some text) = text

-- `Slug::new`
unfoldable pub new_slug : Name → Slug
new_slug value =
    let normalized = replace_backslash value in
    or_whole normalized (strip_suffix md_suffix normalized)

abbrev pub is_bad_segment : Name → Bool
is_bad_segment segment =
    is_empty segment
    || (segment == (b'.' ∷ []) || (segment == (b'.' ∷ b'.' ∷ []) || segment == vfs_dir))

unfoldable pub no_bad_segment : List Name → Bool
no_bad_segment [] = true
no_bad_segment (segment ∷ segments) = not (is_bad_segment segment) && no_bad_segment segments

unfoldable pub is_valid_page_slug : Slug → Bool
is_valid_page_slug slug = not (is_empty slug) && no_bad_segment (split slug)

-- The parts of a name around its last dot.
unfoldable pub around_last_dot : Name → Option (Name × Name)
around_last_dot [] = none
around_last_dot (b ∷ name) = elim (around_last_dot name) [
  | some (before, after) ↦ some (b ∷ before, after)
  | none ↦ if eqb b b'.' then some ([], name) else none
]

-- `file_stem` and `extension` of a file name: a dot at the start does not count.
unfoldable pub file_stem : Name → Name
file_stem name = elim (around_last_dot name) [
  | none ↦ name
  | some ([], after) ↦ name
  | some (b ∷ before, after) ↦ b ∷ before
]

unfoldable pub name_extension : Name → Option Name
name_extension name = elim (around_last_dot name) [
  | none ↦ none
  | some ([], after) ↦ none
  | some (b ∷ before, after) ↦ some after
]

-- `path.extension()`
unfoldable pub extension : FilePath → Option Name
extension [] = none
extension (normal name ∷ []) = name_extension name
extension (c ∷ []) = none
extension (c ∷ d ∷ path) = extension (d ∷ path)

abbrev pub with_dot : Name → Name → Name
with_dot stem [] = stem
with_dot stem (b ∷ ext) = stem ++ (b'.' ∷ b ∷ ext)

-- `path.set_extension(ext)` and `path.with_extension(ext)`
unfoldable pub set_extension : Name → FilePath → FilePath
set_extension ext [] = []
set_extension ext (normal name ∷ []) = normal (with_dot (file_stem name) ext) ∷ []
set_extension ext (c ∷ []) = c ∷ []
set_extension ext (c ∷ d ∷ path) = c ∷ set_extension ext (d ∷ path)

pub record PageRef : Type 0 where
  pub slug : Slug
  pub path : FilePath

-- The segments of a valid slug are names of entries, so pushing them one by one appends them.
unfoldable pub from_slug : FilePath → Slug → Option PageRef
from_slug local_dir slug =
    if not (is_absolute local_dir) || not (is_valid_page_slug slug)
    then none
    else some (record {
      slug = slug;
      path = set_extension md (local_dir ++ segment_components (split slug));
    })

unfoldable pub has_vfs_component : FilePath → Bool
has_vfs_component [] = false
has_vfs_component (c ∷ path) = c == normal vfs_dir || has_vfs_component path

abbrev pub is_md : Option Name → Bool
is_md none = false
is_md (some ext) = ext == md

unfoldable pub from_path : FilePath → FilePath → Option PageRef
from_path local_dir path =
    if not (is_absolute local_dir) || (not (is_absolute path) || not (is_md (extension path)))
    then none
    else elim (strip_prefix local_dir path) [
      | none ↦ none
      | some rel ↦
          let slug = new_slug (from_utf8_lossy (path_text (set_extension [] rel))) in
          if has_vfs_component rel || not (is_valid_page_slug slug)
          then none
          else some (record { slug = slug; path = path })
    ]

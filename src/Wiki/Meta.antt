-- ===== src/Wiki/Meta.antt =====
-- The metadata and the base texts of pages on disk (crates/omnifuse-wiki/src/meta.rs). Outside the
-- session's state the store has only its two directories, which follow from the local directory.
use omni_fuse.Prelude.{List, [], ◌∷◌, ◌++◌, Option, none, some, Fallible, ok, err}
use omni_fuse.FilePath.{FilePath, Name, normal, split, segment_components}
use omni_fuse.Core.FileSystem.{FileSystem}
use omni_fuse.Core.TextMerge.{Bytes}
use omni_fuse.Core.TextMerge.Utf8.{decode_utf8_text}
use omni_fuse.Wiki.Page.{Slug, vfs_dir, md_suffix}
use omni_fuse.Wiki.State.{PageMeta, Outside, Session, W, ◌>>=◌, ◌>>◌, on_disk}

abbrev pub meta_name : Name
meta_name = b'm' ∷ b'e' ∷ b't' ∷ b'a' ∷ []

abbrev pub base_name : Name
base_name = b'b' ∷ b'a' ∷ b's' ∷ b'e' ∷ []

abbrev pub json_suffix : Name
json_suffix = b'.' ∷ b'j' ∷ b's' ∷ b'o' ∷ b'n' ∷ []

-- The segments pushed one by one, the last with the suffix.
unfoldable pub with_suffix : Name → List Name → FilePath
with_suffix suffix [] = []
with_suffix suffix (part ∷ []) = segment_components ((part ++ suffix) ∷ [])
with_suffix suffix (part ∷ part' ∷ parts) =
    segment_components (part ∷ []) ++ with_suffix suffix (part' ∷ parts)

-- `slug_to_path(slug, ext)`; the suffix is the extension with its dot.
unfoldable pub slug_to_path : Slug → Name → FilePath
slug_to_path slug suffix = with_suffix suffix (split slug)

abbrev pub parent : FilePath → FilePath
parent [] = []
parent (c ∷ []) = []
parent (c ∷ d ∷ path) = c ∷ parent (d ∷ path)

abbrev decoded : (Bytes → Option PageMeta) → Option Bytes → Option PageMeta
decoded from_json none = none
decoded from_json (some text) = from_json text

module _ {F : FileSystem} {O : Outside} where
  unfoldable pub meta_path : Slug → Session F O → FilePath
  meta_path slug s =
      s.local_dir ++ (normal vfs_dir ∷ normal meta_name ∷ slug_to_path slug json_suffix)

  unfoldable pub base_path : Slug → Session F O → FilePath
  base_path slug s =
      s.local_dir ++ (normal vfs_dir ∷ normal base_name ∷ slug_to_path slug md_suffix)

  abbrev encoded : PageMeta → W F O Bytes
  encoded meta s = (O.to_json meta, s)

  unfoldable pub save_meta : Slug → PageMeta → W F O (Unit {0})
  save_meta slug meta s =
      (do
        on_disk (F.create_dir_all (parent (meta_path slug s)))
        json ← encoded meta
        on_disk (F.write (meta_path slug s) json))
        s

  -- A file that cannot be read, is no text or no metadata counts as missing.
  unfoldable pub load_meta : Slug → Session F O → Option PageMeta
  load_meta slug s = elim (F.read (meta_path slug s) s.disk) [
    | err e ↦ none
    | ok bytes ↦ decoded O.from_json (decode_utf8_text bytes)
  ]

  unfoldable pub save_base : Slug → Bytes → W F O (Unit {0})
  save_base slug content s =
      (do
        on_disk (F.create_dir_all (parent (base_path slug s)))
        on_disk (F.write (base_path slug s) content))
        s

  unfoldable pub load_base : Slug → Session F O → Option Bytes
  load_base slug s = elim (F.read (base_path slug s) s.disk) [
    | err e ↦ none
    | ok bytes ↦ decode_utf8_text bytes
  ]

  abbrev ignoring : (F.State → Fallible F.IoError (Unit {0}) × F.State) → W F O (Unit {0})
  ignoring f s = (ok tt, record s { disk = (f s.disk).1 })

  -- Errors of the removals are ignored.
  unfoldable pub remove : Slug → W F O (Unit {0})
  remove slug s =
      (do ignoring (F.remove_file (meta_path slug s)); ignoring (F.remove_file (base_path slug s)))
        s

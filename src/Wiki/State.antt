-- ===== src/Wiki/State.antt =====
-- The state of the wiki session, and what it calls (crates/omnifuse-wiki/src/session.rs, models.rs). The
-- HTTP client, the persistent cache, `diffy::merge` and the JSON encoder are parameters. Errors of the
-- file system are none of the crate's, so they are `other`.
use omni_fuse.Prelude.{ℕ, Bool, Option, none, some, Fallible, ok, err}
use omni_fuse.FilePath.{FilePath, Name}
use omni_fuse.Core.FileSystem.{FileSystem}
use omni_fuse.Core.TextMerge.{Bytes, Merge}
use omni_fuse.Core.TextMerge.Utf8.{decode_utf8_text}
use omni_fuse.Wiki.Error.{AnyError, other}
use omni_fuse.Wiki.Page.{Slug}
use omni_fuse.Wiki.PageIndex.{PageIndex}

-- `PageTreeNodeSchema`, without its children.
pub record PageNode : Type 0 where
  pub id : ℕ
  pub slug : Name
  pub title : Name
  pub modified_at : Name

mutual
  -- `PageTreeNodeSchema`: a node without the field `children`, or with it.
  pub data PageTree : Type 0 where
    childless : PageNode → PageTree
    parent_of : PageNode → PageForest → PageTree

  pub data PageForest : Type 0 where
    no_more : PageForest
    child : PageTree → PageForest → PageForest

-- `PageFullDetailsSchema`, the fields that the session reads.
pub record PageFull : Type 0 where
  pub id : ℕ
  pub title : Name
  pub modified_at : Name
  pub content : Option Bytes

pub record PageMeta : Type 0 where
  pub id : ℕ
  pub title : Name
  pub slug : Slug
  pub modified_at : Name

-- The client and the cache over one state of the world outside. An error of the cache is only logged.
pub record Outside : Type 1 where
  pub State : Type 0
  pub get_page_tree : Name → (max_pages max_depth : ℕ) → State → Fallible AnyError PageTree × State
  pub get_page_by_slug : Slug → State → Fallible AnyError PageFull × State
  pub create_page : Slug → (title : Name) → Bytes → State → Fallible AnyError PageFull × State
  pub update_page :
      (id : ℕ) (title : Name)
      → Bytes
      → (allow_merge : Bool) → State
      → Fallible AnyError PageFull × State
  pub cache_get : Slug → (revision : Name) → State → Option Bytes × State
  pub cache_put : Slug → (revision : Name) → Bytes → State → State
  pub to_json : PageMeta → Fallible AnyError Bytes
  pub from_json : Bytes → Option PageMeta
  pub merge : Bytes → Bytes → Bytes → Merge

-- `WikiConfig`, the fields that the session reads.
pub record WikiConfig : Type 0 where
  pub root_slug : Name
  pub max_depth : ℕ
  pub max_pages : ℕ

pub record Session (F : FileSystem) (O : Outside) : Type 0 where
  pub config : WikiConfig
  pub local_dir : FilePath
  pub page_index : PageIndex
  pub has_cache : Bool
  pub disk : F.State
  pub outside : O.State

abbrev pub W : FileSystem → Outside → Type 0 → Type 0
W F O A = Session F O → Fallible AnyError A × Session F O

-- An error of the file system.
abbrev pub from_io : {E A : Type 0} → Fallible E A → Fallible AnyError A
from_io (ok a) = ok a
from_io (err e) = err other

-- `read_to_string` of bytes that were read: they must be text.
abbrev pub as_text : Option Bytes → Fallible AnyError Bytes
as_text none = err other
as_text (some text) = ok text

module _ {F : FileSystem} {O : Outside} where
  infixl 5 ◌>>=◌ ◌>>◌
  abbrev pub ◌>>=◌ : {A B : Type 0} → W F O A → (A → W F O B) → W F O B
  ◌>>=◌ m f s = let (result, s') = m s in elim result [ err e ↦ (err e, s') | ok a ↦ f a s' ]

  abbrev pub ◌>>◌ : {B : Type 0} → W F O (Unit {0}) → W F O B → W F O B
  m >> k = m >>= λ _. k

  abbrev pub pure : {A : Type 0} → A → W F O A
  pure a s = (ok a, s)

  abbrev pub fail : {A : Type 0} → AnyError → W F O A
  fail e s = (err e, s)

  -- A call of the client, and one that writes the disk.
  abbrev pub remote : {A : Type 0} → (O.State → Fallible AnyError A × O.State) → W F O A
  remote f s = let (result, outside) = f s.outside in (result, record s { outside = outside })

  abbrev pub on_disk : {A : Type 0} → (F.State → Fallible F.IoError A × F.State) → W F O A
  on_disk f s = let (result, disk) = f s.disk in (from_io result, record s { disk = disk })

  abbrev pub read_text : FilePath → W F O Bytes
  read_text path s = elim (F.read path s.disk) [
    | err e ↦ (err other, s)
    | ok bytes ↦ (as_text (decode_utf8_text bytes), s)
  ]

  abbrev pub change_index : (PageIndex → PageIndex) → W F O (Unit {0})
  change_index f s = (ok tt, record s { page_index = f s.page_index })

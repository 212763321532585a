-- ===== src/Wiki/PageIndex.antt =====
-- The index of pages by slug and by path (crates/omnifuse-wiki/src/page_index.rs).
pub mod Consistent
use omni_fuse.Prelude.{ℕ, [], Option, none, some, list_eq, nat_eq}
use omni_fuse.Prelude.Map
use omni_fuse.Prelude.Map.{Map, lookup, erase}
use omni_fuse.FilePath.{FilePath, Name, component_eq}
use omni_fuse.Wiki.Page.{Slug, PageRef}

-- The remote page's number, title and time of its last change.
pub record PageSnapshot : Type 0 where
  pub id : ℕ
  pub title : Name
  pub modified_at : Name

pub record PageEntry : Type 0 where
  pub page_ref : PageRef
  pub snapshot : PageSnapshot

pub record PageIndex : Type 0 where
  pub entry_by_slug : Map Slug PageEntry
  pub slug_by_path : Map FilePath Slug

abbrev pub empty_index : PageIndex
empty_index = record { entry_by_slug = []; slug_by_path = [] }

abbrev pub forget_previous : Option PageEntry → Map FilePath Slug → Map FilePath Slug
forget_previous none paths = paths
forget_previous (some previous) paths = erase previous.page_ref.path paths

unfoldable pub insert : PageRef → PageSnapshot → PageIndex → PageIndex
insert page snapshot index = record {
  entry_by_slug =
      Map.insert page.slug (record { page_ref = page; snapshot = snapshot }) index.entry_by_slug;
  slug_by_path =
      Map.insert page.path page.slug
        (forget_previous (lookup page.slug index.entry_by_slug) index.slug_by_path);
}

unfoldable pub remove_path : FilePath → PageIndex → PageIndex
remove_path path index = elim (lookup path index.slug_by_path) [
  | none ↦ index
  | some slug ↦ record {
    entry_by_slug = erase slug index.entry_by_slug;
    slug_by_path = erase path index.slug_by_path;
  }
]

unfoldable pub by_slug : Slug → PageIndex → Option PageEntry
by_slug slug index = lookup slug index.entry_by_slug

unfoldable pub by_path : FilePath → PageIndex → Option PageEntry
by_path path index = elim (lookup path index.slug_by_path) [
  | none ↦ none
  | some slug ↦ lookup slug index.entry_by_slug
]

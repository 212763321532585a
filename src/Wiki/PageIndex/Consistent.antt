-- ===== src/Wiki/PageIndex/Consistent.antt =====
-- The two maps of the index against each other (crates/omnifuse-wiki/src/page_index.rs).
use omni_fuse.Prelude.{
  ◌≡◌, List, [], ◌∷◌, some, inl, inr, arith, list_eq, nat_eq, list_beq_iff, list_beq, Option-cases,
  Bool-cases,
}
use omni_fuse.Prelude.Map.{lookup, lookup-insert, lookup-erase}
use omni_fuse.FilePath.{FilePath, component_eq}
use omni_fuse.Wiki.Page.{Slug, PageRef}
use omni_fuse.Wiki.PageIndex.{
  PageSnapshot, PageEntry, PageIndex, empty_index, forget_previous, insert, remove_path, by_slug,
  by_path,
}

-- A path that is known leads to a slug, and the slug to an entry with this path and this slug.
record Found (path : FilePath) (slug : Slug) (index : PageIndex) : Type 0 where
  entry : PageEntry
  there : lookup slug index.entry_by_slug ≡ some entry
  path_is : entry.page_ref.path ≡ path
  slug_is : entry.page_ref.slug ≡ slug

IsConsistent : PageIndex → Type 0
IsConsistent index =
    (path : FilePath) (slug : Slug)
    → lookup path index.slug_by_path ≡ some slug
    → Found path slug index

pub data Op : Type 0 where
  insert_op : PageRef → PageSnapshot → Op
  remove_op : FilePath → Op

unfoldable pub run : List Op → PageIndex → PageIndex
run [] index = index
run (insert_op page snapshot ∷ ops) index = run ops (insert page snapshot index)
run (remove_op path ∷ ops) index = run ops (remove_path path index)

insert-IsConsistent :
    (page : PageRef) (snapshot : PageSnapshot) (index : PageIndex)
    → IsConsistent index
    → IsConsistent (insert page snapshot index)
unfolding insert IsConsistent
insert-IsConsistent page snapshot index consistent path slug h =
    let new_entry : PageEntry = record { page_ref = page; snapshot = snapshot } in
    let paths = forget_previous (lookup page.slug index.entry_by_slug) index.slug_by_path in
    let at = lookup-insert path page.path page.slug paths in
    let entries = lookup-insert slug page.slug new_entry index.entry_by_slug in
    elim (Bool-cases (list_beq path page.path)) [
      | inl same ↦ record {
        entry = new_entry;
        there = ground (arith, at, entries, list_beq_iff slug page.slug);
        path_is = ground (arith, list_beq_iff path page.path);
        slug_is = ground (arith, at);
      }
      | inr other ↦ elim (Option-cases (lookup page.slug index.entry_by_slug)) [
        | inl fresh ↦
            let old = consistent path slug (ground (arith, at)) in
            record {
              entry = old.entry;
              there = ground (arith, old.there, entries, list_beq_iff slug page.slug);
              path_is = old.path_is;
              slug_is = old.slug_is;
            }
        | inr (previous, known) ↦
            let gone = lookup-erase path previous.page_ref.path index.slug_by_path in
            let old = consistent path slug (ground (arith, at, gone)) in
            record {
              entry = old.entry;
              there = ground (
                arith,
                at,
                gone,
                old.there,
                old.path_is,
                entries,
                list_beq_iff slug page.slug,
                list_beq_iff path previous.page_ref.path,
              );
              path_is = old.path_is;
              slug_is = old.slug_is;
            }
      ]
    ]

remove_path-IsConsistent :
    (gone : FilePath) (index : PageIndex)
    → IsConsistent index
    → IsConsistent (remove_path gone index)
unfolding remove_path IsConsistent
remove_path-IsConsistent gone index consistent path slug h =
    elim (Option-cases (lookup gone index.slug_by_path)) [
      | inl unknown ↦
          let old = consistent path slug (ground arith) in
          record {
            entry = old.entry;
            there = ground (arith, old.there);
            path_is = old.path_is;
            slug_is = old.slug_is;
          }
      | inr (lost, known) ↦
          let at = lookup-erase path gone index.slug_by_path in
          let old = consistent path slug (ground (arith, at)) in
          let dropped = consistent gone lost known in
          record {
            entry = old.entry;
            there = ground (
              arith,
              at,
              old.there,
              old.path_is,
              dropped.there,
              dropped.path_is,
              lookup-erase slug lost index.entry_by_slug,
              list_beq_iff slug lost,
              list_beq_iff path gone,
            );
            path_is = old.path_is;
            slug_is = old.slug_is;
          }
    ]

run-IsConsistent :
    (ops : List Op) (index : PageIndex) → IsConsistent index → IsConsistent (run ops index)
unfolding run
run-IsConsistent [] index consistent = consistent
run-IsConsistent (insert_op page snapshot ∷ ops) index consistent =
    run-IsConsistent ops (insert page snapshot index)
      (insert-IsConsistent page snapshot index consistent)
run-IsConsistent (remove_op path ∷ ops) index consistent =
    run-IsConsistent ops (remove_path path index) (remove_path-IsConsistent path index consistent)

empty-IsConsistent : IsConsistent empty_index
unfolding IsConsistent lookup
empty-IsConsistent path slug h = absurd (ground arith)

-- After any insertions and removals on an empty index, the entry found for a path is one of this path,
-- and the same entry is found for its slug.
pub by_path-run :
    (ops : List Op) (path : FilePath) (entry : PageEntry)
    → by_path path (run ops empty_index) ≡ some entry
    → (entry.page_ref.path ≡ path)
      × (by_slug entry.page_ref.slug (run ops empty_index) ≡ some entry)
unfolding by_path by_slug IsConsistent
by_path-run ops path entry h =
    let index = run ops empty_index in
    elim (Option-cases (lookup path index.slug_by_path)) [
      | inl unknown ↦ absurd (ground arith)
      | inr (slug, known) ↦
          let f = run-IsConsistent ops empty_index empty-IsConsistent path slug known in
          let same : entry ≡ f.entry = ground (arith, f.there) in
          (ground (arith, f.path_is), ground (arith, f.there, f.slug_is))
    ]

-- ===== src/Wiki/Page/Paths.antt =====
-- Pages whose local paths coincide (crates/omnifuse-wiki/src/page.rs, `PageRef::from_slug`).
use omni_fuse.Prelude.{
  ℕ, ◌≡◌, ◌≢◌, ap, sym, ◌∙◌, false, [], ◌∷◌, ◌++◌, some, inl, inr, arith, list_eq, nat_eq, contains,
  contains-append, Bool-cases, length, length-append,
}
use omni_fuse.FilePath.{FilePath, Name, normal, component_eq, split, segment_components}
use omni_fuse.Wiki.Page.{
  PageRef, from_slug, file_stem, md, is_bad_segment, is_valid_page_slug, no_bad_segment, with_dot,
}
use omni_fuse.Wiki.Page.Names.{
  file_stem_plain, file_stem-append, set_extension-append, split_plain, segment_plain,
}

-- The path of a page of one segment.
path-from_slug :
    (dir : FilePath) (name : Name) (page : PageRef)
    → contains name b'/' ≡ false
    → from_slug dir name ≡ some page
    → (page.slug ≡ name) × (page.path ≡ dir ++ (normal (with_dot (file_stem name) md) ∷ []))
unfolding from_slug is_valid_page_slug no_bad_segment segment_components
path-from_slug dir name page plain made = elim (Bool-cases (is_bad_segment name)) [
  | inl bad ↦ absurd (ground (arith, split_plain name plain))
  | inr good ↦
      let segments : segment_components (split name) ≡ normal name ∷ [] =
        ground (arith, split_plain name plain, segment_plain name good) in
      (ground arith, ground (arith, segments, set_extension-append md name dir))
]

-- The pages `x` and `x.y` of a wiki have the same local file, though they are different pages: the
-- extension `md` replaces what follows the last dot of a slug.
pub from_slug_collision :
    (dir : FilePath) (b : ℕ) (rest ext : Name) (page dotted : PageRef)
    → contains (b ∷ rest) b'.' ≡ false
    → contains (b ∷ rest) b'/' ≡ false
    → contains ext b'.' ≡ false
    → contains ext b'/' ≡ false
    → from_slug dir (b ∷ rest) ≡ some page
    → from_slug dir (b ∷ rest ++ (b'.' ∷ ext)) ≡ some dotted
    → (dotted.path ≡ page.path) × (dotted.slug ≢ page.slug)
unfolding contains
from_slug_collision dir b rest ext page dotted no_dot no_slash ext_dot ext_slash made made' =
    let slashes = contains-append (b ∷ rest) (b'.' ∷ ext) b'/' in
    let (slug, path) = path-from_slug dir (b ∷ rest) page no_slash made in
    let (slug', path') =
      path-from_slug dir (b ∷ rest ++ (b'.' ∷ ext)) dotted (ground (arith, slashes)) made' in
    (
      ground (arith, file_stem_plain (b ∷ rest) no_dot, file_stem-append b rest ext ext_dot),
      λ same.
          let longer = length-append (b ∷ rest) (b'.' ∷ ext) in
          let equal : length (b ∷ rest ++ (b'.' ∷ ext)) ≡ length (b ∷ rest) =
            ap length (sym slug' ∙ same ∙ slug) in
          absurd (omega (arith, longer, equal)),
    )

-- ===== src/Wiki/Page/Names.antt =====
-- Names around their last dot (crates/omnifuse-wiki/src/page.rs, by `std::path`).
use omni_fuse.Prelude.{
  ℕ, ◌≡◌, refl, ap, false, [], ◌∷◌, ◌++◌, none, some, arith, list_eq, nat_eq, contains,
}
use omni_fuse.FilePath.{FilePath, Name, normal, component_eq, split, segment_component}
use omni_fuse.Wiki.Page.{around_last_dot, file_stem, set_extension, with_dot, is_bad_segment}

pub around_last_dot-none : (name : Name) → contains name b'.' ≡ false → around_last_dot name ≡ none
unfolding around_last_dot contains
around_last_dot-none [] h = refl
around_last_dot-none (b ∷ name) h = ground (arith, around_last_dot-none name)

pub around_last_dot-append :
    (name ext : Name)
    → contains ext b'.' ≡ false
    → around_last_dot (name ++ (b'.' ∷ ext)) ≡ some (name, ext)
unfolding around_last_dot
around_last_dot-append [] ext h = ground (arith, around_last_dot-none ext h)
around_last_dot-append (b ∷ name) ext h = ground (arith, around_last_dot-append name ext h)

pub file_stem_plain : (name : Name) → contains name b'.' ≡ false → file_stem name ≡ name
unfolding file_stem
file_stem_plain name h = ground (arith, around_last_dot-none name h)

pub file_stem-append :
    (b : ℕ) (name ext : Name)
    → contains ext b'.' ≡ false
    → file_stem (b ∷ name ++ (b'.' ∷ ext)) ≡ b ∷ name
unfolding file_stem
file_stem-append b name ext h = ground (arith, around_last_dot-append (b ∷ name) ext h)

pub set_extension-append :
    (ext name : Name) (dir : FilePath)
    → set_extension ext (dir ++ (normal name ∷ []))
      ≡ dir ++ (normal (with_dot (file_stem name) ext) ∷ [])
unfolding set_extension
set_extension-append ext name [] = refl
set_extension-append ext name (c ∷ []) = ground arith
set_extension-append ext name (c ∷ d ∷ dir) = ap (◌∷◌ c) (set_extension-append ext name (d ∷ dir))

pub split_plain : (name : Name) → contains name b'/' ≡ false → split name ≡ name ∷ []
unfolding split contains
split_plain [] h = refl
split_plain (b ∷ name) h = ground (arith, split_plain name)

pub segment_plain :
    (name : Name) → is_bad_segment name ≡ false → segment_component false name ≡ normal name ∷ []
unfolding segment_component
segment_plain [] h = absurd (ground arith)
segment_plain (b ∷ name) h = ground arith

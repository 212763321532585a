-- ===== src/S3/Path/Names.antt =====
-- Which names the components of paths and the parts of object paths can have
-- (crates/omnifuse-s3/src/path.rs).
use omni_fuse.Prelude.{
  ℕ, Bool, true, false, ◌&&◌, ◌||◌, not, List, [], ◌∷◌, ◌++◌, ◌==◌, list_eq, nat_eq, is_empty, ◌≡◌,
  refl, arith, inl, inr, contains, list_beq_iff, eqb_iff,
}
use omni_fuse.Prelude.Map.{is_some}
use omni_fuse.Core.TextMerge.Utf8.{decode_utf8_text, from_utf8_lossy}
use omni_fuse.Core.TextMerge.Utf8.Lossy.{
  from_utf8_lossy-decode_utf8_text, from_utf8_lossy-marked, from_utf8_lossy-ascii,
}
use omni_fuse.FilePath.{
  FilePath, Name, root_dir, cur_dir, parent_dir, normal, components, split, push_front,
  collect_segments, segment_component, segment_components, component_eq,
}

abbrev pub has_slash : Name → Bool
has_slash [] = false
has_slash (b ∷ text) = b == b'/' || has_slash text

-- A name that a path component can have: not empty, with no slash, and neither `.` nor `..`.
abbrev pub is_name : Name → Bool
is_name text =
    not (is_empty text)
    && (not (has_slash text) && (not (text == (b'.' ∷ [])) && not (text == (b'.' ∷ b'.' ∷ []))))

abbrev pub names_ok : FilePath → Bool
names_ok [] = true
names_ok (normal text ∷ path) = is_name text && names_ok path
names_ok (_ ∷ path) = names_ok path

-- The names as text, and whether they are UTF-8.
abbrev pub as_text : FilePath → FilePath
as_text [] = []
as_text (normal name ∷ path) = normal (from_utf8_lossy name) ∷ as_text path
as_text (c ∷ path) = c ∷ as_text path

abbrev pub is_utf8_path : FilePath → Bool
is_utf8_path [] = true
is_utf8_path (normal name ∷ path) = is_some (decode_utf8_text name) && is_utf8_path path
is_utf8_path (_ ∷ path) = is_utf8_path path

pub as_text-is_utf8_path : (path : FilePath) → is_utf8_path path ≡ true → as_text path ≡ path
unfolding decode_utf8_text
as_text-is_utf8_path [] h = refl
as_text-is_utf8_path (normal name ∷ path) h =
    ground (arith, from_utf8_lossy-decode_utf8_text name, as_text-is_utf8_path path)
as_text-is_utf8_path (root_dir ∷ path) h = ground (arith, as_text-is_utf8_path path)
as_text-is_utf8_path (cur_dir ∷ path) h = ground (arith, as_text-is_utf8_path path)
as_text-is_utf8_path (parent_dir ∷ path) h = ground (arith, as_text-is_utf8_path path)

has_slash-contains : (text : Name) → has_slash text ≡ contains text b'/'
unfolding contains
has_slash-contains [] = refl
has_slash-contains (b ∷ text) =
    ground (arith, has_slash-contains text, eqb_iff b b'/', eqb_iff b'/' b)

-- What the text of a name is.
pub is_name-from_utf8_lossy :
    (name : Name)
    → is_name name ≡ true
    → is_empty (from_utf8_lossy name) ≡ false
    → is_name (from_utf8_lossy name) ≡ true
unfolding contains
is_name-from_utf8_lossy name h some_byte =
    let text = from_utf8_lossy name in
    elim (from_utf8_lossy-marked name) [
      | inl same ↦ ground (arith, same)
      | inr marked ↦ ground (
        arith,
        from_utf8_lossy-ascii b'/' name,
        has_slash-contains name,
        has_slash-contains text,
        list_beq_iff text (b'.' ∷ []),
        list_beq_iff text (b'.' ∷ b'.' ∷ []),
      )
    ]

pub split_name : (text : Name) → has_slash text ≡ false → split text ≡ text ∷ []
unfolding split
split_name [] h = refl
split_name (b ∷ text) h = ground (arith, split_name text)

pub split-append :
    (text rest : Name) → has_slash text ≡ false → split (text ++ (b'/' ∷ rest)) ≡ text ∷ split rest
unfolding split
split-append [] rest h = refl
split-append (b ∷ text) rest h = ground (arith, split-append text rest)

-- The components of any text have names that components can have.
names_ok-append : (p q : FilePath) → names_ok (p ++ q) ≡ (names_ok p && names_ok q)
names_ok-append [] q = refl
names_ok-append (normal text ∷ p) q = ground (arith, names_ok-append p q)
names_ok-append (root_dir ∷ p) q = names_ok-append p q
names_ok-append (cur_dir ∷ p) q = names_ok-append p q
names_ok-append (parent_dir ∷ p) q = names_ok-append p q

abbrev no_slashes : List Name → Bool
no_slashes [] = true
no_slashes (text ∷ texts) = not (has_slash text) && no_slashes texts

no_slashes-push :
    (b : ℕ) (texts : List Name)
    → no_slashes (push_front b texts) ≡ (not (b == b'/') && no_slashes texts)
no_slashes-push b [] = ground arith
no_slashes-push b (text ∷ texts) = ground arith

no_slashes-split : (text : Name) → no_slashes (split text) ≡ true
unfolding split
no_slashes-split [] = refl
no_slashes-split (b ∷ text) = ground (arith, no_slashes-split text, no_slashes-push b (split text))

segment-ok :
    (first : Bool) (text : Name)
    → has_slash text ≡ false
    → names_ok (segment_component first text) ≡ true
unfolding segment_component
segment-ok first [] h = refl
segment-ok first (b ∷ text) h = ground arith

segments-ok :
    (texts : List Name) → no_slashes texts ≡ true → names_ok (segment_components texts) ≡ true
unfolding segment_components
segments-ok [] h = refl
segments-ok (text ∷ texts) h = ground (
  arith,
  names_ok-append (segment_component false text) (segment_components texts),
  segment-ok false text,
  segments-ok texts,
)

collect-ok :
    (texts : List Name) → no_slashes texts ≡ true → names_ok (collect_segments texts) ≡ true
unfolding collect_segments
collect-ok [] h = refl
collect-ok ([] ∷ texts) h = collect-ok texts (ground arith)
collect-ok ((b ∷ text) ∷ texts) h = ground (
  arith,
  names_ok-append (segment_component true (b ∷ text)) (segment_components texts),
  segment-ok true (b ∷ text),
  segments-ok texts,
)

pub names_ok-components : (text : Name) → names_ok (components text) ≡ true
unfolding components
names_ok-components [] = refl
names_ok-components (b ∷ text) = ground (
  arith,
  segments-ok (split text) (no_slashes-split text),
  collect-ok (split (b ∷ text)) (no_slashes-split (b ∷ text)),
)

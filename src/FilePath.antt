-- ===== src/FilePath.antt =====
-- `std::path` as the crates use it: a path is the sequence that `Path::components` yields, and
-- equality, `starts_with`, `strip_prefix` and `join` act on components. A name is its bytes.
-- `to_string_lossy` is `from_utf8_lossy` (Core/TextMerge/Utf8.antt) at these bytes. A slash at the end
-- of a path is not kept, as `Path::components` does not yield it.
use omni_fuse.Prelude.{
  ℕ, nat_eq, list_beq_iff, Bool, true, false, ◌&&◌, List, [], ◌∷◌, ◌++◌, Option, none, some, ◌≡◌,
  refl, ◌↔◌, arith, Eq, ◌==◌, list_eq, if◌then◌else◌,
}

abbrev pub Name : Type 0
Name = List ℕ

pub data Component : Type 0 where
  root_dir cur_dir parent_dir : Component
  normal : Name → Component

unfoldable pub component_beq : Component → Component → Bool
component_beq root_dir root_dir = true
component_beq cur_dir cur_dir = true
component_beq parent_dir parent_dir = true
component_beq (normal s) (normal t) = s == t
component_beq _ _ = false

pub component_beq_iff : (a b : Component) → (component_beq a b ≡ true) ↔ (a ≡ b)
unfolding component_beq
component_beq_iff (normal s) (normal t) = ground (arith, list_beq_iff s t)
component_beq_iff _ _ = ground arith

instance abbrev pub component_eq : Eq Component
component_eq = record { beq = component_beq; beq_iff = component_beq_iff }

abbrev pub FilePath : Type 0
FilePath = List Component

-- `Path::is_absolute` on Unix
unfoldable pub is_absolute : FilePath → Bool
is_absolute (root_dir ∷ p) = true
is_absolute _ = false

-- The first segment has no path before it.
unfoldable pub segment_component : Bool → Name → FilePath
segment_component first [] = []
segment_component first segment =
    if segment == (b'.' ∷ [])
    then (if first then cur_dir ∷ [] else [])
    else if segment == (b'.' ∷ b'.' ∷ [])
    then parent_dir ∷ []
    else normal segment ∷ []

abbrev pub push_front : ℕ → List Name → List Name
push_front b [] = (b ∷ []) ∷ []
push_front b (segment ∷ segments) = (b ∷ segment) ∷ segments

-- `text.split('/')`
unfoldable pub split : Name → List Name
split [] = [] ∷ []
split (b ∷ text) = let rest = split text in if b == b'/' then [] ∷ rest else push_front b rest

unfoldable pub segment_components : List Name → FilePath
segment_components [] = []
segment_components (segment ∷ segments) =
    segment_component false segment ++ segment_components segments

-- Pushing the segments of a text onto an empty path: `text.split('/').collect()`.
unfoldable pub collect_segments : List Name → FilePath
collect_segments [] = []
collect_segments ([] ∷ segments) = collect_segments segments
collect_segments (segment ∷ segments) =
    segment_component true segment ++ segment_components segments

-- `Path::new(text).components()`
unfoldable pub components : Name → FilePath
components [] = []
components (b ∷ text) =
    if b == b'/'
    then root_dir ∷ segment_components (split text)
    else collect_segments (split (b ∷ text))

-- `path.strip_prefix(base)`
unfoldable pub strip_prefix : FilePath → FilePath → Option FilePath
strip_prefix [] p = some p
strip_prefix (b ∷ base) [] = none
strip_prefix (b ∷ base) (c ∷ p) = if b == c then strip_prefix base p else none

-- `path.starts_with(base)`, the base first
unfoldable pub starts_with : FilePath → FilePath → Bool
starts_with [] p = true
starts_with (b ∷ base) [] = false
starts_with (b ∷ base) (c ∷ p) = b == c && starts_with base p

-- `base.join(p)`: an absolute path replaces the base.
unfoldable pub join : FilePath → FilePath → FilePath
unfolding is_absolute
join base p = if is_absolute p then p else base ++ p

pub strip_prefix_iff :
    (base p rest : FilePath) → (strip_prefix base p ≡ some rest) ↔ (p ≡ base ++ rest)
unfolding strip_prefix
strip_prefix_iff [] p rest = ground arith
strip_prefix_iff (b ∷ base) [] rest = ground arith
strip_prefix_iff (b ∷ base) (c ∷ p) rest =
    ground (arith, component_beq_iff b c, strip_prefix_iff base p rest)

pub starts_with-append : (base rest : FilePath) → starts_with base (base ++ rest) ≡ true
unfolding starts_with
starts_with-append [] rest = refl
starts_with-append (b ∷ base) rest =
    ground (arith, starts_with-append base rest, component_beq_iff b b)

pub starts_with-split :
    (base p : FilePath) → starts_with base p ≡ true → (rest : FilePath) × (p ≡ base ++ rest)
unfolding starts_with
starts_with-split [] p h = (p, refl)
starts_with-split (b ∷ base) [] h = absurd (ground arith)
starts_with-split (b ∷ base) (c ∷ p) h =
    let (rest, e) = starts_with-split base p (ground arith) in
    (rest, ground (arith, component_beq_iff b c))

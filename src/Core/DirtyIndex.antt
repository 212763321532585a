-- ===== src/Core/DirtyIndex.antt =====
-- The shared index of locally dirty paths (crates/omnifuse-core/src/dirty_index.rs). The lock
-- makes each method atomic, so a method is a function on the set of paths.
use omni_fuse.Prelude.{
  Bool, true, false, ◌&&◌, ◌||◌, not, List, [], ◌∷◌, ◌++◌, ◌≡◌, sym, ◌↔◌, arith, ◌==◌, contains,
  list_eq, list_beq_iff, Bool-cases, inl, inr,
}
use omni_fuse.Prelude.Set
use mathlib.Core.List.{append-nil}
use omni_fuse.FilePath.{FilePath, starts_with, starts_with-append, starts_with-split, component_eq}

abbrev pub DirtyIndex : Type 0
DirtyIndex = List FilePath

unfoldable pub mark_dirty : FilePath → DirtyIndex → DirtyIndex
mark_dirty path paths = Set.insert path paths

unfoldable pub mark_clean : FilePath → DirtyIndex → DirtyIndex
mark_clean path paths = Set.remove path paths

unfoldable pub snapshot : DirtyIndex → List FilePath
snapshot paths = paths

-- `any` over the set
unfoldable pub is_protected : DirtyIndex → FilePath → Bool
is_protected [] path = false
is_protected (dirty_path ∷ paths) path =
    path == dirty_path || starts_with dirty_path path || is_protected paths path

pub contains-mark_dirty :
    (paths : DirtyIndex) (path q : FilePath)
    → contains (mark_dirty path paths) q ≡ (q == path || contains paths q)
unfolding mark_dirty
contains-mark_dirty paths path q = Set.contains-insert paths path q

pub contains-mark_clean :
    (paths : DirtyIndex) (path q : FilePath)
    → contains (mark_clean path paths) q ≡ (contains paths q && not (q == path))
unfolding mark_clean
contains-mark_clean paths path q = Set.contains-remove paths path q

protected-split :
    (paths : DirtyIndex) (path : FilePath)
    → is_protected paths path ≡ true
    → (d : FilePath) × (rest : FilePath) × (contains paths d ≡ true) × (path ≡ d ++ rest)
unfolding is_protected contains
protected-split [] path h = absurd (ground arith)
protected-split (d ∷ paths) path h = elim (Bool-cases (path == d)) [
  | inl same ↦
      (d, [], ground (arith, list_beq_iff d d), ground (arith, list_beq_iff path d, append-nil d))
  | inr other ↦ elim (Bool-cases (starts_with d path)) [
    | inl below ↦
        let (rest, e) = starts_with-split d path below in
        (d, rest, ground (arith, list_beq_iff d d), e)
    | inr apart ↦
        let (d', rest, member, e) = protected-split paths path (ground arith) in
        (d', rest, ground arith, e)
  ]
]

protected-join :
    (paths : DirtyIndex) (d rest : FilePath)
    → contains paths d ≡ true
    → is_protected paths (d ++ rest) ≡ true
unfolding is_protected contains
protected-join [] d rest h = ground arith
protected-join (x ∷ paths) d rest h =
    ground (arith, list_beq_iff d x, starts_with-append d rest, protected-join paths d rest)

-- A path is protected exactly when it is a dirty path or lies below one: it is a dirty path
-- followed by further components.
pub is_protected_iff :
    (paths : DirtyIndex) (path : FilePath)
    → (is_protected paths path ≡ true)
      ↔ ((d : FilePath) × (rest : FilePath) × (contains paths d ≡ true) × (path ≡ d ++ rest))
is_protected_iff paths path =
    (protected-split paths path, λ (d, rest, member, e). rw e (protected-join paths d rest member))

-- A dirty path is protected itself.
pub is_protected_self :
    (paths : DirtyIndex) (path : FilePath)
    → contains paths path ≡ true
    → is_protected paths path ≡ true
is_protected_self paths path h =
    (is_protected_iff paths path).1 (path, [], h, sym (append-nil path))

-- ===== src/Unifuse/Rfuse3/Listing.antt =====
-- Reading a directory from an offset on (crates/unifuse/src/rfuse3_adapter.rs, `readdir`).
use omni_fuse.Prelude.{
  ℕ, sym, drop_all, zero, suc, ◌+◌, ◌-◌, ◌≡◌, refl, List, [], ◌∷◌, ◌++◌, none, some, inl, inr,
  arith, list_eq, nat_eq, if◌then◌else◌, ltb, drop, map, ok, Bool-cases,
}
use omni_fuse.FilePath.{FilePath, Name, join, components, component_eq}
use omni_fuse.Unifuse.Inode
use omni_fuse.Unifuse.Inode.{get_path}
use omni_fuse.Unifuse.Session.{SessionFs}
use omni_fuse.Unifuse.Types.{DirEntryMeta, DirPage}
use omni_fuse.Unifuse.Rfuse3.{DirectoryEntry, Adapter, to_node_kind}
use omni_fuse.Unifuse.Rfuse3.Calls.{resolve_path, list_entries, readdir}

-- Names with their positions, counted from `index`.
unfoldable pub numbered : ℕ → List Name → List (Name × ℕ)
numbered index [] = []
numbered index (name ∷ names) = (name, index) ∷ numbered (index + 1) names

abbrev pub positions : List DirectoryEntry → List (Name × ℕ)
positions entries = map (λ e. (e.name, e.offset)) entries

abbrev pub names_of : List DirEntryMeta → List Name
names_of entries = map (λ e. e.name) entries

drop_eq : (m n : ℕ) (x : Name × ℕ) (xs : List (Name × ℕ)) → m ≡ suc n → drop m (x ∷ xs) ≡ drop n xs
drop_eq m n x xs h = rw h

drop_zero : (m : ℕ) (xs : List (Name × ℕ)) → m ≡ 0 → drop m xs ≡ xs
drop_zero m xs h = rw h

drop_two :
    (offset : ℕ) (x y : Name × ℕ) (xs : List (Name × ℕ))
    → drop offset (x ∷ y ∷ xs)
      ≡ (if ltb offset 1 then x ∷ [] else [])
        ++ ((if ltb offset 2 then y ∷ [] else []) ++ drop (offset - 2) xs)
drop_two zero x y xs = refl
drop_two (suc zero) x y xs = refl
drop_two (suc (suc n)) x y xs =
    ground (arith, drop_eq (suc (suc n)) (suc n) x (y ∷ xs), drop_eq (suc n) n y xs)

module _ {S : SessionFs} where
  list_entries-positions :
      (path : FilePath) (offset index : ℕ) (entries : List DirEntryMeta) (s : Adapter S)
      → (found : List DirectoryEntry) × ((list_entries path offset index entries s).0 ≡ ok found)
        × (positions found ≡ drop (offset + 1 - index) (numbered index (names_of entries)))
  unfolding list_entries numbered
  list_entries-positions path offset index [] s =
      ([], refl, sym (drop_all [] (offset + 1 - index) (omega arith)))
  list_entries-positions path offset index (entry ∷ entries) s =
      let after : ℕ × Inode.InodeMap =
        Inode.get_or_insert (join path (components entry.name)) (to_node_kind entry.kind)
          s.inode_map in
      let rest_names = numbered (index + 1) (names_of entries) in
      elim (Bool-cases (ltb offset index)) [
        | inl here ↦
            let (rest, listed, at) =
              list_entries-positions path offset (index + 1) entries
                (record s { inode_map = after.1 }) in
            (
              record { inode = after.0; kind = entry.kind; name = entry.name; offset = index }
                  ∷ rest,
              ground arith,
              ground (
                arith,
                drop_zero (offset + 1 - index) ((entry.name, index) ∷ rest_names),
                drop_zero (offset + 1 - (index + 1)) rest_names,
              ),
            )
        | inr before ↦
            let (rest, listed, at) = list_entries-positions path offset (index + 1) entries s in
            (
              rest,
              ground arith,
              ground (
                arith,
                drop_eq (offset + 1 - index) (offset - index) (entry.name, index) rest_names,
              ),
            )
      ]

  -- A directory that is read from an offset on yields the names and positions of `.`, `..` and the
  -- entries of the file system, in this order and counted from 1, less as many of the first as the offset
  -- says. So reading on from the last position seen neither repeats a name nor leaves one out.
  pub readdir-positions :
      (inode offset : ℕ) (path : FilePath) (page : DirPage) (found : List DirectoryEntry)
      (s t : Adapter S)
      → get_path inode s.inode_map ≡ some path
      → (S.read_dir path (record { offset = 0; limit = none }) s.inner).0 ≡ ok page
      → readdir inode offset s ≡ (ok found, t)
      → positions found
        ≡ drop offset (numbered 1 ((b'.' ∷ []) ∷ (b'.' ∷ b'.' ∷ []) ∷ names_of page.entries))
  unfolding readdir resolve_path numbered
  readdir-positions inode offset path page found s t known read done =
      let u : Adapter S = record s {
        inner = (S.read_dir path (record { offset = 0; limit = none }) s.inner).1;
      } in
      let (rest, listed, at) = list_entries-positions path offset 3 page.entries u in
      let same : offset + 1 - 3 ≡ offset - 2 = omega arith in
      elim (Bool-cases (ltb offset 1)) [
        | inl first ↦ ground (
          arith,
          drop_two offset (b'.' ∷ [], 1) (b'.' ∷ b'.' ∷ [], 2) (numbered 3 (names_of page.entries)),
        )
        | inr past ↦ ground (
          arith,
          drop_two offset (b'.' ∷ [], 1) (b'.' ∷ b'.' ∷ [], 2) (numbered 3 (names_of page.entries)),
        )
      ]

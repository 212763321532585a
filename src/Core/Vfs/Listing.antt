-- ===== src/Core/Vfs/Listing.antt =====
-- What a directory listing shows (crates/omnifuse-core/src/vfs.rs, `readdir` and `read_dir`).
use omni_fuse.Prelude.{
  ℕ, zero, suc, ◌+◌, ◌≤◌, ◌<◌, List, [], ◌∷◌, ◌++◌, none, some, ◌≡◌, refl, inl, inr, arith, list_eq,
  nat_eq, if◌then◌else◌, ltb, length, take, drop, map, length-drop, take_all, ap, Fallible, ok, err,
  Bool-cases,
}
use omni_fuse.Core.TextMerge.Utf8.{from_utf8_lossy}
use omni_fuse.FilePath.{FilePath, Name, component_eq}
use omni_fuse.Core.FileSystem.{FileSystem}
use omni_fuse.Core.Directories.{Directories, RawEntry}
use omni_fuse.Core.Backend.{Backend}
use omni_fuse.Core.Vfs.{Vfs, is_hidden, readdir}
use omni_fuse.Core.Vfs.Session.{page_of, session_read_dir}
use omni_fuse.Unifuse.Types.{FsError, DirEntry, DirEntryMeta, entry_meta}

-- The names on disk as text, where invalid UTF-8 is replaced, less `.git`, `.vfs` and what the backend does not track.
unfoldable pub visible_names :
    {E : Type 0} → Backend → FilePath → List (Fallible E (RawEntry E)) → List Name
visible_names backend path [] = []
visible_names backend path (err e ∷ entries) = visible_names backend path entries
visible_names backend path (ok entry ∷ entries) =
    let rest = visible_names backend path entries in
    if is_hidden backend path entry.file_name then rest else from_utf8_lossy entry.file_name ∷ rest

abbrev pub names_of : List DirEntry → List Name
names_of entries = map (λ e. e.name) entries

module _ {A : Type 0} where
  take-append-drop : (n : ℕ) (xs : List A) → take n xs ++ drop n xs ≡ xs
  take-append-drop zero xs = refl
  take-append-drop (suc n) [] = refl
  take-append-drop (suc n) (x ∷ xs) = ap (◌∷◌ x) (take-append-drop n xs)

  drop-drop : (m n : ℕ) (xs : List A) → drop m (drop n xs) ≡ drop (n + m) xs
  drop-drop m zero xs = let e : 0 + m ≡ m = omega arith in rw e
  drop-drop zero (suc n) [] = let e : suc n + 0 ≡ suc n = omega arith in rw e
  drop-drop (suc m) (suc n) [] = let e : suc n + suc m ≡ suc (n + suc m) = omega arith in rw e
  drop-drop m (suc n) (x ∷ xs) =
      let e : suc n + m ≡ suc (n + m) = omega arith in rw e (drop-drop m n xs)

length-map_entry : (found : List DirEntry) → length (map entry_meta found) ≡ length found
length-map_entry [] = refl
length-map_entry (e ∷ found) = omega (arith, length-map_entry found)

module _ {F : FileSystem} (D : Directories F) (backend : Backend) (path : FilePath) where
  -- A client that reads pages of `limit` entries and follows `next_offset`, at most `fuel` times.
  unfoldable pub read_pages :
      (limit fuel offset : ℕ) → Vfs F → Fallible (FsError F.IoError) (List DirEntryMeta) × Vfs F
  read_pages limit zero offset s = (ok [], s)
  read_pages limit (suc fuel) offset s =
      let (page, t) =
        session_read_dir D backend path (record { offset = offset; limit = some limit }) s in
      elim page [
        | err e ↦ (err e, t)
        | ok page ↦ elim page.next_offset [
          | none ↦ (ok page.entries, t)
          | some next ↦
              let (rest, u) = read_pages limit fuel next t in
              elim rest [ err e ↦ (err e, u) | ok rest ↦ (ok (page.entries ++ rest), u) ]
        ]
      ]

  read_pages_from :
      (limit fuel offset : ℕ) (s : Vfs F) (found : List DirEntry)
      → 1 ≤ limit
      → length (drop offset (map entry_meta found)) < fuel
      → readdir D backend path s ≡ (ok found, s)
      → read_pages limit fuel offset s ≡ (ok (drop offset (map entry_meta found)), s)
  unfolding read_pages session_read_dir page_of
  read_pages_from limit zero offset s found positive enough listed = absurd (omega arith)
  read_pages_from limit (suc fuel) offset s found positive enough listed =
      let all = map entry_meta found in
      elim (Bool-cases (ltb limit (length (drop offset all)))) [
        | inl more ↦ ground (
          arith,
          read_pages_from limit fuel (offset + limit) s found positive,
          drop-drop limit offset all,
          take-append-drop limit (drop offset all),
          length-drop limit (drop offset all),
        )
        | inr last ↦ ground (arith, take_all (drop offset all) limit)
      ]

  -- Reading a directory in pages of one entry or more, each page from the offset that the page before it
  -- names, ends after at most as many pages as there are entries, and one more, and yields the whole
  -- listing: each entry once, in its order.
  pub read_pages-readdir :
      (limit : ℕ) (s : Vfs F) (found : List DirEntry)
      → 1 ≤ limit
      → readdir D backend path s ≡ (ok found, s)
      → read_pages limit (suc (length found)) 0 s ≡ (ok (map entry_meta found), s)
  read_pages-readdir limit s found positive listed =
      read_pages_from limit (suc (length found)) 0 s found positive
        (omega (arith, length-map_entry found)) listed

-- ===== src/S3/Upload/Counts.antt =====
-- The counts that a synchronization reports (crates/omnifuse-s3/src/session.rs, `sync_dirty`).
use omni_fuse.Prelude.{
  ℕ, ◌+◌, Bool, true, ◌&&◌, not, List, [], ◌∷◌, ◌++◌, list_eq, nat_eq, ok, is_empty, leb, length,
  ◌≡◌, refl, arith, inl, inr, Fallible-cases, ◌≤◌,
}
use omni_fuse.FilePath.{FilePath, component_eq}
use omni_fuse.Core.Backend.{SyncResult}
use omni_fuse.S3.State.{Env, S3Session}
use omni_fuse.S3.Upload.{sync_one, sync_each, sync_dirty}
use omni_fuse.Prelude.{contains, length-append, ==_refl}

abbrev pub all_in : List FilePath → List FilePath → Bool
all_in known [] = true
all_in known (path ∷ paths) = contains known path && all_in known paths

all_in-append :
    (known paths : List FilePath) (path : FilePath)
    → all_in known (paths ++ (path ∷ [])) ≡ all_in known paths && contains known path
all_in-append known [] path = ground arith
all_in-append known (p ∷ paths) path = ground (arith, all_in-append known paths path)

all_in-cons :
    (known paths : List FilePath) (path : FilePath)
    → all_in known paths ≡ true
    → all_in (path ∷ known) paths ≡ true
unfolding contains
all_in-cons known [] path h = refl
all_in-cons known (p ∷ paths) path h = ground (arith, all_in-cons known paths path)

all_in_self : (paths : List FilePath) → all_in paths paths ≡ true
unfolding contains
all_in_self [] = refl
all_in_self (path ∷ paths) =
    ground (arith, all_in-cons paths paths path, all_in_self paths, ==_refl path)

-- At most one count for each dirty file, and the conflicts are among these files and not empty.
abbrev pub accounted : List FilePath → SyncResult → Bool
accounted dirty (SyncResult.success n) = leb n (length dirty)
accounted dirty (SyncResult.conflict n files) =
    leb (n + length files) (length dirty) && (all_in dirty files && not (is_empty files))
accounted dirty SyncResult.offline = true

module _ {E : Env} (dirty : List FilePath) where
  sync_each-accounted :
      (paths : List FilePath) (synced : ℕ) (found : List FilePath) (s : S3Session E)
      (result : SyncResult)
      → synced + length found + length paths ≤ length dirty
      → all_in dirty found ≡ true
      → all_in dirty paths ≡ true
      → (sync_each paths synced found s).0 ≡ ok result
      → accounted dirty result ≡ true
  unfolding sync_each
  sync_each-accounted [] synced found s result bound known known' h = ground arith
  sync_each-accounted (path ∷ paths) synced found s result bound known known' h =
      let s' = (sync_one path s).1 in
      elim (Fallible-cases (sync_one path s).0) [
        | inl (e, failed) ↦ ground (
          arith,
          failed,
          length-append found (path ∷ []),
          all_in-append dirty found path,
          sync_each-accounted paths synced (found ++ (path ∷ [])) s' result,
        )
        | inr (b, worked) ↦ ground (
          arith,
          worked,
          sync_each-accounted paths (synced + 1) found s' result,
          sync_each-accounted paths synced found s' result,
        )
      ]

  -- The result of a synchronization that did not fail counts every dirty file at most once: those
  -- synchronized and those in conflict are together no more than the files given, the files in
  -- conflict are among these, and a conflict is reported only if there is one.
  pub sync_dirty-accounted :
      (s : S3Session E) (result : SyncResult)
      → (sync_dirty dirty s).0 ≡ ok result
      → accounted dirty result ≡ true
  unfolding sync_dirty
  sync_dirty-accounted s result h =
      sync_each-accounted dirty 0 [] s result (ground arith) refl (all_in_self dirty) h

-- ===== src/Core/Buffer/Size.antt =====
-- The size that a buffer reports (crates/omnifuse-core/src/buffer.rs).
use omni_fuse.Prelude.{
  ℕ, ◌≤◌, Bool, true, Option, none, some, ◌≡◌, ◌↔◌, inl, inr, Option-cases, arith, leb, length,
  length-take,
}
use omni_fuse.Core.Buffer.{Bytes, FileBuffer, write, set_content, truncate, sync_mtime, mark_clean}

-- The operations that change a buffer.
pub data Edit : Type 0 where
  write_at : ℕ → Bytes → Edit
  set_to : Bytes → Edit
  truncate_to : ℕ → Edit
  sync_time : ℕ → Edit
  clean : Edit

unfoldable pub apply : Edit → ℕ → FileBuffer → Option FileBuffer
apply (write_at offset bytes) now b = elim (write b offset bytes now) [
  | none ↦ none
  | some (t, n) ↦ some t
]
apply (set_to bytes) now b = some (set_content b bytes now)
apply (truncate_to n) now b = some (truncate b n now)
apply (sync_time mtime) now b = some (sync_mtime b mtime)
apply clean now b = some (mark_clean b)

-- A truncation that does not extend the file; any other edit.
abbrev pub shrinks : Edit → FileBuffer → Bool
shrinks (truncate_to n) b = leb n (length b.content)
shrinks _ b = true

size-write :
    (b t : FileBuffer) (offset n : ℕ) (bytes : Bytes) (now : ℕ)
    → write b offset bytes now ≡ some (t, n)
    → t.size ≡ length t.content
unfolding write
size-write b t offset n bytes now h = ground arith

-- Every edit but a truncation to more bytes than there are keeps the reported size equal to the
-- length of the content.
pub size-apply :
    (e : Edit) (now : ℕ) (b t : FileBuffer)
    → b.size ≡ length b.content
    → shrinks e b ≡ true
    → apply e now b ≡ some t
    → t.size ≡ length t.content
unfolding apply set_content truncate sync_mtime mark_clean
size-apply (write_at offset bytes) now b t sized s h =
    elim (Option-cases (write b offset bytes now)) [
      | inl fault ↦ ground arith
      | inr ((t', n), done) ↦ ground (arith, size-write b t' offset n bytes now done)
    ]
size-apply (set_to bytes) now b t sized s h = ground arith
size-apply (truncate_to n) now b t sized s h = ground (arith, length-take n b.content)
size-apply (sync_time mtime) now b t sized s h = ground arith
size-apply clean now b t sized s h = ground arith

-- After a truncation the reported size is the length of the content exactly when the new size is at
-- most the old length: a truncation that extends the file reports bytes that the buffer lacks.
pub truncate-size_iff :
    (b : FileBuffer) (n now : ℕ)
    → ((truncate b n now).size ≡ length (truncate b n now).content) ↔ (n ≤ length b.content)
unfolding truncate
truncate-size_iff b n now = ground (arith, length-take n b.content)

-- ===== src/Core/Buffer.antt =====
-- The cached buffer of one file (crates/omnifuse-core/src/buffer.rs, `FileBuffer`). The lock on
-- the content makes each method atomic. The clock's answer is an argument, and `none` is a panic.
pub mod Write
pub mod Size
use omni_fuse.Prelude.{
  ℕ, ◌-◌, Bool, true, false, List, [], ◌++◌, Option, none, some, if◌then◌else◌, ltb, leb, length,
  take, drop, replicate, min, wrapping_add, isize_max,
}
use omni_fuse.FilePath.{FilePath}

abbrev pub Bytes : Type 0
Bytes = List ℕ

pub record FileBuffer : Type 0 where
  pub path : FilePath
  pub content : Bytes
  pub dirty : Bool
  pub mtime : ℕ
  pub size : ℕ

unfoldable pub with_mtime : FilePath → Bytes → ℕ → FileBuffer
with_mtime path content mtime = record {
  path = path;
  content = content;
  dirty = false;
  mtime = mtime;
  size = length content;
}

-- `content.resize(n, 0)`
unfoldable pub resize : ℕ → Bytes → Bytes
resize n content = take n content ++ replicate (n - length content) 0

-- "Extend if necessary".
unfoldable pub grow : ℕ → Bytes → Bytes
unfolding resize
grow end content = if ltb (length content) end then resize end content else content

-- `content[start..end]`, which panics unless start ≤ end ≤ len.
unfoldable pub slice : Bytes → ℕ → ℕ → Option Bytes
slice content start end =
    if ltb end start
    then none
    else if ltb (length content) end
    then none
    else some (take (end - start) (drop start content))

unfoldable pub read : FileBuffer → ℕ → ℕ → Option Bytes
read b offset size =
    if leb (length b.content) offset
    then some []
    else slice b.content offset (min (wrapping_add offset size) (length b.content))

-- `content[start..end].copy_from_slice(data)`, for a slice of the length of `data`.
unfoldable pub copy_into : Bytes → ℕ → Bytes → Option Bytes
copy_into content offset bytes =
    let end = wrapping_add offset (length bytes) in
    if ltb end offset
    then none
    else if ltb (length content) end
    then none
    else some (take offset content ++ (bytes ++ drop end content))

-- `write`: the new buffer and the number of bytes. A vector longer than `isize::MAX` cannot be
-- allocated.
unfoldable pub write : FileBuffer → ℕ → Bytes → ℕ → Option (FileBuffer × ℕ)
write b offset bytes now =
    let end = wrapping_add offset (length bytes) in
    if ltb isize_max end then none else elim (copy_into (grow end b.content) offset bytes) [
      | none ↦ none
      | some content' ↦ some (
        record b { content = content'; dirty = true; size = length content'; mtime = now },
        length bytes,
      )
    ]

unfoldable pub set_content : FileBuffer → Bytes → ℕ → FileBuffer
set_content b bytes now = record b {
  content = bytes;
  size = length bytes;
  dirty = true;
  mtime = now;
}

unfoldable pub truncate : FileBuffer → ℕ → ℕ → FileBuffer
truncate b new_size now = record b {
  content = take new_size b.content;
  size = new_size;
  dirty = true;
  mtime = now;
}

unfoldable pub sync_mtime : FileBuffer → ℕ → FileBuffer
sync_mtime b mtime = record b { mtime = mtime }

unfoldable pub mark_clean : FileBuffer → FileBuffer
mark_clean b = record b { dirty = false }

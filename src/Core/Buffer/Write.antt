-- ===== src/Core/Buffer/Write.antt =====
-- Reads and writes of one buffer (crates/omnifuse-core/src/buffer.rs).
use omni_fuse.Prelude.{
  ℕ, zero, suc, ◌+◌, ◌-◌, ◌^◌, ◌≤◌, ◌<◌, true, false, [], ◌∷◌, ◌++◌, Option, none, some, ◌≡◌, refl,
  sym, ap, ◌∙◌, inl, inr, arith, if◌then◌else◌, ltb, leb, ltb→lt, leb→le, Bool-cases, length, take,
  drop, replicate, get_elem?, min, wrapping_add, isize_max, u64_mod, length-append, length-take,
  length-drop, length-replicate, take_all, drop_all, take-drop-splice, take-append_exact,
  drop-append_exact, get_elem?-append_left, get_elem?-append_right, splice, length-splice,
  get_elem?-splice,
}
use mathlib.Core.Path.{subst}
use omni_fuse.Core.Buffer.{Bytes, FileBuffer, grow, slice, read, copy_into, write}

length-grow :
    (n : ℕ) (content : Bytes)
    → length (grow n content) ≡ (if ltb (length content) n then n else length content)
unfolding grow
length-grow n content = ground (
  arith,
  length-append (take n content) (replicate (n - length content) 0),
  length-take n content,
  length-replicate {0} {A = ℕ} (n - length content) 0,
)

get_elem?-replicate : (n i : ℕ) → i < n → get_elem? (replicate {A = ℕ} n 0) i ≡ some 0
get_elem?-replicate zero i h = absurd (omega arith)
get_elem?-replicate (suc n) zero h = refl
get_elem?-replicate (suc n) (suc i) h = get_elem?-replicate n i (omega arith)

get_elem?-past_end : (content : Bytes) (i : ℕ) → length content ≤ i → get_elem? content i ≡ none
get_elem?-past_end [] i h = refl
get_elem?-past_end (x ∷ content) zero h = absurd (omega arith)
get_elem?-past_end (x ∷ content) (suc i) h = get_elem?-past_end content i (omega arith)

-- The byte at a position, and 0 in the gap between the old end and the new one.
abbrev pub byte_or_gap : Bytes → ℕ → ℕ → Option ℕ
byte_or_gap content n i =
    if ltb i (length content) then get_elem? content i else if ltb i n then some 0 else none

get_elem?-grow_gap :
    (n : ℕ) (content : Bytes) (i : ℕ)
    → length content ≤ i
    → i < n
    → get_elem? (content ++ replicate (n - length content) 0) i ≡ some 0
get_elem?-grow_gap n content i h k =
    let e : i ≡ length content + (i - length content) = omega arith in
    rw e (
      get_elem?-append_right content _ (i - length content)
      ∙ get_elem?-replicate (n - length content) (i - length content) (omega arith))

get_elem?-grow :
    (n : ℕ) (content : Bytes) (i : ℕ) → get_elem? (grow n content) i ≡ byte_or_gap content n i
unfolding grow
get_elem?-grow n content i = ground (
  arith,
  ltb→lt (length content) n,
  take_all content n,
  get_elem?-append_left content (replicate (n - length content) 0) i,
  get_elem?-grow_gap n content i,
  get_elem?-past_end content i,
  get_elem?-past_end (content ++ replicate (n - length content) 0) i,
  length-append content (replicate (n - length content) 0),
  length-replicate {0} {A = ℕ} (n - length content) 0,
)

end_of_small : (offset n : ℕ) → offset + n < u64_mod → wrapping_add offset n ≡ offset + n
unfolding wrapping_add
end_of_small offset n h = ground arith

-- The position after a write, if the machine's addition does not wrap.
end_of : (offset n : ℕ) → offset + n ≤ isize_max → wrapping_add offset n ≡ offset + n
unfolding wrapping_add
end_of offset n fits = ground arith

module _ (b : FileBuffer) (offset : ℕ) (bytes : Bytes) (now : ℕ)
    (fits : offset + length bytes ≤ isize_max) where
  grown : Bytes
  grown = grow (offset + length bytes) b.content

  room : offset + length bytes ≤ length grown
  unfolding grown
  room = ground (arith, length-grow (offset + length bytes) b.content)

  after : FileBuffer
  after = record b {
    content = splice grown bytes offset room;
    dirty = true;
    size = length grown;
    mtime = now;
  }

  copied : copy_into grown offset bytes ≡ some (splice grown bytes offset room)
  unfolding copy_into
  copied = rw (end_of offset (length bytes) fits) (ground (arith, room))

  -- ground would compute the lengths: the tests are rewritten one by one.
  in_bounds : ltb isize_max (offset + length bytes) ≡ false
  in_bounds = ground arith

  write_lem : write b offset bytes now ≡ some (after, length bytes)
  unfolding write after grown
  write_lem =
      rw (
        end_of offset (length bytes) fits,
        in_bounds,
        copied,
        length-splice grown bytes offset room,
      )

  get_elem?-after :
      (i : ℕ)
      → get_elem? (after.content) i ≡ (
          if ltb i offset
          then byte_or_gap b.content offset i
          else if ltb i (offset + length bytes)
          then get_elem? bytes (i - offset)
          else get_elem? b.content i)
  unfolding after grown
  get_elem?-after i = ground (
    arith,
    get_elem?-splice grown bytes offset room i,
    get_elem?-grow (offset + length bytes) b.content i,
    get_elem?-past_end b.content i,
  )

slice-min :
    (xs : Bytes) (offset size : ℕ)
    → offset < length xs
    → slice xs offset (min (offset + size) (length xs)) ≡ some (take size (drop offset xs))
unfolding slice
slice-min xs offset size inside = ground (
  arith,
  length-drop offset xs,
  take_all (drop offset xs) size,
  take_all (drop offset xs) (length xs - offset),
)

-- A read gives the bytes from the offset on, as many as are asked for and are there: it never
-- panics on a buffer that fits in memory, for a size of 32 bits.
pub read-eq-take-drop :
    (b : FileBuffer) (offset size : ℕ)
    → length b.content ≤ isize_max
    → size < 2 ^ 32
    → read b offset size ≡ some (take size (drop offset b.content))
unfolding read
read-eq-take-drop b offset size fits word = elim (Bool-cases (leb (length b.content) offset)) [
  | inl past ↦
      rw (past, drop_all b.content offset (leb→le _ _ past))
        (ap some (sym (take_all {A = ℕ} [] size (omega arith))))
  | inr inside ↦
      let inside' : offset < length b.content = ground arith in
      let sum : wrapping_add offset size ≡ offset + size = end_of_small offset size (omega arith) in
      rw (inside, sum) (slice-min b.content offset size inside')
]

-- A write that fits in memory succeeds, marks the buffer dirty and keeps its size right. The
-- stretch at the offset holds the bytes given, a gap that it opens behind the old end holds zeros,
-- and every other byte is as it was.
pub write_bytes :
    (b : FileBuffer) (offset : ℕ) (bytes : Bytes) (now : ℕ)
    → offset + length bytes ≤ isize_max
    → (i : ℕ)
    → (t : FileBuffer) × (write b offset bytes now ≡ some (t, length bytes))
      × (t.dirty ≡ true)
      × (t.size ≡ length t.content)
      × (get_elem? t.content i ≡ (
          if ltb i offset
          then byte_or_gap b.content offset i
          else if ltb i (offset + length bytes)
          then get_elem? bytes (i - offset)
          else get_elem? b.content i))
unfolding after
write_bytes b offset bytes now fits i = (
  after b offset bytes now fits,
  write_lem b offset bytes now fits,
  refl,
  sym (length-splice _ bytes offset (room b offset bytes now fits)),
  get_elem?-after b offset bytes now fits i,
)

take-drop-middle :
    (content bytes rest : Bytes) (offset : ℕ)
    → offset ≤ length content
    → take (length bytes) (drop offset (take offset content ++ (bytes ++ rest))) ≡ bytes
take-drop-middle content bytes rest offset inside =
    let front : length (take offset content) ≡ offset = omega (arith, length-take offset content) in
    let dropped : drop offset (take offset content ++ (bytes ++ rest)) ≡ bytes ++ rest =
      subst (λ n. drop n (take offset content ++ (bytes ++ rest)) ≡ bytes ++ rest) front
        (drop-append_exact (take offset content) (bytes ++ rest)) in
    ap (take (length bytes)) dropped ∙ take-append_exact bytes rest

-- The stretch of a buffer that was written.
pub write_stretch :
    (b t : FileBuffer) (offset n : ℕ) (bytes : Bytes) (now : ℕ)
    → write b offset bytes now ≡ some (t, n)
    → take (length bytes) (drop offset t.content) ≡ bytes
unfolding write copy_into
write_stretch b t offset n bytes now done =
    let end = wrapping_add offset (length bytes) in
    let content = grow end b.content in
    ground (
      arith,
      take-drop-middle content bytes (drop end content) offset,
      ltb→lt end offset,
      ltb→lt (length content) end,
    )

length-after :
    (b : FileBuffer) (offset : ℕ) (bytes : Bytes) (now : ℕ)
    (fits : offset + length bytes ≤ isize_max)
    → length b.content ≤ isize_max
    → length (after b offset bytes now fits).content ≤ isize_max
unfolding after grown
length-after b offset bytes now fits small = ground (
  arith,
  length-splice _ bytes offset (room b offset bytes now fits),
  length-grow (offset + length bytes) b.content,
)

read-after :
    (b : FileBuffer) (offset : ℕ) (bytes : Bytes) (now : ℕ)
    (fits : offset + length bytes ≤ isize_max)
    → length b.content ≤ isize_max
    → length bytes < 2 ^ 32
    → read (after b offset bytes now fits) offset (length bytes) ≡ some bytes
read-after b offset bytes now fits small word =
    read-eq-take-drop (after b offset bytes now fits) offset (length bytes)
      (length-after b offset bytes now fits small) word
    ∙ ap some (unfold after in take-drop-splice _ bytes offset (room b offset bytes now fits))

-- What a write puts into a buffer, a read of that stretch gives back, if both fit in memory and the
-- stretch is at most as long as a read can ask for.
pub read-write :
    (b t : FileBuffer) (offset : ℕ) (bytes : Bytes) (now n : ℕ)
    → offset + length bytes ≤ isize_max
    → length b.content ≤ isize_max
    → length bytes < 2 ^ 32
    → write b offset bytes now ≡ some (t, n)
    → read t offset n ≡ some bytes
read-write b t offset bytes now n fits small word done =
    cc (write_lem b offset bytes now fits, read-after b offset bytes now fits small word)

-- ===== src/Core/TextMerge/Utf8/Lossy.antt =====
-- What `String::from_utf8_lossy` changes: nothing in UTF-8 text, and otherwise U+FFFD shows in it.
use omni_fuse.Prelude.{
  ℕ, Bool, true, false, List, [], ◌∷◌, ◌++◌, some, ◌<◌, ◌≡◌, ◌⊎◌, refl, inl, inr, arith, nat_eq,
  is_empty, contains, contains-append, Option-cases,
}
use mathlib.Core.List.{append_assoc}
use omni_fuse.Core.TextMerge.Utf8.{
  Expect, start, cont, after_first, after_byte, is_utf8_from, decode_utf8_text, settled, restart,
  lossy_step, lossy_from, from_utf8_lossy,
}

-- No byte is pending at the start of a character.
abbrev none_at_start : Expect → List ℕ → Bool
none_at_start start pending = is_empty pending
none_at_start (cont lo hi n) pending = true

lossy-is_utf8 :
    (e : Expect) (pending bytes : List ℕ)
    → none_at_start e pending ≡ true
    → is_utf8_from e bytes ≡ true
    → lossy_from e pending bytes ≡ pending ++ bytes
unfolding lossy_from is_utf8_from lossy_step
lossy-is_utf8 start [] [] settled h = refl
lossy-is_utf8 start (b ∷ pending) bytes settled h = absurd (ground arith)
lossy-is_utf8 (cont lo hi n) pending [] settled h = absurd (ground arith)
lossy-is_utf8 start [] (b ∷ bytes) settled h = elim (Option-cases (after_byte start b)) [
  | inl broken ↦ absurd (ground arith)
  | inr (start, next) ↦ ground (arith, lossy-is_utf8 start [] bytes)
  | inr (cont lo hi n, next) ↦ ground (arith, lossy-is_utf8 (cont lo hi n) (b ∷ []) bytes)
]
lossy-is_utf8 (cont lo hi n) pending (b ∷ bytes) settled h =
    let tail : (pending ++ (b ∷ [])) ++ bytes ≡ pending ++ (b ∷ bytes) =
      append_assoc pending (b ∷ []) bytes in
    elim (Option-cases (after_byte (cont lo hi n) b)) [
      | inl broken ↦ absurd (ground arith)
      | inr (start, next) ↦ ground (arith, tail, lossy-is_utf8 start [] bytes)
      | inr (cont lo' hi' n', next) ↦
          ground (arith, tail, lossy-is_utf8 (cont lo' hi' n') (pending ++ (b ∷ [])) bytes)
    ]

-- UTF-8 text is kept as it is.
pub from_utf8_lossy-decode_utf8_text :
    (text : List ℕ) → decode_utf8_text text ≡ some text → from_utf8_lossy text ≡ text
unfolding from_utf8_lossy decode_utf8_text
from_utf8_lossy-decode_utf8_text text h = lossy-is_utf8 start [] text refl (ground arith)

lossy-same_or_marked :
    (e : Expect) (pending bytes : List ℕ)
    → none_at_start e pending ≡ true
    → (lossy_from e pending bytes ≡ pending ++ bytes)
      ⊎ (contains (lossy_from e pending bytes) 0xEF ≡ true)
unfolding lossy_from lossy_step restart contains
lossy-same_or_marked start [] [] settled = inl refl
lossy-same_or_marked start (b ∷ pending) bytes settled = absurd (ground arith)
lossy-same_or_marked (cont lo hi n) pending [] settled = inr refl
lossy-same_or_marked start [] (b ∷ bytes) settled = elim (Option-cases (after_byte start b)) [
  | inl broken ↦ inr (ground arith)
  | inr (start, next) ↦ ground (arith, lossy-same_or_marked start [] bytes)
  | inr (cont lo hi n, next) ↦ ground (arith, lossy-same_or_marked (cont lo hi n) (b ∷ []) bytes)
]
lossy-same_or_marked (cont lo hi n) pending (b ∷ bytes) settled =
    let tail : (pending ++ (b ∷ [])) ++ bytes ≡ pending ++ (b ∷ bytes) =
      append_assoc pending (b ∷ []) bytes in
    elim (Option-cases (after_byte (cont lo hi n) b)) [
      | inl broken ↦ elim (Option-cases (after_first b)) [
        | inl never ↦ inr (ground arith)
        | inr (start, first) ↦ inr (ground arith)
        | inr (cont lo' hi' n', first) ↦ inr (ground arith)
      ]
      | inr (start, next) ↦ ground (
        arith,
        tail,
        lossy-same_or_marked start [] bytes,
        contains-append (pending ++ (b ∷ [])) (lossy_from start [] bytes) 0xEF,
      )
      | inr (cont lo' hi' n', next) ↦
          ground (arith, tail, lossy-same_or_marked (cont lo' hi' n') (pending ++ (b ∷ [])) bytes)
    ]

-- Text that changes has U+FFFD in it.
pub from_utf8_lossy-marked :
    (text : List ℕ) → (from_utf8_lossy text ≡ text) ⊎ (contains (from_utf8_lossy text) 0xEF ≡ true)
unfolding from_utf8_lossy
from_utf8_lossy-marked text = lossy-same_or_marked start [] text refl

-- No byte below 0x80 comes in.
lossy-ascii :
    (a : ℕ) (e : Expect) (pending bytes : List ℕ)
    → a < 0x80
    → contains pending a ≡ false
    → contains bytes a ≡ false
    → contains (lossy_from e pending bytes) a ≡ false
unfolding lossy_from lossy_step restart contains
lossy-ascii a start pending [] small settled h = refl
lossy-ascii a (cont lo hi n) pending [] small settled h = ground arith
lossy-ascii a start pending (b ∷ bytes) small settled h = elim (Option-cases (after_byte start b)) [
  | inl broken ↦ ground (arith, lossy-ascii a start [] bytes)
  | inr (start, next) ↦ ground (
    arith,
    contains-append pending (b ∷ []) a,
    contains-append (pending ++ (b ∷ [])) (lossy_from start [] bytes) a,
    lossy-ascii a start [] bytes,
  )
  | inr (cont lo hi n, next) ↦ ground (
    arith,
    contains-append pending (b ∷ []) a,
    lossy-ascii a (cont lo hi n) (pending ++ (b ∷ [])) bytes,
  )
]
lossy-ascii a (cont lo hi n) pending (b ∷ bytes) small settled h =
    elim (Option-cases (after_byte (cont lo hi n) b)) [
      | inl broken ↦ elim (Option-cases (after_first b)) [
        | inl never ↦ ground (arith, lossy-ascii a start [] bytes)
        | inr (start, first) ↦ ground (arith, lossy-ascii a start [] bytes)
        | inr (cont lo' hi' n', first) ↦
            ground (arith, lossy-ascii a (cont lo' hi' n') (b ∷ []) bytes)
      ]
      | inr (start, next) ↦ ground (
        arith,
        contains-append pending (b ∷ []) a,
        contains-append (pending ++ (b ∷ [])) (lossy_from start [] bytes) a,
        lossy-ascii a start [] bytes,
      )
      | inr (cont lo' hi' n', next) ↦ ground (
        arith,
        contains-append pending (b ∷ []) a,
        lossy-ascii a (cont lo' hi' n') (pending ++ (b ∷ [])) bytes,
      )
    ]

pub from_utf8_lossy-ascii :
    (a : ℕ) (text : List ℕ)
    → a < 0x80
    → contains text a ≡ false
    → contains (from_utf8_lossy text) a ≡ false
unfolding from_utf8_lossy contains
from_utf8_lossy-ascii a text small h = lossy-ascii a start [] text small refl h

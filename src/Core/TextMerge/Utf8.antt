-- ===== src/Core/TextMerge/Utf8.antt =====
-- `decode_utf8_text`: the validation of `std::str::from_utf8`, by the table of well-formed byte
-- sequences of the Unicode standard.
pub mod Lossy
use omni_fuse.Prelude.{
  ℕ, zero, suc, Bool, true, false, ◌&&◌, List, [], ◌∷◌, ◌++◌, Option, none, some, leb,
  if◌then◌else◌, eqb,
}

abbrev within : ℕ → ℕ → ℕ → Bool
within lo hi b = leb lo b && leb b hi

-- What the next byte has to be: the start of a character, or a continuation byte within bounds
-- that `n` plain continuation bytes follow.
pub data Expect : Type 0 where
  start : Expect
  cont : ℕ → ℕ → ℕ → Expect

-- The table's rows, by the first byte.
unfoldable after_first : ℕ → Option Expect
after_first b =
    if leb b 0x7F
    then some start
    else if within 0xC2 0xDF b
    then some (cont 0x80 0xBF 0)
    else if eqb b 0xE0
    then some (cont 0xA0 0xBF 1)
    else if eqb b 0xED
    then some (cont 0x80 0x9F 1)
    else if within 0xE1 0xEF b
    then some (cont 0x80 0xBF 1)
    else if eqb b 0xF0
    then some (cont 0x90 0xBF 2)
    else if within 0xF1 0xF3 b
    then some (cont 0x80 0xBF 2)
    else if eqb b 0xF4
    then some (cont 0x80 0x8F 2)
    else none

unfoldable after_byte : Expect → ℕ → Option Expect
unfolding after_first
after_byte start b = after_first b
after_byte (cont lo hi zero) b = if within lo hi b then some start else none
after_byte (cont lo hi (suc n)) b = if within lo hi b then some (cont 0x80 0xBF n) else none

unfoldable is_utf8_from : Expect → List ℕ → Bool
is_utf8_from start [] = true
is_utf8_from (cont lo hi n) [] = false
is_utf8_from e (b ∷ bytes) = elim (after_byte e b) [
  | none ↦ false
  | some e' ↦ is_utf8_from e' bytes
]

unfoldable pub decode_utf8_text : List ℕ → Option (List ℕ)
unfolding is_utf8_from after_byte
decode_utf8_text bytes = if is_utf8_from start bytes then some bytes else none

-- U+FFFD
abbrev replacement : List ℕ
replacement = 0xEF ∷ 0xBF ∷ 0xBD ∷ []

-- The output so far, what the next byte has to be, and the bytes of the character not complete yet.
abbrev settled : List ℕ → Expect → List ℕ → List ℕ × (Expect × List ℕ)
settled out start pending = (out ++ pending, (start, []))
settled out (cont lo hi n) pending = (out, (cont lo hi n, pending))

-- A byte that does not continue the character: what came before is replaced, and the byte starts anew.
unfoldable restart : Expect → ℕ → List ℕ × (Expect × List ℕ)
unfolding after_first
restart start b = (replacement, (start, []))
restart (cont lo hi n) b = elim (after_first b) [
  | none ↦ (replacement ++ replacement, (start, []))
  | some e ↦ settled replacement e (b ∷ [])
]

unfoldable lossy_step : Expect → List ℕ → ℕ → List ℕ × (Expect × List ℕ)
unfolding after_byte restart
lossy_step e pending b = elim (after_byte e b) [
  | some e' ↦ settled [] e' (pending ++ (b ∷ []))
  | none ↦ restart e b
]

unfoldable lossy_from : Expect → List ℕ → List ℕ → List ℕ
unfolding lossy_step
lossy_from start pending [] = []
lossy_from (cont lo hi n) pending [] = replacement
lossy_from e pending (b ∷ bytes) =
    let (out, (e', pending')) = lossy_step e pending b in out ++ lossy_from e' pending' bytes

-- `String::from_utf8_lossy`: each longest part of a character that is not completed is replaced.
unfoldable pub from_utf8_lossy : List ℕ → List ℕ
unfolding lossy_from
from_utf8_lossy bytes = lossy_from start [] bytes

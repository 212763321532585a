-- ===== src/S3/Manifest.antt =====
-- Remote object states and the manifest (crates/omnifuse-s3/src/manifest.rs).
use omni_fuse.Prelude.{
  ℕ, Bool, true, false, ◌&&◌, ◌||◌, not, List, [], ◌∷◌, Option, none, some, ◌==◌, list_eq, nat_eq,
  option_eq, Fallible, ok, err, if◌then◌else◌, eqb, leb,
}
use omni_fuse.Prelude.Map.{Map}
use omni_fuse.S3.Path.{Key}
use omni_fuse.S3.Error.{S3Error, missing_capability}

abbrev pub Bytes : Type 0
Bytes = List ℕ

pub record ObjectState : Type 0 where
  pub object_path : Key
  pub etag : Option Bytes
  pub version : Option Bytes
  pub last_modified : Option Bytes
  pub content_length : ℕ

-- The characters that Unicode calls white space: of one byte, or the last two bytes of those of
-- three bytes, by the first.
abbrev ascii_space : ℕ → Bool
ascii_space b = (leb 9 b && leb b 13) || eqb b 32

abbrev two_byte_space : ℕ → Bool
two_byte_space b = eqb b 0x85 || eqb b 0xA0

abbrev three_byte_space : ℕ → ℕ → ℕ → Bool
three_byte_space a b c =
    (eqb a 0xE1 && (eqb b 0x9A && eqb c 0x80))
    || ((eqb a 0xE2 && (eqb b 0x80 && (leb 0x80 c && leb c 0x8A)))
        || ((eqb a 0xE2 && (eqb b 0x80 && (eqb c 0xA8 || (eqb c 0xA9 || eqb c 0xAF))))
            || ((eqb a 0xE2 && (eqb b 0x81 && eqb c 0x9F))
                || (eqb a 0xE3 && (eqb b 0x80 && eqb c 0x80)))))

-- `text.trim().is_empty()`
unfoldable pub is_blank : Bytes → Bool
is_blank [] = true
is_blank (a ∷ []) = ascii_space a
is_blank (a ∷ b ∷ []) = if ascii_space a then ascii_space b else eqb a 0xC2 && two_byte_space b
is_blank (a ∷ b ∷ c ∷ rest) =
    let after_one = is_blank (b ∷ c ∷ rest) in
    let after_two = is_blank (c ∷ rest) in
    let after_three = is_blank rest in
    if ascii_space a
    then after_one
    else if eqb a 0xC2
    then two_byte_space b && after_two
    else three_byte_space a b c && after_three

unfoldable pub required_etag : ObjectState → Fallible S3Error Bytes
required_etag state = elim (state.etag) [
  | none ↦ err missing_capability
  | some etag ↦ if is_blank etag then err missing_capability else ok etag
]

-- Both are there and differ.
abbrev versions_differ : Option Bytes → Option Bytes → Bool
versions_differ (some left) (some right) = not (left == right)
versions_differ none _ = false
versions_differ (some left) none = false

abbrev etags_agree : Option Bytes → Option Bytes → Bool
etags_agree (some left) (some right) = left == right
etags_agree none _ = false
etags_agree (some left) none = false

unfoldable pub same_generation : ObjectState → ObjectState → Bool
same_generation a b =
    if versions_differ a.version b.version then false else etags_agree a.etag b.etag

abbrev pub S3Manifest : Type 0
S3Manifest = Map Key ObjectState

-- `ObjectState::eq`
unfoldable pub state_beq : ObjectState → ObjectState → Bool
state_beq a b =
    a.object_path == b.object_path
    && (a.etag == b.etag
        && (a.version == b.version
            && (a.last_modified == b.last_modified && eqb a.content_length b.content_length)))

-- ===== src/Git/Text.antt =====
-- Texts as the git backend reads them: the methods of `str` that it calls, and the words that it looks
-- for in the output of git (crates/omnifuse-git/src/engine.rs, repo_source.rs).
use omni_fuse.Prelude.{
  ℕ, ◌+◌, Bool, true, false, not, ◌&&◌, ◌||◌, List, [], ◌∷◌, if◌then◌else◌, leb, eqb, Option, none,
  some,
}
use omni_fuse.FilePath.{Name}

-- `text.starts_with(part)`, the part first
unfoldable pub has_prefix : Name → Name → Bool
has_prefix [] text = true
has_prefix (b ∷ part) [] = false
has_prefix (b ∷ part) (c ∷ text) = eqb b c && has_prefix part text

-- `text.contains(part)`, the part first
unfoldable pub contains_text : Name → Name → Bool
contains_text part [] = has_prefix part []
contains_text part (b ∷ text) = has_prefix part (b ∷ text) || contains_text part text

-- `text.find(b)`
unfoldable pub find_byte : ℕ → Name → Option ℕ
find_byte b [] = none
find_byte b (c ∷ text) = elim (eqb b c) [
  | true ↦ some 0
  | false ↦ elim (find_byte b text) [ none ↦ none | some n ↦ some (n + 1) ]
]

-- The white space of Unicode, by the length of its encoding.
abbrev is_space : ℕ → Bool
is_space b = (leb 9 b && leb b 13) || eqb b 32

abbrev is_space2 : ℕ → ℕ → Bool
is_space2 b c = eqb b 0xC2 && (eqb c 0x85 || eqb c 0xA0)

abbrev is_space3 : ℕ → ℕ → ℕ → Bool
is_space3 b c d =
    (eqb b 0xE1 && (eqb c 0x9A && eqb d 0x80))
    || ((eqb b 0xE2
          && (eqb c 0x80
              && ((leb 0x80 d && leb d 0x8A) || (eqb d 0xA8 || (eqb d 0xA9 || eqb d 0xAF)))))
        || ((eqb b 0xE2 && (eqb c 0x81 && eqb d 0x9F))
            || (eqb b 0xE3 && (eqb c 0x80 && eqb d 0x80))))

-- `text.trim_start()`
unfoldable pub trim_start : Name → Name
trim_start [] = []
trim_start (b ∷ []) = if is_space b then [] else b ∷ []
trim_start (b ∷ c ∷ []) = elim (is_space b) [
  | true ↦ trim_start (c ∷ [])
  | false ↦ if is_space2 b c then [] else b ∷ c ∷ []
]
trim_start (b ∷ c ∷ d ∷ text) = elim (is_space b) [
  | true ↦ trim_start (c ∷ d ∷ text)
  | false ↦ elim (is_space2 b c) [
    | true ↦ trim_start (d ∷ text)
    | false ↦ elim (is_space3 b c d) [ true ↦ trim_start text | false ↦ b ∷ c ∷ d ∷ text ]
  ]
]

unfoldable pub is_blank : Name → Bool
unfolding trim_start
is_blank text = elim (trim_start text) [ [] ↦ true | b ∷ rest ↦ false ]

abbrev is_continuation : ℕ → Bool
is_continuation b = leb 0x80 b && leb b 0xBF

-- `text.trim_end()`: the text up to the first character from which all is white space.
unfoldable pub trim_end : Name → Name
unfolding is_blank
trim_end [] = []
trim_end (b ∷ text) = elim (not (is_continuation b) && is_blank (b ∷ text)) [
  | true ↦ []
  | false ↦ b ∷ trim_end text
]

-- `text.trim()`
unfoldable pub trim : Name → Name
unfolding trim_start trim_end
trim text = trim_end (trim_start text)

-- The line without the carriage return at its end.
unfoldable pub without_return : Name → Name
without_return [] = []
without_return (b ∷ []) = if eqb b 13 then [] else b ∷ []
without_return (b ∷ c ∷ line) = b ∷ without_return (c ∷ line)

-- The pieces that end with a line feed or with the text, without the line feeds.
unfoldable pub pieces : Name → List (Name × Bool)
pieces [] = []
pieces (b ∷ text) = elim (eqb b 10) [
  | true ↦ ([], true) ∷ pieces text
  | false ↦ elim (pieces text) [
    | [] ↦ (b ∷ [], false) ∷ []
    | (line, ended) ∷ lines ↦ (b ∷ line, ended) ∷ lines
  ]
]

-- `text.lines()`; the carriage return goes only with a line feed.
unfoldable pub lines_of : List (Name × Bool) → List Name
unfolding without_return
lines_of [] = []
lines_of ((line, ended) ∷ rest) = (if ended then without_return line else line) ∷ lines_of rest

unfoldable pub lines : Name → List Name
unfolding pieces lines_of
lines text = lines_of (pieces text)

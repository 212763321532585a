-- ===== src/Git/Words.antt =====
-- The words that the git engine passes to git and looks for in its output
-- (crates/omnifuse-git/src/engine.rs).
use omni_fuse.Prelude.{[], ◌∷◌}
use omni_fuse.FilePath.{Name}

abbrev pub nothing_to_commit : Name
nothing_to_commit =
    b'n' ∷ b'o' ∷ b't' ∷ b'h' ∷ b'i' ∷ b'n' ∷ b'g' ∷ b' ' ∷ b't' ∷ b'o' ∷ b' ' ∷ b'c' ∷ b'o' ∷ b'm'
    ∷ b'm' ∷ b'i' ∷ b't' ∷ []

abbrev pub could_not_resolve : Name
could_not_resolve =
    b'C' ∷ b'o' ∷ b'u' ∷ b'l' ∷ b'd' ∷ b' ' ∷ b'n' ∷ b'o' ∷ b't' ∷ b' ' ∷ b'r' ∷ b'e' ∷ b's' ∷ b'o'
    ∷ b'l' ∷ b'v' ∷ b'e' ∷ b' ' ∷ b'h' ∷ b'o' ∷ b's' ∷ b't' ∷ []

abbrev pub connection_refused : Name
connection_refused =
    b'C' ∷ b'o' ∷ b'n' ∷ b'n' ∷ b'e' ∷ b'c' ∷ b't' ∷ b'i' ∷ b'o' ∷ b'n' ∷ b' ' ∷ b'r' ∷ b'e' ∷ b'f'
    ∷ b'u' ∷ b's' ∷ b'e' ∷ b'd' ∷ []

abbrev pub conflict_word : Name
conflict_word = b'C' ∷ b'O' ∷ b'N' ∷ b'F' ∷ b'L' ∷ b'I' ∷ b'C' ∷ b'T' ∷ []

abbrev pub automatic_merge_failed : Name
automatic_merge_failed =
    b'A' ∷ b'u' ∷ b't' ∷ b'o' ∷ b'm' ∷ b'a' ∷ b't' ∷ b'i' ∷ b'c' ∷ b' ' ∷ b'm' ∷ b'e' ∷ b'r' ∷ b'g'
    ∷ b'e' ∷ b' ' ∷ b'f' ∷ b'a' ∷ b'i' ∷ b'l' ∷ b'e' ∷ b'd' ∷ []

abbrev pub could_not_apply : Name
could_not_apply =
    b'c' ∷ b'o' ∷ b'u' ∷ b'l' ∷ b'd' ∷ b' ' ∷ b'n' ∷ b'o' ∷ b't' ∷ b' ' ∷ b'a' ∷ b'p' ∷ b'p' ∷ b'l'
    ∷ b'y' ∷ []

abbrev pub already_up_to_date : Name
already_up_to_date =
    b'A' ∷ b'l' ∷ b'r' ∷ b'e' ∷ b'a' ∷ b'd' ∷ b'y' ∷ b' ' ∷ b'u' ∷ b'p' ∷ b' ' ∷ b't' ∷ b'o' ∷ b' '
    ∷ b'd' ∷ b'a' ∷ b't' ∷ b'e' ∷ []

abbrev pub current_branch : Name
current_branch =
    b'C' ∷ b'u' ∷ b'r' ∷ b'r' ∷ b'e' ∷ b'n' ∷ b't' ∷ b' ' ∷ b'b' ∷ b'r' ∷ b'a' ∷ b'n' ∷ b'c' ∷ b'h'
    ∷ []

abbrev pub is_up_to_date : Name
is_up_to_date =
    b'i' ∷ b's' ∷ b' ' ∷ b'u' ∷ b'p' ∷ b' ' ∷ b't' ∷ b'o' ∷ b' ' ∷ b'd' ∷ b'a' ∷ b't' ∷ b'e' ∷ []

abbrev pub fast_forward_word : Name
fast_forward_word =
    b'F' ∷ b'a' ∷ b's' ∷ b't' ∷ b'-' ∷ b'f' ∷ b'o' ∷ b'r' ∷ b'w' ∷ b'a' ∷ b'r' ∷ b'd' ∷ []

abbrev pub rejected_word : Name
rejected_word = b'r' ∷ b'e' ∷ b'j' ∷ b'e' ∷ b'c' ∷ b't' ∷ b'e' ∷ b'd' ∷ []

abbrev pub non_fast_forward : Name
non_fast_forward =
    b'n' ∷ b'o' ∷ b'n' ∷ b'-' ∷ b'f' ∷ b'a' ∷ b's' ∷ b't' ∷ b'-' ∷ b'f' ∷ b'o' ∷ b'r' ∷ b'w' ∷ b'a'
    ∷ b'r' ∷ b'd' ∷ []

abbrev pub no_push_destination : Name
no_push_destination =
    b'N' ∷ b'o' ∷ b' ' ∷ b'c' ∷ b'o' ∷ b'n' ∷ b'f' ∷ b'i' ∷ b'g' ∷ b'u' ∷ b'r' ∷ b'e' ∷ b'd' ∷ b' '
    ∷ b'p' ∷ b'u' ∷ b's' ∷ b'h' ∷ b' ' ∷ b'd' ∷ b'e' ∷ b's' ∷ b't' ∷ b'i' ∷ b'n' ∷ b'a' ∷ b't'
    ∷ b'i' ∷ b'o' ∷ b'n' ∷ []

abbrev pub origin : Name
origin = b'o' ∷ b'r' ∷ b'i' ∷ b'g' ∷ b'i' ∷ b'n' ∷ []

abbrev pub head : Name
head = b'H' ∷ b'E' ∷ b'A' ∷ b'D' ∷ []

abbrev pub dot_git : Name
dot_git = b'.' ∷ b'g' ∷ b'i' ∷ b't' ∷ []

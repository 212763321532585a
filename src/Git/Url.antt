-- ===== src/Git/Url.antt =====
-- What the source of a repository names (crates/omnifuse-git/src/repo_source.rs): a local path or a remote
-- URL.
use omni_fuse.Prelude.{
  ℕ, Bool, false, not, ◌||◌, ◌&&◌, List, [], ◌∷◌, Option, none, some, if◌then◌else◌, ltb,
}
use omni_fuse.FilePath.{FilePath, Name, components}
use omni_fuse.Git.Text.{contains_text, has_prefix, find_byte}

abbrev https : Name
https = b'h' ∷ b't' ∷ b't' ∷ b'p' ∷ b's' ∷ b':' ∷ b'/' ∷ b'/' ∷ []

abbrev http : Name
http = b'h' ∷ b't' ∷ b't' ∷ b'p' ∷ b':' ∷ b'/' ∷ b'/' ∷ []

abbrev git_scheme : Name
git_scheme = b'g' ∷ b'i' ∷ b't' ∷ b':' ∷ b'/' ∷ b'/' ∷ []

abbrev ssh : Name
ssh = b's' ∷ b's' ∷ b'h' ∷ b':' ∷ b'/' ∷ b'/' ∷ []

abbrev git_at : Name
git_at = b'g' ∷ b'i' ∷ b't' ∷ b'@' ∷ []

abbrev file_scheme : Name
file_scheme = b'f' ∷ b'i' ∷ b'l' ∷ b'e' ∷ b':' ∷ b'/' ∷ b'/' ∷ []

abbrev scheme_separator : Name
scheme_separator = b':' ∷ b'/' ∷ b'/' ∷ []

abbrev git_url_prefixes : List Name
git_url_prefixes = https ∷ http ∷ git_scheme ∷ ssh ∷ git_at ∷ file_scheme ∷ []

pub data RepoSource : Type 0 where
  local_repo : FilePath → RepoSource
  remote_repo : (url : Name) → RepoSource

unfoldable pub has_any_prefix : List Name → Name → Bool
has_any_prefix [] text = false
has_any_prefix (part ∷ parts) text = has_prefix part text || has_any_prefix parts text

abbrev after_first_byte : Option ℕ → Bool
after_first_byte none = false
after_first_byte (some position) = ltb 1 position

unfoldable pub is_git_url : Name → Bool
is_git_url input =
    has_any_prefix git_url_prefixes input
    || (contains_text (b'@' ∷ []) input
        && (contains_text (b':' ∷ []) input
            && (not (contains_text scheme_separator input)
                && after_first_byte (find_byte b':' input))))

-- `RepoSource::parse`
unfoldable pub parse : Name → RepoSource
parse input = if is_git_url input then remote_repo input else local_repo (components input)

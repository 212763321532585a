-- ===== src/Core/TextMerge.antt =====
-- The three-way text merge policy (crates/omnifuse-core/src/text_merge.rs). A `str` is its UTF-8
-- bytes. `diffy::merge` is a parameter.
pub mod Utf8
pub mod Policy
use omni_fuse.Prelude.{
  ℕ, Bool, true, false, ◌&&◌, ◌||◌, List, [], ◌∷◌, arith, Eq, ◌==◌, nat_eq, list_eq, if◌then◌else◌,
  Fallible, ok, err,
}

abbrev pub Bytes : Type 0
Bytes = List ℕ

pub data TextMergeResult : Type 0 where
  no_conflict : TextMergeResult
  merged : Bytes → TextMergeResult
  failed : Bytes → Bytes → TextMergeResult

pub data TextMergeDecision : Type 0 where
  upload_local : TextMergeDecision
  upload_merged : Bytes → TextMergeDecision
  accept_remote : Bytes → TextMergeDecision
  already_synced : TextMergeDecision
  conflict : TextMergeDecision

-- The `Result<String, String>` of `diffy::merge`: the merged text, or the text with its markers.
abbrev pub Merge : Type 0
Merge = Fallible Bytes Bytes

is_prefix : Bytes → Bytes → Bool
is_prefix [] text = true
is_prefix (a ∷ pattern') [] = false
is_prefix (a ∷ pattern') (b ∷ text) = a == b && is_prefix pattern' text

-- `text.contains(pattern)`
has_text : Bytes → Bytes → Bool
unfolding is_prefix
has_text pattern' [] = is_prefix pattern' []
has_text pattern' (b ∷ text) = is_prefix pattern' (b ∷ text) || has_text pattern' text

abbrev local_marker : Bytes
local_marker = b'<' ∷ b'<' ∷ b'<' ∷ b'<' ∷ b'<' ∷ b'<' ∷ b'<' ∷ []

abbrev remote_marker : Bytes
remote_marker = b'>' ∷ b'>' ∷ b'>' ∷ b'>' ∷ b'>' ∷ b'>' ∷ b'>' ∷ []

-- The guard of the second arm: the conflicting text has a marker.
unfoldable pub has_marker : Bytes → Bool
unfolding has_text
has_marker text = has_text local_marker text || has_text remote_marker text

-- The `match` on the result of `diffy::merge`.
unfoldable pub merge_result : Merge → Bytes → Bytes → TextMergeResult
merge_result (ok text) local remote = merged text
merge_result (err text) local remote = if has_marker text then failed local remote else merged text

module _ (merge : Bytes → Bytes → Bytes → Merge) where
  unfoldable pub three_way_text_merge : Bytes → Bytes → Bytes → TextMergeResult
  unfolding merge_result
  three_way_text_merge base local remote =
      if base == remote
      then no_conflict
      else if base == local
      then merged remote
      else if local == remote
      then no_conflict
      else merge_result (merge base local remote) local remote

  abbrev decide_merged : TextMergeResult → TextMergeDecision
  decide_merged no_conflict = already_synced
  decide_merged (merged text) = upload_merged text
  decide_merged (failed _ _) = conflict

  unfoldable pub decide_text_merge : Bytes → Bytes → Bytes → TextMergeDecision
  unfolding three_way_text_merge
  decide_text_merge base local remote =
      if base == remote
      then (if local == remote then already_synced else upload_local)
      else if base == local
      then accept_remote remote
      else if local == remote
      then already_synced
      else decide_merged (three_way_text_merge base local remote)

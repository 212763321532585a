-- ===== src/Core/TextMerge/Policy.antt =====
-- The merge policy against its justification (crates/omnifuse-core/src/text_merge.rs).
use omni_fuse.Prelude.{
  true, false, Option, none, some, ◌≡◌, ◌≢◌, ◌⊎◌, ◌↔◌, ok, err, arith, list_beq_iff, list_eq,
  nat_eq,
}
use omni_fuse.Core.TextMerge.{
  Bytes, Merge, TextMergeResult, no_conflict, merged, failed, TextMergeDecision, upload_local,
  upload_merged, accept_remote, already_synced, conflict, has_marker, three_way_text_merge,
  decide_text_merge,
}

-- The text that both sides hold once the result or the decision is carried out.
abbrev pub result_text : TextMergeResult → Bytes → Option Bytes
result_text no_conflict local = some local
result_text (merged text) local = some text
result_text (failed _ _) local = none

abbrev pub decision_text : TextMergeDecision → Bytes → Option Bytes
decision_text upload_local local = some local
decision_text (upload_merged text) local = some text
decision_text (accept_remote text) local = some text
decision_text already_synced local = some local
decision_text conflict local = none

abbrev pub Differ : Bytes → Bytes → Bytes → Type 0
Differ base local remote = (base ≢ remote) × (base ≢ local) × (local ≢ remote)

module _ (merge : Bytes → Bytes → Bytes → Merge) (base local remote : Bytes) where
  -- The situation in which each decision is the right one.
  abbrev pub Justified : TextMergeDecision → Type 0
  Justified upload_local = (base ≡ remote) × (local ≢ remote)
  Justified (upload_merged text) =
      Differ base local remote
      × ((merge base local remote ≡ ok text)
          ⊎ ((merge base local remote ≡ err text) × (has_marker text ≡ false)))
  Justified (accept_remote text) = (base ≡ local) × (base ≢ remote) × (text ≡ remote)
  Justified already_synced = local ≡ remote
  Justified conflict =
      Differ base local remote
      × ((text : Bytes) × (merge base local remote ≡ err text) × (has_marker text ≡ true))

  decide_text_merge-Justified :
      (d : TextMergeDecision) → decide_text_merge merge base local remote ≡ d → Justified d
  unfolding decide_text_merge
  decide_text_merge-Justified upload_local h =
      ground (arith, list_beq_iff base local, list_beq_iff local remote, list_beq_iff base remote)
  decide_text_merge-Justified _ h =
      ground (arith, list_beq_iff base local, list_beq_iff local remote, list_beq_iff base remote)

  Justified-decide_text_merge :
      (d : TextMergeDecision) → Justified d → decide_text_merge merge base local remote ≡ d
  unfolding decide_text_merge
  Justified-decide_text_merge upload_local h =
      ground (arith, list_beq_iff base local, list_beq_iff local remote, list_beq_iff base remote)
  Justified-decide_text_merge _ h =
      ground (arith, list_beq_iff base local, list_beq_iff local remote, list_beq_iff base remote)

  -- `decide_text_merge` returns a decision exactly when that decision is justified: it uploads the
  -- local text only if the remote is unchanged, accepts the remote text only if the local one is
  -- unchanged, uploads a merge or reports a conflict only if all three texts differ and `diffy`
  -- merged them, or left markers, and does nothing only if the two sides agree.
  pub decide_text_merge-iff-Justified :
      (d : TextMergeDecision) → (decide_text_merge merge base local remote ≡ d) ↔ Justified d
  decide_text_merge-iff-Justified d = (decide_text_merge-Justified d, Justified-decide_text_merge d)

  -- `decide_text_merge` and `three_way_text_merge` lead to the same text on both sides, or both to a
  -- conflict.
  pub decision_text-decide_text_merge :
      decision_text (decide_text_merge merge base local remote) local
      ≡ result_text (three_way_text_merge merge base local remote) local
  unfolding decide_text_merge
  decision_text-decide_text_merge =
      ground (arith, list_beq_iff base local, list_beq_iff local remote, list_beq_iff base remote)

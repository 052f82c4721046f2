-- ===== src/SpecMerge.antt =====
-- src/specs.js: the three-way merge of indexed Markdown by stable block identity, from the decision
-- on one block to the plan for a document. A stage is a revision that was read and checked; hashes
-- and the manifest of the result are not computed here.
pub mod Decide
pub mod Examples
use vcs_lab.Prelude.{
  ℕ, suc, ◌+◌, Bool, true, false, not, ◌&&◌, ◌||◌, Option, none, some, List, [], ◌∷◌, ◌++◌, map,
  if◌then◌else◌, Text, codes, ◌==◌, contains, add_all, to_set, Dict, lookup, insert, keys, has,
  get_or_else, is_some, filter, find, all, head?,
}
use vcs_lab.Trailers.{trim_end}

-- A primary block with its content.
pub record Block : Type 0 where
  pub id : Text
  pub semantic_key : Text
  pub title : Text
  pub content_hash : Text
  pub content : Text

-- One stage of the merge; `artifact_id` is absent where the revision has no manifest.
pub record Stage : Type 0 where
  pub exists : Bool
  pub artifact_id : Option Text
  pub blocks : List Block

pub data Side : Type 0 where
  ours_side theirs_side : Side

pub data ConflictType : Type 0 where
  delete_vs_edit : Side → ConflictType
  same_block_edit same_block_concurrent_add : ConflictType

pub data Outcome : Type 0 where
  deleted_both deleted_ours deleted_theirs unchanged ours_edit theirs_edit identical_edit : Outcome
  identical_add ours_add theirs_add : Outcome
  conflict : ConflictType → Outcome

pub record Decision : Type 0 where
  pub id : Text
  pub outcome : Outcome
  pub block : Option Block

-- `left?.contentHash === right?.contentHash`, on two blocks.
abbrev pub same : Block → Block → Bool
same a b = a.content_hash == b.content_hash

-- `contentDecision` where the base has the block and both sides still do.
unfoldable pub edited : Block → Block → Block → Outcome × Option Block
edited base ours theirs =
    let ours_changed = not (same base ours) in
    let theirs_changed = not (same base theirs) in
    if not ours_changed && not theirs_changed
    then (unchanged, some ours)
    else if ours_changed && not theirs_changed
    then (ours_edit, some ours)
    else if not ours_changed && theirs_changed
    then (theirs_edit, some theirs)
    else if same ours theirs
    then (identical_edit, some ours)
    else (conflict same_block_edit, none)

unfoldable pub decide : Option Block → Option Block → Option Block → Outcome × Option Block
unfolding edited
decide (some base) none none = (deleted_both, none)
decide (some base) none (some theirs) =
    if same base theirs then (deleted_ours, none) else (conflict (delete_vs_edit ours_side), none)
decide (some base) (some ours) none =
    if same base ours then (deleted_theirs, none) else (conflict (delete_vs_edit theirs_side), none)
decide (some base) (some ours) (some theirs) = edited base ours theirs
decide none (some ours) (some theirs) =
    if same ours theirs
    then (identical_add, some ours)
    else (conflict same_block_concurrent_add, none)
decide none (some ours) none = (ours_add, some ours)
decide none none theirs = (theirs_add, theirs)

-- `contentDecision`.
unfoldable pub content_decision : Text → Option Block → Option Block → Option Block → Decision
unfolding decide
content_decision id base ours theirs =
    let (outcome, block) = decide base ours theirs in
    record { id = id; outcome = outcome; block = block }

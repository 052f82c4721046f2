-- ===== src/Repository.antt =====
-- What the planners of src/merge-plan.js and src/rebase-plan.js ask of src/engine.js and src/git.js. The
-- answers are Git's, so they are the fields of a record.
use vcs_lab.Prelude.{Bool, Option, List, Text}
use vcs_lab.Errors.{Result}
use vcs_lab.Records.{CausalRecord, Catalog}
use vcs_lab.MergePlan.{HistoryItem}
use vcs_lab.Topology.{CommitNode}

pub record Repository : Type 0 where
  -- `symbolicRef("HEAD", cwd, { short: true })`
  pub head_branch : Option Text
  -- `resolveObjectIds([expression], cwd)[0]`
  pub resolve : Text → Result Text
  pub merge_base : Text → Text → Result Text
  pub is_ancestor : Text → Text → Bool
  -- the object ids of `listRefs("refs/heads/", cwd)`
  pub branch_tips : List Text
  -- `commitHistory([ref], cwd)`
  pub history : Text → List HistoryItem
  -- `commitHistory` of the range above a base up to a head, oldest first
  pub range_history : Text → Text → List HistoryItem
  pub patch_equivalent : Text → Text → Text → List Text
  pub commit_topology : Text → Text → List CommitNode
  pub catalog : Catalog
  pub structurally_valid : CausalRecord → Bool
  pub references_exist : CausalRecord → Bool

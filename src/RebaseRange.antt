-- ===== src/RebaseRange.antt =====
-- src/rebase-plan.js: the range of a rebase, what it leaves behind, and the causal plan that stands on it.
-- Git's answers are a `Repository`.
use vcs_lab.Prelude.{
  Bool, true, false, not, Option, none, some, List, [], ◌∷◌, ◌++◌, map, if◌then◌else◌, Text, codes,
  ◌==◌, contains, get_or_else,
}
use vcs_lab.Errors.{
  Result, ok, err, ◌>>=◌, ◌>>◌, throw_if, usage_missing_argument, unsupported_range,
}
use vcs_lab.MergePlan.{HistoryItem, item_change_id, PlanInput, MergePlan, build_merge_plan}
use vcs_lab.Repository.{Repository}

-- `range`, as `resolveRange` returns it.
pub record Range : Type 0 where
  pub base : Option Text
  pub tip : Text
  pub explicit : Bool

abbrev pub peel : Text → Text
peel expression = expression ++ codes "^{commit}"

module _ (repository : Repository) where
  -- `requestedSourceRef ?? currentBranch(cwd)`: an absent or empty branch is a detached HEAD.
  unfoldable pub source_or_branch : Option Text → Option Text → Result Text
  source_or_branch (some source) branch = ok source
  source_or_branch none none = err usage_missing_argument
  source_or_branch none (some []) = err usage_missing_argument
  source_or_branch none (some (c ∷ cs)) = ok (c ∷ cs)

  -- `resolveRange`.
  unfoldable pub resolve_range : Text → Option Text → Result Range
  resolve_range source none = do
    tip ← repository.resolve (peel source)
    ok (record { base = none; tip = tip; explicit = false })
  resolve_range source (some requested) = do
    tip ← repository.resolve (peel source)
    base ← repository.resolve (peel requested)
    throw_if (base == tip) unsupported_range
    throw_if (not (repository.is_ancestor base tip)) unsupported_range
    throw_if (not (contains repository.branch_tips tip)) unsupported_range
    ok (record { base = some base; tip = tip; explicit = true })

-- A commit that an explicit range leaves behind.
pub record Excluded : Type 0 where
  pub commit : Text
  pub change_id : Text
  pub subject : Text

unfoldable exclude : HistoryItem → Excluded
unfolding item_change_id
exclude item = record {
  commit = item.commit;
  change_id = item_change_id item;
  subject = item.subject;
}

-- `excludedByRange`; an empty base is no base.
unfoldable pub excluded_by_range : Repository → Text → Option Text → List Excluded
unfolding exclude
excluded_by_range repository physical_base none = []
excluded_by_range repository physical_base (some []) = []
excluded_by_range repository physical_base (some (c ∷ cs)) =
    if (c ∷ cs) == physical_base
    then []
    else map exclude (repository.range_history physical_base (c ∷ cs))

-- The plan that the causal planner makes, with the commits that it resolved.
pub record CausalPlan : Type 0 where
  pub target_head : Text
  pub range_base : Text
  pub input : PlanInput
  pub plan : MergePlan

-- `buildMergePlanBetween`, which reads the repository for the planner.
unfoldable pub build_merge_plan_between : Repository → Text → Text → Option Text → Result CausalPlan
unfolding build_merge_plan
build_merge_plan_between repository target source requested_base = do
  target_head ← repository.resolve (peel target)
  source_head ← repository.resolve (peel source)
  physical_base ← repository.merge_base target_head source_head
  target_tree ← repository.resolve (target_head ++ codes "^{tree}")
  source_tree ← repository.resolve (source_head ++ codes "^{tree}")
  let range_base = get_or_else requested_base physical_base
  let input : PlanInput = record {
    history = repository.history target_head;
    source_history = repository.range_history range_base source_head;
    candidates = repository.patch_equivalent target_head source_head physical_base;
    catalog = repository.catalog;
    physical_base = physical_base;
    source_head = source_head;
    target_tree = target_tree;
    source_tree = source_tree;
  }
  ok (record {
    target_head = target_head;
    range_base = range_base;
    input = input;
    plan =
        build_merge_plan repository.is_ancestor repository.structurally_valid
          repository.references_exist input;
  })

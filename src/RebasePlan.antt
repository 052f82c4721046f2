-- ===== src/RebasePlan.antt =====
-- src/rebase-plan.js: the plan of a rebase, from the range to the replay queue. Git's answers are a
-- `Repository`; the hash of the fingerprint is not computed, only what it covers.
pub mod Declared
pub mod Actions
pub mod Built
pub mod Queue
pub mod Pinned
pub mod Examples
use vcs_lab.Prelude.{
  Bool, true, false, not, ◌&&◌, ◌||◌, Option, none, some, List, [], ◌∷◌, ◌++◌, map, if◌then◌else◌,
  Text, codes, ◌==◌, take, contains, Dict, lookup, insert, get_or_else, filter,
}
use vcs_lab.Errors.{
  Result, ok, err, ◌>>=◌, ◌>>◌, throw_if, usage_missing_argument, unsupported_range,
}
use vcs_lab.EffectiveBase.{EffectiveBase}
use vcs_lab.Interactive.{
  Action, omit, review, replay, is_surviving, InteractiveOptions, declared_interactive_actions,
  PlanChange, ResolvedAction, Program, resolve_interactive_program,
}
use vcs_lab.MergePlan.{
  HistoryItem, item_change_id, Status, covered, candidate_equivalent, new, Proof, Change,
  StatusCounts, count_changes, PlanInput, MergePlan, build_merge_plan,
}
use vcs_lab.Repository.{Repository}
use vcs_lab.Topology.{
  ParentSource, ParentOrigin, UnsupportedMerge, StepKind, pick, recreate_merge, Step, Topology,
  analyze_rebase_topology, topology_fingerprint_input,
}
use vcs_lab.RebaseRange.{
  CausalPlan, Excluded, Range, build_merge_plan_between, excluded_by_range, peel, resolve_range,
  source_or_branch,
}
use vcs_lab.RebaseLists.{
  CandidateItem, OmittedItem, QueueItem, RebaseChange, RecreatedMerge, action_of, apply_action,
  candidates_of, change_subjects, declare_actions, is_omit, is_recreation, is_review, omitted_of,
  plan_changes_of, recreated_merge, recreated_merges_of, replay_queue_of, undeclared_changes,
  with_action,
}

pub data Mode : Type 0 where
  linear merge_preserving : Mode

pub record RebasePlan : Type 0 where
  pub mode : Mode
  pub onto_head : Text
  pub source_head : Text
  pub onto_tree : Text
  pub source_tree : Text
  pub exact_state_equality : Bool
  pub physical_base : Text
  pub effective_base : EffectiveBase
  pub reachable_receipts : List (Option Text)
  pub quarantined_facts : List Text
  pub range : Range
  pub range_base : Text
  pub excluded : List Excluded
  pub counts : StatusCounts
  pub topology : Topology
  pub recreated_merges : List RecreatedMerge
  pub interactive : List ResolvedAction
  pub changes : List RebaseChange
  pub replay_queue : List QueueItem
  pub omitted : List OmittedItem
  pub candidates : List CandidateItem
  pub candidate_decision_required : Bool
  pub executable_without_review : Bool

abbrev pub is_nil {ℓ} : {A : Type ℓ} → List A → Bool
is_nil [] = true
is_nil (x ∷ xs) = false

-- The plan, once the changes have their actions.
unfoldable pub assemble :
    Repository → Range → CausalPlan → Topology → Program → List RebaseChange → RebasePlan
unfolding replay_queue_of omitted_of candidates_of recreated_merges_of change_subjects
    excluded_by_range count_changes
assemble repository range causal topology program changes =
    let candidates = candidates_of changes in
    record {
      mode = if topology.linear_history then linear else merge_preserving;
      onto_head = causal.target_head;
      source_head = causal.input.source_head;
      onto_tree = causal.input.target_tree;
      source_tree = causal.input.source_tree;
      exact_state_equality = causal.plan.exact_state_equality;
      physical_base = causal.input.physical_base;
      effective_base = causal.plan.effective_base;
      reachable_receipts = causal.plan.reachable_receipts;
      quarantined_facts = causal.plan.quarantined_facts;
      range = range;
      range_base = causal.range_base;
      excluded = excluded_by_range repository causal.input.physical_base range.base;
      counts =
          count_changes (record { covered_count = 0; candidate_count = 0; new_count = 0 })
            (map (λ c. c.change) changes);
      topology = topology;
      recreated_merges =
          recreated_merges_of (change_subjects [] causal.plan.changes) topology.steps;
      interactive = program.actions;
      changes = changes;
      replay_queue = replay_queue_of changes;
      omitted = omitted_of changes;
      candidates = candidates;
      candidate_decision_required = not (is_nil candidates);
      executable_without_review = topology.supported && is_nil candidates;
    }

-- `try { resolve(expression) } catch`.
unfoldable pub resolved_or_none : Result Text → Option Text
resolved_or_none (ok commit) = some commit
resolved_or_none (err code) = none

-- `buildRebasePlanInSession`.
unfoldable pub build_rebase_plan :
    Repository → Text → Option Text → Option Text → InteractiveOptions → Result RebasePlan
unfolding source_or_branch resolve_range build_merge_plan_between analyze_rebase_topology
    undeclared_changes declared_interactive_actions resolve_interactive_program declare_actions
    assemble resolved_or_none
build_rebase_plan repository onto requested from options = do
  source ← source_or_branch repository requested repository.head_branch
  range ← resolve_range repository source from
  causal ← build_merge_plan_between repository onto source range.base
  let topology =
      analyze_rebase_topology repository.is_ancestor causal.target_head
        (repository.commit_topology causal.range_base causal.input.source_head)
  let changes = undeclared_changes topology.merge_commits causal.plan.changes
  declared ← declared_interactive_actions options
  program ←
      resolve_interactive_program
        (λ expression. resolved_or_none (repository.resolve (peel expression)))
        (plan_changes_of changes) topology.merge_commits declared
  ok (assemble repository range causal topology program (declare_actions program.by_commit changes))

-- What `fingerprint` hashes.
pub record FingerprintInput : Type 0 where
  pub mode : Mode
  pub heads : Text × Text × Text
  pub trees : Text × Text
  pub bases : Text × EffectiveBase
  pub receipts : List (Option Text)
  pub changes : List (Text × Text × Status × Option Proof × Action)
  pub merge_commits : List Text
  pub topology : List (Text × List (ParentSource × Option Text))
  pub interactive : List (Action × Text × Option Text)

unfoldable pub fingerprint_input : RebasePlan → FingerprintInput
unfolding topology_fingerprint_input
fingerprint_input plan = record {
  mode = plan.mode;
  heads = (plan.onto_head, plan.source_head, plan.range_base);
  trees = (plan.onto_tree, plan.source_tree);
  bases = (plan.physical_base, plan.effective_base);
  receipts = plan.reachable_receipts;
  changes =
      map (λ c. (c.change.commit, c.change.change_id, c.change.status, c.change.proof, c.action))
        plan.changes;
  merge_commits = plan.topology.merge_commits;
  topology = topology_fingerprint_input plan.topology.steps;
  interactive = map (λ a. (a.action, a.commit, a.target)) plan.interactive;
}

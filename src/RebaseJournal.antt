-- ===== src/RebaseJournal.antt =====
-- src/rebase-operations.js: the journal of a causal rebase, its members and the records that it
-- publishes. Timestamps, timings, metrics and texts for a reader are left out.
pub mod Host
pub mod Session
pub mod Recording
pub mod Approval
pub mod Approving
pub mod Absorbing
pub mod Stepping
pub mod Finishing
pub mod Checks
pub mod Starting
pub mod Continuing
pub mod Aborting
pub mod Ledger
pub mod Rules
pub mod Kept
pub mod Accounting
pub mod Between
pub mod Anchored
pub mod Recorded
pub mod Ending
pub mod Rounds
pub mod Loop
pub mod Quiet
pub mod Completed
pub mod Continued
pub mod Checked
pub mod Resumed
pub mod Checking
pub mod Preparing
pub mod Begun
pub mod Aborted
pub mod Reached
pub mod Status
pub mod Sample
pub mod Examples
use vcs_lab.Prelude.{ℕ, Bool, true, false, Option, none, some, List, [], ◌∷◌, Text, Dict, filter}
use vcs_lab.Interactive.{Action, ResolvedAction}
use vcs_lab.EffectiveBase.{EffectiveBase}
use vcs_lab.RebaseRange.{Range, Excluded}
use vcs_lab.RebaseLists.{OmittedItem, CandidateItem}
use vcs_lab.RebasePlan.{RebasePlan}
use vcs_lab.RebaseProgram.{MergeChange, merge_change, ProgramStep, run_merge, run_pick, run_omit}
use vcs_lab.Topology.{ParentSource, Step}

-- `operation.state`.
pub data RunState : Type 0 where
  prepared reducing_overlay resetting running positioning applying conflicted blocked : RunState
  awaiting_message awaiting_content awaiting_absorption : RunState
  forecast_mismatch identity_mismatch : RunState

-- How an application relates to its origin.
pub data Relation : Type 0 where
  causal_rebase contextual_rebase contextual_fork : Relation

-- A recorded resolution that fits a conflict.
pub record Candidate : Type 0 where
  pub id : Text
  pub result_blob : Option Text

-- A conflict descriptor, with the choice that was made for it.
pub record Conflict : Type 0 where
  pub path : Text
  pub signature : Text
  pub candidates : List Candidate
  pub selected : Option Text
  pub selection_method : Option Text

-- What was staged for a conflict.
pub record ResolutionOutcome : Type 0 where
  pub path : Text
  pub signature : Text
  pub created : Bool
  pub selected : Option Text
  pub result_blob : Option Text

pub record SemanticMerge : Type 0 where
  pub file : Text
  pub resolved_paths : List Text
  pub accepted : Bool

-- A commit that the interactive program melds into the current one.
pub record AbsorbedCommit : Type 0 where
  pub commit : Text
  pub change_id : Text
  pub action : Action

-- `operation.current.absorption`.
pub record Absorption : Type 0 where
  pub action : Action
  pub message : Text
  pub items : List AbsorbedCommit
  pub next_index : ℕ
  pub resolutions : List ResolutionOutcome
  pub conflicts : List Conflict
  pub conflicted_commit : Option Text

pub record MergeParent : Type 0 where
  pub commit : Text
  pub replaces : Option Text
  pub source : ParentSource

-- What a recreated merge has that a pick has not: its identity and its parents.
pub record Join : Type 0 where
  pub change_id : Text
  pub parents : List MergeParent

-- `operation.current`: the step that runs.
pub record Current : Type 0 where
  pub source_commit : Text
  pub source_change_id : Text
  pub target_before : Text
  pub target_before_tree : Text
  pub conflicted_paths : List Text
  pub join : Option Join
  pub conflicts : List Conflict
  pub resolution_outcomes : List ResolutionOutcome
  pub semantic_merges : List SemanticMerge
  pub absorption : Option Absorption
  pub tree_before_edit : Option Text
  pub fork_change_id : Option Text

pub record AppliedChange : Type 0 where
  pub id : Text
  pub origin_commit : Text
  pub origin_change_id : Text
  pub applied_commit : Text
  pub applied_change_id : Text
  pub target_before : Text
  pub target_before_tree : Text
  pub source_tree : Text
  pub result_tree : Text
  pub relation : Relation
  pub conflicted_paths : List Text
  pub resolutions : List ResolutionOutcome
  pub semantic_merges : List SemanticMerge

-- `operation.recreatedMerges`.
pub record RecreatedEntry : Type 0 where
  pub origin_commit : Text
  pub origin_change_id : Text
  pub result_commit : Text
  pub change_id : Text
  pub clean_join : Bool
  pub parents : List MergeParent
  pub resolutions : List ResolutionOutcome
  pub semantic_merges : List SemanticMerge
  pub conflicted_paths : List Text

pub record Amendment : Type 0 where
  pub id : Text
  pub change_id : Text
  pub commit : Text
  pub origin_commit : Text
  pub tree_before : Option Text
  pub tree_after : Text

pub record AbsorptionRecord : Type 0 where
  pub id : Text
  pub action : Action
  pub surviving_commit : Text
  pub surviving_change_id : Text
  pub absorbed_commits : List Text
  pub absorbed_changes : List Text

-- A step of a reviewed forecast.
pub record ForecastStep : Type 0 where
  pub source_commit : Text
  pub target_before_tree : Text
  pub outcome : Text
  pub result_tree : Option Text

pub record ApprovedResolution : Type 0 where
  pub source_commit : Text
  pub path : Text
  pub signature : Text
  pub resolution_id : Text
  pub result_blob : Option Text

pub record ApprovedSpecMerge : Type 0 where
  pub source_commit : Text
  pub path : Text
  pub signature : Text
  pub markdown_hash : Text
  pub manifest_hash : Text

-- `operation.forecastApproval`.
pub record ForecastApproval : Type 0 where
  pub id : Text
  pub plan_fingerprint : Text
  pub steps : List ForecastStep
  pub approved_resolutions : List ApprovedResolution
  pub approved_spec_merges : List ApprovedSpecMerge
  pub predicted_result_tree : Option Text
  pub predicted_overlay_tree : Option Text

-- The journal.
pub record Operation : Type 0 where
  pub id : Text
  pub state : RunState
  pub source_ref : Text
  pub source_branch_ref : Text
  pub source_head : Text
  pub original_head : Text
  pub onto_ref : Text
  pub onto_head : Text
  pub accept_candidates : Bool
  pub forecast_approval : Option ForecastApproval
  pub target_overlay : Option Text
  pub overlay_rematerialized : Bool
  pub plan : RebasePlan
  pub queue : List ProgramStep
  pub next_index : ℕ
  pub executed_count : ℕ
  pub rewritten : Dict Text
  pub recreated_merges : List RecreatedEntry
  pub amendments : List Amendment
  pub absorptions : List AbsorptionRecord
  pub applied : List AppliedChange
  pub current : Option Current

-- The receipt of a finished rebase.
pub record Receipt : Type 0 where
  pub id : Text
  pub operation_id : Text
  pub forecast_id : Option Text
  pub source_ref : Text
  pub source_head : Text
  pub onto_ref : Text
  pub onto_head : Text
  pub physical_base : Text
  pub effective_base : EffectiveBase
  pub quarantined_facts : List Text
  pub range : Range
  pub excluded_by_range : List Excluded
  pub candidate_policy : Text
  pub interactive : List ResolvedAction
  pub accept_candidates : Bool
  pub omitted : List OmittedItem
  pub accepted_candidates : List CandidateItem
  pub applications : List AppliedChange
  pub recreated_merges : List RecreatedEntry
  pub amendments : List Amendment
  pub absorptions : List AbsorptionRecord
  pub forked_source_commits : List Text
  pub absorbed_commits : List Text
  pub absorbed_changes : List Text
  pub result_commit : Text
  pub source_tree : Text
  pub onto_tree : Text
  pub result_tree : Text
  pub exact_state_equality_after : Bool

-- `item.change ?? item`: what the step is about. An omission names its commit only.
unfoldable pub change_of : ProgramStep → MergeChange
change_of (run_merge step merge) = merge
change_of (run_pick step c absorbs) = record {
  commit = c.change.commit;
  short_commit = c.change.short_commit;
  change_id = c.change.change_id;
  subject = c.change.subject;
}
change_of (run_omit step) = merge_change step none

abbrev pub step_of_item : ProgramStep → Step
step_of_item (run_merge step merge) = step
step_of_item (run_pick step c absorbs) = step
step_of_item (run_omit step) = step

abbrev pub is_executable : ProgramStep → Bool
is_executable (run_omit step) = false
is_executable _ = true

-- `executableSteps`.
unfoldable pub executable_steps : List ProgramStep → List ProgramStep
executable_steps queue = filter is_executable queue

abbrev pub get_elem? {ℓ} : {A : Type ℓ} → List A → ℕ → Option A
get_elem? [] i = none
get_elem? (x ∷ xs) ℕ.zero = some x
get_elem? (x ∷ xs) (ℕ.suc i) = get_elem? xs i

-- `list.length > 0`.
abbrev pub has {ℓ} : {A : Type ℓ} → List A → Bool
has [] = false
has (x ∷ xs) = true

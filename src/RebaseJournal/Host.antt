-- ===== src/RebaseJournal/Host.antt =====
-- What src/rebase-operations.js asks of Git, of the files of the worktree and of the modules that
-- read or publish records: a world, the questions it answers and the calls that change it.
use vcs_lab.Prelude.{Bool, Option, List, Text}
use vcs_lab.Errors.{Result}
use vcs_lab.RebasePlan.{RebasePlan}
use vcs_lab.Repository.{Repository}
use vcs_lab.RebaseJournal.{
  Candidate, Conflict, ResolutionOutcome, SemanticMerge, AppliedChange, Amendment, AbsorptionRecord,
  Receipt, ForecastApproval, Operation,
}

-- The Git commands that change the repository, with the arguments that the code supplies.
pub data GitCommand : Type 0 where
  cherry_pick cherry_pick_no_commit merge_no_commit reset_hard : Text → GitCommand
  cherry_pick_continue cherry_pick_abort merge_abort commit_no_edit amend_no_edit : GitCommand
  amend_message write_merge_message : Text → GitCommand
  update_ref : Text → Text → GitCommand
  delete_ref : Text → GitCommand

-- A plan of `specMergePlansForOperation`, as far as the rebase reads it.
pub record SpecPlanView : Type 0 where
  pub file : Text
  pub signature : Text
  pub clean : Bool
  pub markdown_hash : Text
  pub manifest_hash : Text
  pub resolved_paths : List Text

-- A call that may throw; what it did before stays done.
abbrev pub Call : Type 0 → Type 0 → Type 0
Call World A = World → Result A × World

-- A stored forecast that `rebaseForecastForPlan` found to fit the plan.
pub record Forecast : Type 0 where
  pub approval : ForecastApproval
  pub accept_candidates : Bool
  pub target_overlay : Option Text

pub record Host (World : Type 0) : Type 0 where
  -- `runGit(command)`: whether Git succeeded
  pub run : GitCommand → World → Bool × World
  -- `newId(prefix)`
  pub new_id : Text → World → Text × World
  pub head : World → Text
  -- `treeId(revision)`, `changeIdForCommit(commit)`, `commitMessage(commit)`
  pub tree_of : Text → World → Text
  pub change_id_of : Text → World → Text
  pub message_of : Text → World → Text
  pub head_ref : World → Option Text
  -- the answers that the planner gets
  pub repository : World → Repository
  pub is_clean : World → Bool
  pub replay_active : World → Bool
  pub unmerged_paths : World → List Text
  pub cherry_pick_head : World → Option Text
  pub pending_merge_head : World → Option Text
  pub merge_message : World → Text
  pub transient_root : World → Text
  -- src/resolutions.js
  pub capture_descriptors : List Text → Call World (List Conflict)
  pub capture_outcomes : List Conflict → Call World (List ResolutionOutcome)
  pub materialize_candidate : Conflict → Candidate → Call World (Unit {0})
  pub publish_resolution : ResolutionOutcome → Text → Call World (Unit {0})
  -- src/specs.js
  pub spec_plans : World → List SpecPlanView
  pub materialize_spec : SpecPlanView → Call World (Unit {0})
  pub capture_spec_outcomes : List SemanticMerge → Call World (List SemanticMerge)
  pub spec_decisions_current : Operation → Bool
  -- src/rebase-forecast.js, src/reconcile-state.js
  pub forecast_overlay : Text → World → Result (Option Text)
  pub forecast_for_plan : Text → RebasePlan → World → Result Forecast
  pub reconciliation_pending : World → Bool
  -- src/notes.js and src/provenance.js
  pub note_application : AppliedChange → Call World (Unit {0})
  pub note_amendment : Amendment → Call World (Unit {0})
  pub note_absorption : AbsorptionRecord → Call World (Unit {0})
  pub note_receipt : Text → Receipt → Call World (Unit {0})
  pub carry_provenance : List AppliedChange → Call World (Unit {0})
  -- src/target-overlay.js: the merged tree, or none where it conflicts
  pub materialize_overlay : Text → Text → Text → Call World (Option Text)
  pub assert_overlay_current : Text → Call World (Unit {0})
  pub reduce_to_head : Text → Call World (Unit {0})
  pub restore_overlay : Text → Call World (Unit {0})

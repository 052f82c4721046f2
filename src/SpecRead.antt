-- ===== src/SpecRead.antt =====
-- The start of `planSpecMerge` of src/specs.js: what blocks a merge before its blocks are compared. The
-- stages that `revisionStages` reads, and whether a stage's manifest is in need of migration, are
-- parameters.
pub mod Blocked
pub mod Examples
use vcs_lab.Prelude.{Bool, true, false, Option, none, some, List, [], ◌∷◌, ◌++◌, if◌then◌else◌}
use vcs_lab.SpecMerge.{Stage}
use vcs_lab.SpecPlan.{
  StageName, base_stage, ours_stage, theirs_stage, PlanConflict, semantic_metadata_unavailable,
  parser_migration_required, not_evaluated, SpecPlan, plan_spec_merge,
}

pub record Stages : Type 0 where
  pub base : Stage
  pub ours : Stage
  pub theirs : Stage

-- A plan that is blocked before it is made.
unfoldable pub blocked : PlanConflict → SpecPlan
blocked conflict = record {
  clean = false;
  artifact_id = none;
  decisions = [];
  ordering = not_evaluated;
  conflicts = conflict ∷ [];
  result = none;
}

unfoldable pub stage_if : Bool → StageName → List StageName
stage_if true name = name ∷ []
stage_if false name = []

module _ (needs_migration : Stage → Bool) where
  -- `migrationStages`: a stage that does not exist needs none.
  unfoldable pub migration_stages : Stages → List StageName
  unfolding stage_if
  migration_stages s =
      stage_if (if s.base.exists then needs_migration s.base else false) base_stage
      ++ (stage_if (if s.ours.exists then needs_migration s.ours else false) ours_stage
          ++ stage_if (if s.theirs.exists then needs_migration s.theirs else false) theirs_stage)

  unfoldable pub plan_unless_migrating : Stages → List StageName → SpecPlan
  unfolding blocked
  plan_unless_migrating s [] = plan_spec_merge s.base s.ours s.theirs
  plan_unless_migrating s (name ∷ names) = blocked (parser_migration_required (name ∷ names))

  -- `planSpecMerge`, on the stages read; `none` where reading them threw.
  unfoldable pub plan_spec_file : Option Stages → SpecPlan
  unfolding plan_unless_migrating migration_stages
  plan_spec_file none = blocked semantic_metadata_unavailable
  plan_spec_file (some s) = plan_unless_migrating s (migration_stages s)

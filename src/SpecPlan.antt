-- ===== src/SpecPlan.antt =====
-- `planSpecMerge` of src/specs.js, from the three stages on: the artifact check, the decisions, the
-- order, the conflicts, and the merged Markdown. The counts and the manifest of the result, whose
-- building can throw, are not modelled.
pub mod Correct
pub mod Clean
pub mod Written
pub mod Examples
use vcs_lab.Prelude.{
  ℕ, ◌+◌, Bool, true, false, not, ◌&&◌, ◌||◌, Option, none, some, List, [], ◌∷◌, ◌++◌, map,
  if◌then◌else◌, Text, codes, ◌==◌, contains, add_all, to_set, Dict, lookup, insert, keys,
}
use vcs_lab.MergePlan.{truthy}
use vcs_lab.SpecMerge.{Block, Stage, ConflictType, Outcome, conflict, Decision, content_decision}
use vcs_lab.SpecOrder.{OrderDecision, OrderConflict, Ordering, merge_order}
use vcs_lab.Trailers.{trim_end}

-- The three stages of a merge, by name.
pub data StageName : Type 0 where
  base_stage ours_stage theirs_stage : StageName

pub data PlanConflict : Type 0 where
  semantic_metadata_unavailable : PlanConflict
  parser_migration_required : List StageName → PlanConflict
  artifact_identity_mismatch : PlanConflict
  block_conflict : Text → ConflictType → PlanConflict
  order_issue : OrderConflict → PlanConflict

pub data MergeResult : Type 0 where
  deleted : MergeResult
  written : List Block → Text → MergeResult

-- `not_evaluated` is the ordering of a plan that is blocked before it is made.
pub data PlanOrdering : Type 0 where
  not_evaluated : PlanOrdering
  evaluated : OrderDecision → List Text → PlanOrdering

pub record SpecPlan : Type 0 where
  pub clean : Bool
  pub artifact_id : Option Text
  pub decisions : List Decision
  pub ordering : PlanOrdering
  pub conflicts : List PlanConflict
  pub result : Option MergeResult

-- `new Map(stage.blocks.map((block) => [block.id, block]))`.
unfoldable pub by_id : Dict Block → List Block → Dict Block
by_id m [] = m
by_id m (b ∷ bs) = by_id (insert m b.id b) bs

unfoldable pub choose_block : Dict Block → Text → Option Block → Dict Block
choose_block m id none = m
choose_block m id (some b) = insert m id b

-- The chosen blocks of the decisions that have one.
unfoldable pub choose : Dict Block → List Decision → Dict Block
unfolding choose_block
choose m [] = m
choose m (d ∷ ds) = choose (choose_block m d.id d.block) ds

unfoldable pub outcome_conflicts : Text → Outcome → List PlanConflict
outcome_conflicts id (conflict c) = block_conflict id c ∷ []
outcome_conflicts id _ = []

-- `decisions.filter((decision) => decision.conflict).map(...)`.
unfoldable pub block_conflicts : List Decision → List PlanConflict
unfolding outcome_conflicts
block_conflicts [] = []
block_conflicts (d ∷ ds) = outcome_conflicts d.id d.outcome ++ block_conflicts ds

-- `ordering.order.map((id) => chosen.get(id)).filter(Boolean)`.
unfoldable pub ordered_blocks : Dict Block → List Text → List Block
ordered_blocks chosen [] = []
ordered_blocks chosen (id ∷ ids) =
    let rest = ordered_blocks chosen ids in
    elim (lookup chosen id) [ none ↦ rest | some b ↦ b ∷ rest ]

-- `blocks.map((block) => block.content.trimEnd()).join("\n\n")`.
unfoldable pub join_blocks : List Block → Text
unfolding trim_end
join_blocks [] = []
join_blocks (b ∷ []) = trim_end b.content
join_blocks (b ∷ c ∷ bs) = trim_end b.content ++ (10 ∷ 10 ∷ join_blocks (c ∷ bs))

unfoldable pub render_result : Bool → List Block → MergeResult
unfolding join_blocks
render_result absent [] = if absent then deleted else written [] (10 ∷ [])
render_result absent (b ∷ bs) = written (b ∷ bs) (trim_end (join_blocks (b ∷ bs)) ++ 10 ∷ [])

abbrev pub is_nil {ℓ} : {A : Type ℓ} → List A → Bool
is_nil [] = true
is_nil (x ∷ xs) = false

module _ (base ours theirs : Stage) where
  abbrev pub base_by_id : Dict Block
  base_by_id = by_id [] base.blocks

  abbrev pub ours_by_id : Dict Block
  ours_by_id = by_id [] ours.blocks

  abbrev pub theirs_by_id : Dict Block
  theirs_by_id = by_id [] theirs.blocks

  abbrev pub all_ids : List Text
  all_ids = to_set (keys base_by_id ++ (keys ours_by_id ++ keys theirs_by_id))

  abbrev pub decision_on : Text → Decision
  decision_on id =
      content_decision id (lookup base_by_id id) (lookup ours_by_id id) (lookup theirs_by_id id)

  unfoldable pub plan_document : Text → SpecPlan
  unfolding by_id choose block_conflicts ordered_blocks render_result content_decision merge_order
  plan_document artifact =
      let decisions = map decision_on all_ids in
      let chosen = choose [] decisions in
      let ordering = merge_order base.blocks ours.blocks theirs.blocks (keys chosen) in
      let conflicts = block_conflicts decisions ++ map order_issue ordering.conflicts in
      record {
        clean = is_nil conflicts;
        artifact_id = some artifact;
        decisions = decisions;
        ordering = evaluated ordering.decision ordering.order;
        conflicts = conflicts;
        result =
            if is_nil conflicts
            then some (
                render_result (not ours.exists || not theirs.exists)
                  (ordered_blocks chosen ordering.order))
            else none;
      }

  -- The stages must name one artifact between them.
  unfoldable pub plan_artifacts : List Text → SpecPlan
  unfolding plan_document
  plan_artifacts (artifact ∷ []) = plan_document artifact
  plan_artifacts _ = record {
    clean = false;
    artifact_id = none;
    decisions = [];
    ordering = not_evaluated;
    conflicts = artifact_identity_mismatch ∷ [];
    result = none;
  }

  unfoldable pub plan_spec_merge : SpecPlan
  unfolding plan_artifacts truthy
  plan_spec_merge =
      plan_artifacts
        (to_set (truthy (base.artifact_id ∷ ours.artifact_id ∷ theirs.artifact_id ∷ [])))

-- ===== src/SpecPlan/Examples.antt =====
-- Runs of the plan for a document of src/specs.js.
use vcs_lab.Prelude.{
  ◌≡◌, refl, ◌&&◌, true, some, List, [], ◌∷◌, String, Text, codes, is_some, add_all, ◌==◌, keys,
  insert, lookup,
}
use vcs_lab.SpecMerge.{Block, Stage, same_block_edit}
use vcs_lab.SpecOrder.{OrderDecision}
use vcs_lab.SpecPlan.{
  artifact_identity_mismatch, block_conflict, evaluated, SpecPlan, plan_spec_merge, is_nil,
}
use vcs_lab.SpecPlan.Correct.{IsMergedDocument, document_order, clean_plan_merges}
use vcs_lab.SpecPlan.Clean.{is_single, artifacts, merges_all, result_iff_merges}
use vcs_lab.SpecPlan.Written.{Writes, clean_plan-Writes}

abbrev block : String → String → Block
block id content = record {
  id = codes id;
  semantic_key = codes id;
  title = codes id;
  content_hash = codes content;
  content = codes content;
}

abbrev stage : String → List Block → Stage
stage artifact blocks = record {
  exists = true;
  artifact_id = some (codes artifact);
  blocks = blocks;
}

abbrev pub base : Stage
base = stage "art" (block "a" "1" ∷ block "b" "2" ∷ block "c" "3" ∷ [])

-- Ours edits `a` and deletes `b`; theirs adds `d`.
abbrev pub ours : Stage
ours = stage "art" (block "a" "one" ∷ block "c" "3" ∷ [])

abbrev pub theirs : Stage
theirs = stage "art" (block "a" "1" ∷ block "b" "2" ∷ block "c" "3" ∷ block "d" "4" ∷ [])

abbrev pub plan : SpecPlan
plan = plan_spec_merge base ours theirs

pub plan-is_clean : plan.clean ≡ true
unfolding plan_spec_merge add_all ◌==◌ keys insert lookup
plan-is_clean = refl

plan-conflict :
    (plan_spec_merge base ours
      (stage "art" (block "a" "uno" ∷ block "b" "2" ∷ block "c" "3" ∷ []))).conflicts
    ≡ block_conflict (codes "a") same_block_edit ∷ []
unfolding plan_spec_merge add_all ◌==◌ keys insert lookup
plan-conflict = refl

plan-mismatch :
    (plan_spec_merge base ours (stage "other" [])).conflicts ≡ artifact_identity_mismatch ∷ []
unfolding plan_spec_merge add_all ◌==◌
plan-mismatch = refl

clean_plan_merges_example :
    (order : List Text) × (d : OrderDecision) × (plan.ordering ≡ evaluated d order)
    × IsMergedDocument base ours theirs order
clean_plan_merges_example = clean_plan_merges base ours theirs plan-is_clean

result_iff_merges_example :
    (is_some plan.result ≡ plan.clean)
    × (plan.clean ≡ (
        is_single (artifacts base ours theirs)
        && merges_all base ours theirs
        && is_nil (document_order base ours theirs).conflicts))
result_iff_merges_example = result_iff_merges base ours theirs

clean_plan-Writes_example : Writes base ours theirs plan
clean_plan-Writes_example = clean_plan-Writes base ours theirs plan-is_clean

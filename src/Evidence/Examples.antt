-- ===== src/Evidence/Examples.antt =====
-- Runs of the evidence of src/merge-plan.js and of the rules of src/proof-bundle.js.
use vcs_lab.Prelude.{
  ◌≡◌, refl, none, some, [], ◌∷◌, map, codes, contains, ◌==◌, add_all, lookup, text_le, text_lt,
  sort_by,
}
use mathlib.Core.List.{flat_map}
use vcs_lab.Errors.{ok}
use vcs_lab.Trailers.{extract_change_id}
use vcs_lab.Records.{CausalRecord, accepted_causal_records}
use vcs_lab.MergePlan.{
  covered, candidate_equivalent, new, stable_change_id, receipt_commit, amended_change_id,
  git_patch_id_heuristic, classify,
}
use vcs_lab.RebaseRange.{CausalPlan, build_merge_plan_between}
use vcs_lab.Repository.{Repository}
use vcs_lab.RebasePlan.Examples.{repository}
use vcs_lab.Evidence.{CoverageEvidence, evidence_of}
use vcs_lab.Evidence.Rules.{index_evidence, classify_from_evidence}
use vcs_lab.Evidence.Derived.{rederived, planned_on, evidence_for, IsShown, coverage_evidence-Shows}

-- A receipt for `s4`, and an amendment of the identity that `s2` and the target's `t2` carry.
abbrev receipt : CausalRecord
receipt = record {
  id = some (codes "l1");
  schema = some (codes "urn:jhcp:causal-metadata:1");
  type = codes "landing";
  attached_to = codes "t2";
  source_head = none;
  absorbed_commits = some (codes "s4" ∷ []);
  absorbed_changes = none;
  change_id = none;
}

abbrev amendment : CausalRecord
amendment = record {
  id = some (codes "a1");
  schema = some (codes "urn:jhcp:causal-metadata:1");
  type = codes "amendment";
  attached_to = codes "t2";
  source_head = none;
  absorbed_commits = none;
  absorbed_changes = none;
  change_id = some (codes "chg_b");
}

abbrev amended_repository : Repository
amended_repository = record repository {
  catalog = record { records = receipt ∷ amendment ∷ []; conflicting_ids = [] };
}

abbrev causal : CausalPlan
causal =
    planned_on text_le amended_repository (codes "HE") (codes "s6") (codes "s0") (codes "HE")
      (codes "s6")

causal-is_planned :
    build_merge_plan_between amended_repository (codes "HEAD") (codes "s6") none ≡ ok causal
unfolding build_merge_plan_between
causal-is_planned = refl

coverage_evidence-Shows_example : IsShown text_le amended_repository (codes "s6") causal
coverage_evidence-Shows_example =
    coverage_evidence-Shows text_le amended_repository (codes "s6") causal causal-is_planned

abbrev evidence : CoverageEvidence
evidence = evidence_for text_le amended_repository causal.input

-- The planner leaves the amended `s2` to a person; the rules find it covered.
amended_disagrees :
    (map (λ c. c.status) causal.plan.changes
      ≡ new ∷ candidate_equivalent ∷ new ∷ covered ∷ new ∷ candidate_equivalent ∷ [])
    × (map (λ c. c.proof) causal.plan.changes
        ≡ none
          ∷ some amended_change_id
          ∷ none
          ∷ some receipt_commit
          ∷ none
          ∷ some git_patch_id_heuristic
          ∷ [])
    × (map (λ c. (rederived evidence c).status) causal.plan.changes
        ≡ new ∷ covered ∷ new ∷ covered ∷ new ∷ candidate_equivalent ∷ [])
    × (map (λ c. (rederived evidence c).proof) causal.plan.changes
        ≡ none
          ∷ some stable_change_id
          ∷ none
          ∷ some receipt_commit
          ∷ none
          ∷ some git_patch_id_heuristic
          ∷ [])
unfolding build_merge_plan_between classify_from_evidence index_evidence evidence_of classify
    contains ◌==◌ add_all accepted_causal_records extract_change_id text_lt lookup flat_map sort_by
amended_disagrees = (refl, refl, refl, refl)

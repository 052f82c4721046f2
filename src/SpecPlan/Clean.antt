-- ===== src/SpecPlan/Clean.antt =====
-- Proofs about when a plan of src/specs.js is clean.
use vcs_lab.Prelude.{
  ◌≡◌, refl, ap, ◌∙◌, Bool, true, false, not, ◌&&◌, List, [], ◌∷◌, ◌++◌, map, arith, Text, all,
  all-ext, to_set, lookup, is_some,
}
use vcs_lab.MergePlan.{truthy}
use vcs_lab.SpecMerge.{Stage, Outcome, conflict, Decision}
use vcs_lab.SpecMerge.Decide.{is_conflict, settled, content_decision-merge3}
use vcs_lab.SpecOrder.{OrderConflict}
use vcs_lab.SpecPlan.{
  order_issue, SpecPlan, outcome_conflicts, block_conflicts, is_nil, base_by_id, ours_by_id,
  theirs_by_id, all_ids, plan_document, plan_artifacts, plan_spec_merge,
}
use vcs_lab.SpecPlan.Correct.{decision, merged_content, decisions, document_order}

is_nil-append {ℓ} : {A : Type ℓ} (xs ys : List A) → is_nil (xs ++ ys) ≡ (is_nil xs && is_nil ys)
is_nil-append [] ys = refl
is_nil-append (x ∷ xs) ys = refl

is_nil-map-order_issue : (cs : List OrderConflict) → is_nil (map order_issue cs) ≡ is_nil cs
is_nil-map-order_issue [] = refl
is_nil-map-order_issue (c ∷ cs) = refl

is_nil-outcome_conflicts :
    (id : Text) (o : Outcome) → is_nil (outcome_conflicts id o) ≡ not (is_conflict o)
unfolding outcome_conflicts
is_nil-outcome_conflicts id (conflict c) = refl
is_nil-outcome_conflicts id _ = refl

is_nil-block_conflicts :
    (f : Text → Decision) (ids : List Text)
    → is_nil (block_conflicts (map f ids)) ≡ all (λ id. not (is_conflict (f id).outcome)) ids
unfolding block_conflicts
is_nil-block_conflicts f [] = refl
is_nil-block_conflicts f (x ∷ xs) = ground (
  arith,
  is_nil-append (outcome_conflicts (f x).id (f x).outcome) (block_conflicts (map f xs)),
  is_nil-outcome_conflicts (f x).id (f x).outcome,
  is_nil-block_conflicts f xs,
)

settles : (d : Decision) → not (is_conflict d.outcome) ≡ is_some (settled (d.outcome, d.block))
settles d = ground arith

abbrev pub is_single {ℓ} : {A : Type ℓ} → List A → Bool
is_single (x ∷ []) = true
is_single _ = false

module _ (base ours theirs : Stage) where
  -- No block of the document has a conflict in the three-way merge of its contents.
  abbrev pub merges_all : Bool
  merges_all = all (λ id. is_some (merged_content base ours theirs id)) (all_ids base ours theirs)

  -- The identities that the stages name, each once.
  abbrev pub artifacts : List Text
  artifacts = to_set (truthy (base.artifact_id ∷ ours.artifact_id ∷ theirs.artifact_id ∷ []))

  decision-settles :
      (id : Text)
      → not (is_conflict (decision base ours theirs id).outcome)
        ≡ is_some (merged_content base ours theirs id)
  decision-settles id =
      settles (decision base ours theirs id)
      ∙ ap is_some
          (content_decision-merge3 id (lookup (base_by_id base ours theirs) id)
            (lookup (ours_by_id base ours theirs) id) (lookup (theirs_by_id base ours theirs) id)).1

  no_block_conflict : is_nil (block_conflicts (decisions base ours theirs)) ≡ merges_all
  no_block_conflict =
      is_nil-block_conflicts (decision base ours theirs) (all_ids base ours theirs)
      ∙ all-ext _ _ (all_ids base ours theirs) decision-settles

  abbrev ResultAgrees : Bool → SpecPlan → Type 0
  ResultAgrees single p =
      (is_some p.result ≡ p.clean)
      × (p.clean ≡ (single && merges_all && is_nil (document_order base ours theirs).conflicts))

  document-ResultAgrees :
      (artifact : Text) → ResultAgrees true (plan_document base ours theirs artifact)
  unfolding plan_document
  document-ResultAgrees artifact =
      let found = document_order base ours theirs in
      (
        ground arith,
        is_nil-append (block_conflicts (decisions base ours theirs))
              (map order_issue found.conflicts)
            ∙ ap (◌&&◌ (is_nil (block_conflicts (decisions base ours theirs))))
                (is_nil-map-order_issue found.conflicts)
            ∙ ap (λ (b : Bool). b && is_nil found.conflicts) no_block_conflict,
      )

  artifacts-ResultAgrees :
      (found : List Text) → ResultAgrees (is_single found) (plan_artifacts base ours theirs found)
  unfolding plan_artifacts
  artifacts-ResultAgrees [] = (refl, refl)
  artifacts-ResultAgrees (a ∷ []) = document-ResultAgrees a
  artifacts-ResultAgrees (a ∷ b ∷ rest) = (refl, refl)

  -- A plan for a document has a result exactly when it is clean; and it is clean exactly when the
  -- stages name one identity between them, the three-way merge of the contents of every block of a
  -- stage is no conflict, and the merge of the three orders has no conflict.
  pub result_iff_merges :
      let plan = plan_spec_merge base ours theirs in
      (is_some plan.result ≡ plan.clean)
      × (plan.clean ≡ (
          is_single artifacts && merges_all && is_nil (document_order base ours theirs).conflicts))
  unfolding plan_spec_merge
  result_iff_merges = artifacts-ResultAgrees artifacts

-- ===== src/Evidence/Derived.antt =====
-- Proofs about src/proof-bundle.js and src/merge-plan.js: the rules of a verifier, applied to the evidence
-- of a bundle, give what the planner classified.
use vcs_lab.Prelude.{
  ◌≡◌, refl, sym, ◌∙◌, Bool, false, not, none, List, [], ◌∷◌, ◌++◌, map, arith, Text, codes,
  contains, contains-append, contains-to_set, contains-sort_texts, sort_texts, any-sort_by, any-map,
  any-ext, get_or_else, to_set, filter, any, All, Bool-cases, inl, inr,
}
use mathlib.Core.List.{flat_map}
use mathlib.Core.Path.{subst}
use vcs_lab.Errors.{ok, bind-eq-ok, ok-injective}
use vcs_lab.MergePlan.{
  HistoryItem, Change, DirectCoverage, ReceiptCoverage, PlanInput, classify, plan_change,
  plan_changes, classify_item, direct_change_coverage, receipt_coverage, build_merge_plan,
}
use vcs_lab.MergePlan.Coverage.{
  amended, contains-absorb_commits, contains-absorb_changes, contains-amended,
}
use vcs_lab.RebaseRange.{CausalPlan, build_merge_plan_between, peel}
use vcs_lab.Repository.{Repository}
use vcs_lab.Evidence.{CoverageEvidence, receipt_evidence, evidence_of, coverage_evidence, id_text}
use vcs_lab.Evidence.Rules.{index_evidence, Classified, classify_from_evidence}

contains-flat_map :
    {A : Type 0} (f : A → List Text) (xs : List A) (a : Text)
    → contains (flat_map f xs) a ≡ any (λ x. contains (f x) a) xs
unfolding flat_map contains
contains-flat_map f [] a = refl
contains-flat_map f (x ∷ xs) a =
    ground (arith, contains-append (f x) (flat_map f xs) a, contains-flat_map f xs a)

-- What a verifier derives for a change of the plan.
abbrev pub rederived : CoverageEvidence → Change → Classified
rederived e c =
    classify_from_evidence (record { commit = c.commit; change_id = c.change_id })
      (index_evidence e)

abbrev pub IsRederived : CoverageEvidence → Change → Type 0
IsRederived e c = ((rederived e c).status ≡ c.status) × ((rederived e c).proof ≡ c.proof)

module _ (locale_le : Text → Text → Bool) (direct : DirectCoverage) (receipt : ReceiptCoverage)
    (candidates : List Text) where
  abbrev shown : CoverageEvidence
  shown = evidence_of locale_le direct receipt candidates

  contains-receipt_commits :
      (a : Text)
      → contains (index_evidence shown).receipt_commits a
        ≡ any (λ r. contains (get_or_else r.absorbed_commits []) a) receipt.receipts
  unfolding index_evidence evidence_of receipt_evidence
  contains-receipt_commits a =
      contains-to_set (flat_map (λ r. r.absorbed_commits) shown.receipts) a
      ∙ contains-flat_map (λ r. r.absorbed_commits) shown.receipts a
      ∙ any-sort_by (λ x y. locale_le (id_text x.id) (id_text y.id))
          (λ r. contains r.absorbed_commits a) (map receipt_evidence receipt.receipts)
      ∙ any-map (λ r. contains r.absorbed_commits a) receipt_evidence receipt.receipts
      ∙ any-ext _ _ receipt.receipts
          (λ r. contains-sort_texts (get_or_else r.absorbed_commits []) a)

  contains-receipt_change_ids :
      (a : Text)
      → contains (index_evidence shown).receipt_change_ids a
        ≡ any (λ r. contains (get_or_else r.absorbed_changes []) a) receipt.receipts
  unfolding index_evidence evidence_of receipt_evidence
  contains-receipt_change_ids a =
      contains-to_set (flat_map (λ r. r.absorbed_changes) shown.receipts) a
      ∙ contains-flat_map (λ r. r.absorbed_changes) shown.receipts a
      ∙ any-sort_by (λ x y. locale_le (id_text x.id) (id_text y.id))
          (λ r. contains r.absorbed_changes a) (map receipt_evidence receipt.receipts)
      ∙ any-map (λ r. contains r.absorbed_changes a) receipt_evidence receipt.receipts
      ∙ any-ext _ _ receipt.receipts
          (λ r. contains-sort_texts (get_or_else r.absorbed_changes []) a)

  contains-sorted_set :
      (xs : List Text) (a : Text) → contains (to_set (sort_texts xs)) a ≡ contains xs a
  contains-sorted_set xs a = contains-to_set (sort_texts xs) a ∙ contains-sort_texts xs a

  -- The rules decide as the planner does where its set of amended identities has no say.
  plan_change-IsRederived :
      (item : HistoryItem)
      → ((a : Text)
          → contains receipt.commits a
            ≡ any (λ r. contains (get_or_else r.absorbed_commits []) a) receipt.receipts)
      → ((a : Text)
          → contains receipt.change_ids a
            ≡ any (λ r. contains (get_or_else r.absorbed_changes []) a) receipt.receipts)
      → contains receipt.amended (plan_change direct receipt candidates item).change_id ≡ false
      → IsRederived shown (plan_change direct receipt candidates item)
  unfolding plan_change classify classify_from_evidence index_evidence evidence_of
  plan_change-IsRederived item commits ids plain =
      let id = (plan_change direct receipt candidates item).change_id in
      ground (
        arith,
        commits item.commit,
        ids id,
        plain,
        contains-receipt_commits item.commit,
        contains-receipt_change_ids id,
        contains-sorted_set direct.commits item.commit,
        contains-sorted_set direct.change_ids id,
        contains-sorted_set candidates item.commit,
      )

module _ (locale_le : Text → Text → Bool) (repository : Repository) where
  -- Whether an accepted amendment attached to the target's history names the identity of a change.
  abbrev pub is_amended : PlanInput → Change → Bool
  is_amended input c =
      amended repository.structurally_valid repository.references_exist input c.change_id

  -- The evidence of a planner's input.
  abbrev pub evidence_for : PlanInput → CoverageEvidence
  evidence_for input =
      let direct = direct_change_coverage input.history in
      evidence_of locale_le direct
        (receipt_coverage repository.structurally_valid repository.references_exist direct.commits
          input.catalog)
        (to_set input.candidates)

  classify_item-IsRederived :
      (input : PlanInput) (item : HistoryItem)
      → let c =
          classify_item repository.structurally_valid repository.references_exist input item in
        is_amended input c ≡ false → IsRederived (evidence_for input) c
  unfolding classify_item receipt_coverage contains
  classify_item-IsRederived input item plain =
      let direct = direct_change_coverage input.history in
      let sv = repository.structurally_valid in
      let re = repository.references_exist in
      let receipt = receipt_coverage sv re direct.commits input.catalog in
      plan_change-IsRederived locale_le direct receipt (to_set input.candidates) item
        (contains-absorb_commits [] receipt.receipts) (contains-absorb_changes [] receipt.receipts)
        (contains-amended sv re input (classify_item sv re input item).change_id ∙ plain)

  items-IsRederived :
      (input : PlanInput) (items : List HistoryItem)
      → All (IsRederived (evidence_for input)) (
          filter
            (λ c. not (is_amended input c))
            (map
              (classify_item repository.structurally_valid repository.references_exist input)
              items))
  items-IsRederived input [] = tt
  items-IsRederived input (item ∷ items) =
      let sv = repository.structurally_valid in
      let re = repository.references_exist in
      elim (Bool-cases (is_amended input (classify_item sv re input item))) [
        | inl named ↦ rw named (items-IsRederived input items)
        | inr plain ↦
            rw plain (classify_item-IsRederived input item plain, items-IsRederived input items)
      ]

  -- What the evidence of a source shows of the planner's plan for it.
  abbrev pub Shows : CoverageEvidence → CausalPlan → Type 0
  Shows e causal =
      All (IsRederived e) (filter (λ c. not (is_amended causal.input c)) causal.plan.changes)
      × (e.quarantined_facts ≡ causal.plan.quarantined_facts)

  evidence-Shows :
      (causal : CausalPlan)
      → causal.plan
        ≡ build_merge_plan repository.is_ancestor repository.structurally_valid
            repository.references_exist causal.input
      → Shows (evidence_for causal.input) causal
  unfolding build_merge_plan plan_changes evidence_of
  evidence-Shows causal made =
      subst
        (λ p.
          All (IsRederived (evidence_for causal.input))
            (filter (λ c. not (is_amended causal.input c)) p.changes)
          × ((evidence_for causal.input).quarantined_facts ≡ p.quarantined_facts))
        (sym made) (items-IsRederived causal.input causal.input.source_history, refl)

  coverage_evidence_lem :
      (source target_head source_head physical_base : Text)
      → repository.resolve (peel (codes "HEAD")) ≡ ok target_head
      → repository.resolve (peel source) ≡ ok source_head
      → repository.merge_base target_head source_head ≡ ok physical_base
      → let direct = direct_change_coverage (repository.history target_head) in
        coverage_evidence locale_le repository source
        ≡ ok (
            evidence_of locale_le direct
              (receipt_coverage repository.structurally_valid repository.references_exist
                direct.commits repository.catalog)
              (to_set (repository.patch_equivalent target_head source_head physical_base)))
  unfolding coverage_evidence
  coverage_evidence_lem source t s b e1 e2 e3 = rw (e1, e2, e3) refl

  -- The plan that the planner makes of what it resolved.
  abbrev pub planned_on : Text → Text → Text → Text → Text → CausalPlan
  planned_on target_head source_head physical_base target_tree source_tree =
      let input : PlanInput = record {
        history = repository.history target_head;
        source_history = repository.range_history physical_base source_head;
        candidates = repository.patch_equivalent target_head source_head physical_base;
        catalog = repository.catalog;
        physical_base = physical_base;
        source_head = source_head;
        target_tree = target_tree;
        source_tree = source_tree;
      } in
      record {
        target_head = target_head;
        range_base = physical_base;
        input = input;
        plan =
            build_merge_plan repository.is_ancestor repository.structurally_valid
              repository.references_exist input;
      }

  -- The evidence is there and shows the plan.
  abbrev pub IsShown : Text → CausalPlan → Type 0
  IsShown source causal =
      (e : CoverageEvidence) × (coverage_evidence locale_le repository source ≡ ok e)
      × Shows e causal

  -- Where the planner has a plan for a source against `HEAD`, the evidence of that source is there;
  -- the rules of a verifier, applied to it, give the status and the proof of every change of the plan
  -- whose identity no accepted amendment attached to the target's history names; and it lists the
  -- quarantined facts of the plan.
  pub coverage_evidence-Shows :
      (source : Text) (causal : CausalPlan)
      → build_merge_plan_between repository (codes "HEAD") source none ≡ ok causal
      → IsShown source causal
  unfolding build_merge_plan_between
  coverage_evidence-Shows source causal h =
      let (target_head, e1, h1) = bind-eq-ok (repository.resolve (peel (codes "HEAD"))) _ h in
      let (source_head, e2, h2) = bind-eq-ok (repository.resolve (peel source)) _ h1 in
      let (physical_base, e3, h3) =
        bind-eq-ok (repository.merge_base target_head source_head) _ h2 in
      let (target_tree, e4, h4) =
        bind-eq-ok (repository.resolve (target_head ++ codes "^{tree}")) _ h3 in
      let (source_tree, e5, h5) =
        bind-eq-ok (repository.resolve (source_head ++ codes "^{tree}")) _ h4 in
      let made = planned_on target_head source_head physical_base target_tree source_tree in
      subst (IsShown source) (ok-injective h5) (
        evidence_for made.input,
        coverage_evidence_lem source target_head source_head physical_base e1 e2 e3,
        evidence-Shows made refl,
      )

-- ===== src/MergePlan/Examples.antt =====
-- Runs of the planner of src/merge-plan.js.
use vcs_lab.Trailers.{extract_change_id}
use vcs_lab.Prelude.{
  false, insert, lookup, ◌≡◌, refl, ◌+◌, Bool, true, false, ◌||◌, none, some, List, [], ◌∷◌, map,
  Text, codes, ◌==◌, text_le, text_le_refl, text_le_trans, IsSorted, ◌&&◌, length, any, String,
  contains, add_all, text_lt,
}
use vcs_lab.Records.Conflicts.{has_id}
use vcs_lab.Records.{CausalRecord, catalog_of, is_conflicting, accepted_causal_records}
use vcs_lab.MergePlan.{
  HistoryItem, covered, candidate_equivalent, new, PlanInput, MergePlan, classify_item,
  build_merge_plan, classify,
}
use vcs_lab.EffectiveBase.{choose_effective_base}
use vcs_lab.MergePlan.Coverage.{covered_iff_evidence, is_covered, exact_evidence, in_history}
use vcs_lab.MergePlan.Counts.{counts_exact, with_status, is_candidate, is_new}
use vcs_lab.MergePlan.Quarantine.{
  conflicted_record_is_inert, quarantined_facts_exact, conclusions, with_records,
}
use vcs_lab.EffectiveBase.Maximal.{
  effective_base_maximal, effective_base_offered, strictly_later, offers,
}

abbrev commit_of : String → String → HistoryItem
commit_of commit message = record {
  commit = codes commit;
  message = codes message;
  subject = codes message;
  changed_paths = none;
}

abbrev receipt_of : String → String → String → CausalRecord
receipt_of id commit change = record {
  id = some (codes id);
  schema = some (codes "urn:jhcp:causal-metadata:1");
  type = codes "landing";
  attached_to = codes "t2";
  source_head = some (codes "s1");
  absorbed_commits = some (codes commit ∷ []);
  absorbed_changes = some (codes change ∷ []);
  change_id = none;
}

abbrev amendment_of : String → String → CausalRecord
amendment_of id change = record {
  id = some (codes id);
  schema = some (codes "urn:jhcp:causal-metadata:1");
  type = codes "amendment";
  attached_to = codes "t2";
  source_head = none;
  absorbed_commits = none;
  absorbed_changes = none;
  change_id = some (codes change);
}

-- A history is one line here, in the order of the names.
abbrev is_ancestor : Text → Text → Bool
is_ancestor = text_le

abbrev input : PlanInput
input = record {
  history = commit_of "t1" "base" ∷ commit_of "t2" "two\n\nChange-Id: chg_b" ∷ [];
  source_history =
      commit_of "t1" "base"
      ∷ commit_of "s1" "one"
      ∷ commit_of "s2" "two again\n\nchange-id:  chg_b  "
      ∷ commit_of "s3" "three\n\nChange-Id: chg_c"
      ∷ commit_of "s4" "four\n\nChange-Id: chg_d"
      ∷ commit_of "s5" "five"
      ∷ commit_of "s6" "six"
      ∷ [];
  candidates = codes "s5" ∷ [];
  catalog = record {
    records =
        receipt_of "l1" "s1" "chg_c"
        ∷ receipt_of "l2" "s6" "chg_d"
        ∷ amendment_of "a1" "chg_c"
        ∷ [];
    conflicting_ids = codes "l2" ∷ [];
  };
  physical_base = codes "s0";
  source_head = codes "s6";
  target_tree = codes "x";
  source_tree = codes "y";
}

abbrev plan : MergePlan
plan = build_merge_plan is_ancestor (λ r. true) (λ r. true) input

plan-statuses :
    map (λ c. c.status) plan.changes
    ≡ covered ∷ covered ∷ covered ∷ candidate_equivalent ∷ new ∷ candidate_equivalent ∷ new ∷ []
unfolding build_merge_plan classify contains add_all ◌==◌ accepted_causal_records extract_change_id
plan-statuses = refl

plan-facts :
    (plan.reachable_receipts ≡ some (codes "l1") ∷ [])
    × (plan.quarantined_facts ≡ codes "l2" ∷ [])
    × (plan.effective_base.commit ≡ codes "s1")
unfolding build_merge_plan add_all accepted_causal_records ◌==◌ text_lt
plan-facts = (refl, refl, refl)

covered_iff_evidence_example :
    is_covered
      (classify_item
        (λ r. true)
        (λ r. true)
        input
        (commit_of "s3" "three\n\nChange-Id: chg_c")).status
    ≡ exact_evidence (λ r. true) (λ r. true) input (commit_of "s3" "three\n\nChange-Id: chg_c")
covered_iff_evidence_example =
    covered_iff_evidence (λ r. true) (λ r. true) input (commit_of "s3" "three\n\nChange-Id: chg_c")

-- A parked identifier, and one that two other records carry.
abbrev others : List CausalRecord
others =
    receipt_of "l1" "s1" "chg_c"
    ∷ receipt_of "l3" "s5" "chg_e"
    ∷ receipt_of "l3" "s4" "chg_d"
    ∷ amendment_of "a1" "chg_c"
    ∷ []

conflicting-others :
    (is_conflicting
        (catalog_of others (codes "l2" ∷ [])).conflicting_ids
        (receipt_of "l2" "s6" "chg_d")
      ≡ true)
    × (is_conflicting (catalog_of others []).conflicting_ids (receipt_of "l3" "s6" "chg_d") ≡ true)
    × (is_conflicting (catalog_of others []).conflicting_ids (receipt_of "l1" "s6" "chg_d") ≡ false)
unfolding is_conflicting catalog_of contains ◌==◌ add_all insert lookup
conflicting-others = (refl, refl, refl)

conflicted_record_is_inert_example :
    conclusions (
      build_merge_plan is_ancestor
        (λ r. true)
        (λ r. true)
        (with_records input (receipt_of "l3" "s6" "chg_d" ∷ others) []))
    ≡ conclusions
        (build_merge_plan is_ancestor (λ r. true) (λ r. true) (with_records input others []))
conflicted_record_is_inert_example =
    conflicted_record_is_inert is_ancestor (λ r. true) (λ r. true) input [] others
      (receipt_of "l3" "s6" "chg_d") [] conflicting-others.1

counts_exact_example :
    (plan.counts.covered_count ≡ with_status is_covered plan.changes)
    × (plan.counts.candidate_count ≡ with_status is_candidate plan.changes)
    × (plan.counts.new_count ≡ with_status is_new plan.changes)
    × (plan.counts.covered_count + plan.counts.candidate_count + plan.counts.new_count
        ≡ length input.source_history)
counts_exact_example = counts_exact is_ancestor (λ r. true) (λ r. true) input

abbrev receipts : List CausalRecord
receipts = input.catalog.records

effective_base_maximal_example :
    let base = (choose_effective_base is_ancestor (codes "s0") receipts (codes "s6")).commit in
    (is_ancestor (codes "s0") base ≡ true)
    × (is_ancestor base (codes "s6") ≡ true)
    × (any (strictly_later is_ancestor (codes "s6") base) receipts ≡ false)
unfolding text_lt
effective_base_maximal_example =
    effective_base_maximal is_ancestor text_le_refl text_le_trans (codes "s6") (codes "s0") receipts
      refl

effective_base_offered_example :
    let base = (choose_effective_base is_ancestor (codes "s0") receipts (codes "s6")).commit in
    (base == codes "s0" || any (offers is_ancestor (codes "s6") base) receipts) ≡ true
effective_base_offered_example =
    effective_base_offered is_ancestor (codes "s6") (codes "s0") receipts

quarantined_facts_exact_example :
    IsSorted text_le plan.quarantined_facts
    × ((id : Text)
        → contains plan.quarantined_facts id ≡ (
            contains (codes "l2" ∷ []) id
            && any (λ r. in_history input r.attached_to && has_id id r) receipts))
quarantined_facts_exact_example = quarantined_facts_exact is_ancestor (λ r. true) (λ r. true) input

-- A trailer line without a value takes the line after it for the identity.
empty_trailer :
    extract_change_id (codes "c1") (codes "x\n\nChange-Id:\nSigned-off-by: A")
    ≡ codes "Signed-off-by: A"
unfolding extract_change_id
empty_trailer = refl

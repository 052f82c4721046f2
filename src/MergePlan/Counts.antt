-- ===== src/MergePlan/Counts.antt =====
-- Proofs about the counts of src/merge-plan.js.
use vcs_lab.Prelude.{
  ℕ, ◌+◌, ◌≡◌, Bool, true, false, List, [], ◌∷◌, arith, Text, length, count_if, length-map,
}
use vcs_lab.Records.{CausalRecord}
use vcs_lab.MergePlan.{
  Status, candidate_equivalent, new, Change, StatusCounts, count_status, count_changes, PlanInput,
  plan_changes, build_merge_plan, classify_item,
}
use vcs_lab.MergePlan.Coverage.{is_covered}

abbrev pub is_candidate : Status → Bool
is_candidate candidate_equivalent = true
is_candidate _ = false

abbrev pub is_new : Status → Bool
is_new new = true
is_new _ = false

-- How many changes have a status.
abbrev pub with_status : (Status → Bool) → List Change → ℕ
with_status p = count_if (λ c. p c.status)

pub count_changes_lem :
    (c : StatusCounts) (xs : List Change)
    → (count_changes c xs).covered_count ≡ c.covered_count + with_status is_covered xs
      × (count_changes c xs).candidate_count ≡ c.candidate_count + with_status is_candidate xs
      × (count_changes c xs).new_count ≡ c.new_count + with_status is_new xs
unfolding count_changes
count_changes_lem c [] = omega arith
count_changes_lem c (x ∷ xs) = ground (arith, count_changes_lem (count_status c x.status) xs)

statuses_partition :
    (xs : List Change)
    → with_status is_covered xs + with_status is_candidate xs + with_status is_new xs ≡ length xs
statuses_partition [] = omega arith
statuses_partition (x ∷ xs) = ground (arith, statuses_partition xs)

-- Each count of a plan is the number of its changes with that status, and together they count every
-- queued source change once.
pub counts_exact :
    (is_ancestor : Text → Text → Bool) (structurally_valid references_exist : CausalRecord → Bool)
    (input : PlanInput)
    → let plan = build_merge_plan is_ancestor structurally_valid references_exist input in
      (plan.counts.covered_count ≡ with_status is_covered plan.changes)
      × (plan.counts.candidate_count ≡ with_status is_candidate plan.changes)
      × (plan.counts.new_count ≡ with_status is_new plan.changes)
      × (plan.counts.covered_count + plan.counts.candidate_count + plan.counts.new_count
          ≡ length input.source_history)
unfolding build_merge_plan
counts_exact is_ancestor sv re input =
    let changes = plan_changes sv re input in
    let zeros : StatusCounts = record { covered_count = 0; candidate_count = 0; new_count = 0 } in
    let lem = count_changes_lem zeros changes in
    let total = length-map (classify_item sv re input) input.source_history in
    omega (arith, lem, statuses_partition changes, total)

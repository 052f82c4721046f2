-- ===== src/MergePlanText.antt =====
-- `formatMergePlan` of src/merge-plan.js: a plan as text.
pub mod Examples
use vcs_lab.Prelude.{
  ℕ, zero, suc, ◌+◌, Bool, true, false, not, ◌&&◌, Option, none, some, List, [], ◌∷◌, ◌++◌, map,
  if◌then◌else◌, ltb, eqb, Text, codes, take, length,
}
use vcs_lab.EffectiveBase.{BaseReason, physical_ancestry, causal_receipt}
use vcs_lab.MergePlan.{
  Status, covered, candidate_equivalent, new, Proof, commit_ancestry, receipt_commit,
  stable_change_id, receipt_change_id, amended_change_id, git_patch_id_heuristic, Change,
}
use vcs_lab.RebaseRange.{CausalPlan}
use vcs_lab.Trailers.{join_lines}

-- A number in decimal: the digit is counted up, with a carry.
unfoldable increment : Text → Text
increment [] = b'1' ∷ []
increment (d ∷ ds) = let carry = increment ds in if eqb d b'9' then b'0' ∷ carry else (d + 1) ∷ ds

-- The digits of a number, the last one first.
unfoldable digits : ℕ → Text
unfolding increment
digits zero = b'0' ∷ []
digits (suc n) = increment (digits n)

unfoldable backwards : Text → Text → Text
backwards done [] = done
backwards done (c ∷ cs) = backwards (c ∷ done) cs

-- `${n}`.
unfoldable pub show_number : ℕ → Text
unfolding digits backwards
show_number n = backwards [] (digits n)

unfoldable show_proof : Proof → Text
show_proof commit_ancestry = codes "commit-ancestry"
show_proof receipt_commit = codes "receipt-commit"
show_proof stable_change_id = codes "stable-change-id"
show_proof receipt_change_id = codes "receipt-change-id"
show_proof amended_change_id = codes "amended-change-id"
show_proof git_patch_id_heuristic = codes "git-patch-id-heuristic"

-- `change.proof ? ... : ""`.
unfoldable pub proof_suffix : Option Proof → Text
unfolding show_proof
proof_suffix none = []
proof_suffix (some p) = codes " [" ++ (show_proof p ++ codes "]")

unfoldable pub show_reason : BaseReason → Text
show_reason physical_ancestry = codes "physical-ancestry"
show_reason (causal_receipt none) = codes "causal-receipt:undefined"
show_reason (causal_receipt (some id)) = codes "causal-receipt:" ++ id

unfoldable marker : Status → Text
marker covered = codes "="
marker candidate_equivalent = codes "?"
marker new = codes "+"

unfoldable change_line : Change → Text
unfolding marker proof_suffix
change_line c =
    marker c.status
    ++ codes " "
    ++ c.short_commit
    ++ codes " "
    ++ c.change_id
    ++ codes " "
    ++ c.subject
    ++ proof_suffix c.proof

unfoldable change_lines : List Change → List Text
unfolding change_line
change_lines [] = codes "No source changes are outside the physical ancestry." ∷ []
change_lines (c ∷ cs) = map change_line (c ∷ cs)

-- `ids.join(", ")`.
unfoldable pub join_ids : List Text → Text
join_ids [] = []
join_ids (id ∷ []) = id
join_ids (id ∷ other ∷ rest) = id ++ codes ", " ++ join_ids (other ∷ rest)

unfoldable quarantine_lines : List Text → List Text
unfolding join_ids show_number
quarantine_lines [] = []
quarantine_lines (id ∷ ids) =
    (codes "quarantined  "
      ++ show_number (length (id ∷ ids))
      ++ codes " reachable fact"
      ++ (if eqb (length (id ∷ ids)) 1 then [] else codes "s")
      ++ codes " excluded: "
      ++ join_ids (id ∷ ids))
    ∷ codes "Coverage was computed on reduced evidence; resolve with cst metadata dispose."
    ∷ []

-- `formatMergePlan`, of a plan with the reference that it was asked for.
unfoldable format_merge_plan : Text → CausalPlan → Text
unfolding show_reason change_lines quarantine_lines show_number join_lines
format_merge_plan source_ref causal =
    let plan = causal.plan in
    let counts = plan.counts in
    join_lines (
      (codes "target       " ++ take 12 causal.target_head)
      ∷ (codes "source       "
          ++ source_ref
          ++ codes " ("
          ++ take 12 causal.input.source_head
          ++ codes ")")
      ∷ (codes "physical base " ++ take 12 causal.input.physical_base)
      ∷ (codes "effective base "
          ++ take 12 plan.effective_base.commit
          ++ codes " ("
          ++ show_reason plan.effective_base.reason
          ++ codes ")")
      ∷ (codes "same state   " ++ (if plan.exact_state_equality then codes "yes" else codes "no"))
      ∷ []
      ∷ (change_lines plan.changes
          ++ []
            ∷ (codes "summary      "
                ++ show_number counts.covered_count
                ++ codes " covered, "
                ++ show_number counts.candidate_count
                ++ codes " candidate, "
                ++ show_number counts.new_count
                ++ codes " new")
            ∷ (quarantine_lines plan.quarantined_facts
                ++ (if ltb 0 counts.candidate_count
                    then codes "Candidates are advisory and are never silently suppressed." ∷ []
                    else []))))

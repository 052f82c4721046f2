-- ===== src/Evidence/Rules.antt =====
-- The rules of src/proof-bundle.js, by which a verifier derives the classification of a change from the
-- evidence of a bundle (`PROOF_RULES`, `indexEvidence`, `classifyFromEvidence`).
use vcs_lab.Prelude.{
  Bool, Option, none, some, List, [], ◌∷◌, map, Text, contains, filter, to_set, if◌then◌else◌,
}
use mathlib.Core.List.{flat_map}
use vcs_lab.MergePlan.{
  Status, covered, candidate_equivalent, new, Proof, commit_ancestry, receipt_commit,
  stable_change_id, receipt_change_id, git_patch_id_heuristic,
}
use vcs_lab.Evidence.{ReceiptEvidence, CoverageEvidence}

-- What `indexEvidence` returns; the two filters of its receipts are functions of `receipts`.
pub record IndexedEvidence : Type 0 where
  pub target_commits : List Text
  pub target_change_ids : List Text
  pub receipt_commits : List Text
  pub receipt_change_ids : List Text
  pub patch_equivalent_commits : List Text
  pub receipts : List ReceiptEvidence

unfoldable pub index_evidence : CoverageEvidence → IndexedEvidence
unfolding flat_map
index_evidence evidence = record {
  target_commits = to_set evidence.target_commits;
  target_change_ids = to_set evidence.target_change_ids;
  receipt_commits = to_set (flat_map (λ r. r.absorbed_commits) evidence.receipts);
  receipt_change_ids = to_set (flat_map (λ r. r.absorbed_changes) evidence.receipts);
  patch_equivalent_commits = to_set evidence.patch_equivalent_commits;
  receipts = evidence.receipts;
}

unfoldable pub receipts_claiming_commit : IndexedEvidence → Text → List (Option Text)
receipts_claiming_commit evidence commit =
    map (λ r. r.id) (filter (λ r. contains r.absorbed_commits commit) evidence.receipts)

unfoldable pub receipts_claiming_change_id : IndexedEvidence → Text → List (Option Text)
receipts_claiming_change_id evidence change_id =
    map (λ r. r.id) (filter (λ r. contains r.absorbed_changes change_id) evidence.receipts)

-- What a rule reports of the evidence that decided it.
pub data Ground : Type 0 where
  no_evidence : Ground
  target_commit : Text → Ground
  receipt_absorbed_commit : Text → List (Option Text) → Ground
  target_change_id : Text → Ground
  receipt_absorbed_change_id : Text → List (Option Text) → Ground
  patch_equivalent : Text → Ground

-- A change as the bundle lists it, so far as the rules read it.
pub record ListedChange : Type 0 where
  pub commit : Text
  pub change_id : Text

pub record ProofRule : Type 0 where
  pub proof : Proof
  pub status : Status
  pub holds : ListedChange → IndexedEvidence → Bool
  pub describe : ListedChange → IndexedEvidence → Ground

-- `PROOF_RULES`, in their order.
unfoldable pub proof_rules : List ProofRule
unfolding receipts_claiming_commit receipts_claiming_change_id
proof_rules =
    record {
      proof = commit_ancestry;
      status = covered;
      holds = λ change evidence. contains evidence.target_commits change.commit;
      describe = λ change evidence. target_commit change.commit;
    }
    ∷ record {
      proof = receipt_commit;
      status = covered;
      holds = λ change evidence. contains evidence.receipt_commits change.commit;
      describe = λ change evidence.
          receipt_absorbed_commit change.commit (receipts_claiming_commit evidence change.commit);
    }
    ∷ record {
      proof = stable_change_id;
      status = covered;
      holds = λ change evidence. contains evidence.target_change_ids change.change_id;
      describe = λ change evidence. target_change_id change.change_id;
    }
    ∷ record {
      proof = receipt_change_id;
      status = covered;
      holds = λ change evidence. contains evidence.receipt_change_ids change.change_id;
      describe = λ change evidence.
          receipt_absorbed_change_id change.change_id
            (receipts_claiming_change_id evidence change.change_id);
    }
    ∷ record {
      proof = git_patch_id_heuristic;
      status = candidate_equivalent;
      holds = λ change evidence. contains evidence.patch_equivalent_commits change.commit;
      describe = λ change evidence. patch_equivalent change.commit;
    }
    ∷ []

pub record Classified : Type 0 where
  pub status : Status
  pub proof : Option Proof
  pub evidence : Ground

-- The loop of `classifyFromEvidence`: the first rule that holds decides.
unfoldable pub classify_by : List ProofRule → ListedChange → IndexedEvidence → Classified
classify_by [] change evidence = record { status = new; proof = none; evidence = no_evidence }
classify_by (rule ∷ rules) change evidence =
    let rest = classify_by rules change evidence in
    if rule.holds change evidence
    then record {
      status = rule.status;
      proof = some rule.proof;
      evidence = rule.describe change evidence;
    }
    else rest

unfoldable pub classify_from_evidence : ListedChange → IndexedEvidence → Classified
unfolding proof_rules classify_by
classify_from_evidence = classify_by proof_rules

-- ===== src/Evidence.antt =====
-- `coverageEvidence` of src/merge-plan.js: the sets that a classification rests on. The comparison of
-- identifiers by locale is a parameter.
pub mod Rules
pub mod Derived
pub mod Examples
use vcs_lab.Prelude.{
  Bool, Option, none, some, List, [], ◌∷◌, ◌++◌, map, Text, codes, get_or_else, sort_by, sort_texts,
  text_le, to_set,
}
use vcs_lab.Errors.{Result, ok, ◌>>=◌}
use vcs_lab.Records.{CausalRecord}
use vcs_lab.MergePlan.{DirectCoverage, direct_change_coverage, ReceiptCoverage, receipt_coverage}
use vcs_lab.RebaseRange.{peel}
use vcs_lab.Repository.{Repository}

pub record ReceiptEvidence : Type 0 where
  pub id : Option Text
  pub schema : Option Text
  pub type : Text
  pub attached_to : Text
  pub absorbed_commits : List Text
  pub absorbed_changes : List Text

pub record CoverageEvidence : Type 0 where
  pub target_commits : List Text
  pub target_change_ids : List Text
  pub receipts : List ReceiptEvidence
  pub patch_equivalent_commits : List Text
  pub quarantined_facts : List Text

-- The claims of a receipt, in ascending order.
unfoldable pub receipt_evidence : CausalRecord → ReceiptEvidence
unfolding sort_by
receipt_evidence r = record {
  id = r.id;
  schema = r.schema;
  type = r.type;
  attached_to = r.attached_to;
  absorbed_commits = sort_texts (get_or_else r.absorbed_commits []);
  absorbed_changes = sort_texts (get_or_else r.absorbed_changes []);
}

-- `String(id)`.
abbrev id_text : Option Text → Text
id_text none = codes "undefined"
id_text (some id) = id

module _ (locale_le : Text → Text → Bool) where
  unfoldable pub evidence_of : DirectCoverage → ReceiptCoverage → List Text → CoverageEvidence
  unfolding receipt_evidence sort_by
  evidence_of direct receipt candidates = record {
    target_commits = sort_texts direct.commits;
    target_change_ids = sort_texts direct.change_ids;
    receipts =
        sort_by (λ a b. locale_le (id_text a.id) (id_text b.id))
          (map receipt_evidence receipt.receipts);
    patch_equivalent_commits = sort_texts candidates;
    quarantined_facts = receipt.quarantined;
  }

  -- `coverageEvidence`, of a source against `HEAD`.
  unfoldable pub coverage_evidence : Repository → Text → Result CoverageEvidence
  unfolding evidence_of direct_change_coverage receipt_coverage
  coverage_evidence repository source = do
    target_head ← repository.resolve (peel (codes "HEAD"))
    source_head ← repository.resolve (peel source)
    physical_base ← repository.merge_base target_head source_head
    let direct = direct_change_coverage (repository.history target_head)
    ok (
        evidence_of direct
          (receipt_coverage repository.structurally_valid repository.references_exist direct.commits
            repository.catalog)
          (to_set (repository.patch_equivalent target_head source_head physical_base)))

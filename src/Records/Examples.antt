-- ===== src/Records/Examples.antt =====
-- Runs of the record catalog of src/metadata.js.
use vcs_lab.Prelude.{
  String, ◌≡◌, refl, true, none, some, List, [], ◌∷◌, ltb, codes, contains, count_if, insert, ◌==◌,
  lookup, add_all,
}
use vcs_lab.Records.{CausalRecord, duplicated_record_ids, catalog_of, accepted_causal_records}
use vcs_lab.Records.Conflicts.{duplicated_iff, has_id}

abbrev record_of : String → CausalRecord
record_of id = record {
  id = some (codes id);
  schema = some (codes "urn:jhcp:causal-metadata:1");
  type = codes "landing";
  attached_to = codes "c1";
  source_head = none;
  absorbed_commits = none;
  absorbed_changes = none;
  change_id = none;
}

abbrev records : List CausalRecord
records = record_of "l1" ∷ record_of "l2" ∷ record_of "l1" ∷ record_of "l3" ∷ []

duplicated-records : duplicated_record_ids records ≡ codes "l1" ∷ []
unfolding duplicated_record_ids insert ◌==◌ lookup
duplicated-records = refl

accepted-records :
    accepted_causal_records
      (λ r. true)
      (λ r. true)
      (catalog_of records (codes "l3" ∷ [])).conflicting_ids
      records
    ≡ record_of "l2" ∷ []
unfolding accepted_causal_records catalog_of contains add_all insert ◌==◌ lookup
accepted-records = refl

duplicated_iff_example :
    contains (duplicated_record_ids records) (codes "l1")
    ≡ ltb 1 (count_if (has_id (codes "l1")) records)
duplicated_iff_example = duplicated_iff records (codes "l1")

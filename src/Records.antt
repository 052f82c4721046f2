-- ===== src/Records.antt =====
-- src/metadata.js: which causal records of the notes tree count as facts (`duplicatedRecordIds`,
-- the conflicting identifiers of `readCausalRecordCatalog`, and `acceptedCausalRecords`).
-- The structural check of src/schemas.js and Git's object lookup are parameters.
pub mod Conflicts
pub mod Examples
use vcs_lab.Prelude.{
  ℕ, suc, ◌+◌, Bool, true, false, not, ◌&&◌, Option, none, some, List, [], ◌∷◌, ◌++◌, if◌then◌else◌,
  ltb, Text, contains, add, add_all, Dict, lookup, insert, get_or_else, filter,
}

-- The members of a note record that planning reads; `none` is an absent member.
pub record CausalRecord : Type 0 where
  pub id : Option Text
  pub schema : Option Text
  pub type : Text
  pub attached_to : Text
  pub source_head : Option Text
  pub absorbed_commits : Option (List Text)
  pub absorbed_changes : Option (List Text)
  pub change_id : Option Text

-- `counts.set(id, (counts.get(id) ?? 0) + 1)`.
unfoldable pub bump : Dict ℕ → Text → Dict ℕ
bump counts id = insert counts id (get_or_else (lookup counts id) 0 + 1)

-- One round of the loop: a record without an identifier is skipped.
unfoldable pub count_id : Dict ℕ → Option Text → Dict ℕ
unfolding bump
count_id counts none = counts
count_id counts (some id) = bump counts id

-- The loop of `duplicatedRecordIds`.
unfoldable pub count_ids : Dict ℕ → List CausalRecord → Dict ℕ
unfolding count_id
count_ids counts [] = counts
count_ids counts (r ∷ rs) = count_ids (count_id counts r.id) rs

-- The keys whose count is above one.
unfoldable pub repeated : Dict ℕ → List Text
repeated [] = []
repeated ((id, n) ∷ m) = let rest = repeated m in if ltb 1 n then id ∷ rest else rest

unfoldable pub duplicated_record_ids : List CausalRecord → List Text
unfolding count_ids repeated
duplicated_record_ids records = repeated (count_ids [] records)

-- `readCausalRecordCatalog`, over the records that it read and the parked identifiers.
pub record Catalog : Type 0 where
  pub records : List CausalRecord
  pub conflicting_ids : List Text

unfoldable pub catalog_of : List CausalRecord → List Text → Catalog
unfolding duplicated_record_ids
catalog_of records parked = record {
  records = records;
  conflicting_ids = add_all (add_all [] (duplicated_record_ids records)) parked;
}

-- `conflicting.has(record.id)`: an absent id is in no set.
unfoldable pub is_conflicting : List Text → CausalRecord → Bool
is_conflicting ids r = elim r.id [ none ↦ false | some id ↦ contains ids id ]

module _ (structurally_valid references_exist : CausalRecord → Bool) where
  -- `acceptedCausalRecords`.
  unfoldable pub accepted_causal_records : List Text → List CausalRecord → List CausalRecord
  unfolding is_conflicting
  accepted_causal_records conflicting records =
      filter references_exist
        (filter (λ r. not (is_conflicting conflicting r) && structurally_valid r) records)

-- ===== src/Records/Conflicts.antt =====
-- Proofs about src/metadata.js: the identifiers that `duplicatedRecordIds` reports, and what the
-- conflict rule excludes.
use vcs_lab.Prelude.{
  ◌∙◌, ap, ℕ, ◌+◌, ◌≡◌, refl, Bool, false, not, ◌&&◌, Option, none, some, List, [], ◌∷◌, ◌++◌,
  arith, if◌then◌else◌, ltb, Text, ◌==◌, ==_iff, contains, Dict, lookup, lookup-insert, keys,
  contains-keys, IsNodup, IsNodup-keys-insert, get_or_else, filter, filter-append, count_if,
}
use vcs_lab.Records.{
  CausalRecord, bump, count_id, count_ids, repeated, duplicated_record_ids, is_conflicting,
  accepted_causal_records,
}

-- Whether a record carries an identifier.
abbrev pub has_id : Text → CausalRecord → Bool
has_id id r = elim r.id [ none ↦ false | some other ↦ id == other ]

abbrev tally : Dict ℕ → Text → ℕ
tally counts id = get_or_else (lookup counts id) 0

tally-bump :
    (counts : Dict ℕ) (a id : Text)
    → tally (bump counts a) id ≡ tally counts id + (if id == a then 1 else 0)
unfolding bump
tally-bump counts a id =
    ground (arith, lookup-insert counts a id (tally counts a + 1), ==_iff a id, ==_iff id a)

tally-count_id :
    (counts : Dict ℕ) (o : Option Text) (id : Text)
    → tally (count_id counts o) id
      ≡ tally counts id + (if elim o [ none ↦ false | some other ↦ id == other ] then 1 else 0)
unfolding count_id
tally-count_id counts none id = omega arith
tally-count_id counts (some a) id = tally-bump counts a id

tally-count_ids :
    (records : List CausalRecord) (counts : Dict ℕ) (id : Text)
    → tally (count_ids counts records) id ≡ tally counts id + count_if (has_id id) records
unfolding count_ids
tally-count_ids [] counts id = omega arith
tally-count_ids (r ∷ rs) counts id =
    omega (arith, tally-count_ids rs (count_id counts r.id) id, tally-count_id counts r.id id)

contains-repeated :
    (m : Dict ℕ) (id : Text) → IsNodup (keys m) → contains (repeated m) id ≡ ltb 1 (tally m id)
unfolding repeated contains lookup keys
contains-repeated [] id n = refl
contains-repeated ((j, c) ∷ m) id n =
    ground (arith, contains-repeated m id n.1, contains-keys m id, ==_iff j id)

IsNodup-count_id :
    (counts : Dict ℕ) (o : Option Text) → IsNodup (keys counts) → IsNodup (keys (count_id counts o))
unfolding count_id bump
IsNodup-count_id counts none n = n
IsNodup-count_id counts (some a) n = IsNodup-keys-insert counts a _ n

IsNodup-count_ids :
    (records : List CausalRecord) (counts : Dict ℕ)
    → IsNodup (keys counts)
    → IsNodup (keys (count_ids counts records))
unfolding count_ids
IsNodup-count_ids [] counts n = n
IsNodup-count_ids (r ∷ rs) counts n =
    IsNodup-count_ids rs (count_id counts r.id) (IsNodup-count_id counts r.id n)

-- An identifier is reported as duplicated exactly when more than one record carries it.
pub duplicated_iff :
    (records : List CausalRecord) (id : Text)
    → contains (duplicated_record_ids records) id ≡ ltb 1 (count_if (has_id id) records)
unfolding duplicated_record_ids
duplicated_iff records id =
    contains-repeated (count_ids [] records) id (IsNodup-count_ids records [] (unfold keys in tt))
    ∙ ap (ltb 1) (tally-count_ids records [] id ∙ (unfold lookup in omega arith))

module _ (structurally_valid references_exist : CausalRecord → Bool) where
  abbrev accept : List Text → List CausalRecord → List CausalRecord
  accept = accepted_causal_records structurally_valid references_exist

  pub accepted-append :
      (ids : List Text) (xs ys : List CausalRecord)
      → accept ids (xs ++ ys) ≡ accept ids xs ++ accept ids ys
  unfolding accepted_causal_records
  accepted-append ids xs ys = simp filter-append

  -- Whether the rule accepts one record.
  abbrev pub is_accepted : List Text → CausalRecord → Bool
  is_accepted ids r = not (is_conflicting ids r) && structurally_valid r && references_exist r

  pub accepted-filter :
      (ids : List Text) (xs : List CausalRecord) → accept ids xs ≡ filter (is_accepted ids) xs
  unfolding accepted_causal_records
  accepted-filter ids [] = refl
  accepted-filter ids (r ∷ rs) = ground (arith, accepted-filter ids rs)

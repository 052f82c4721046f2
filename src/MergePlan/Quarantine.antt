-- ===== src/MergePlan/Quarantine.antt =====
-- Proofs about the conflict rule in src/merge-plan.js: a conflicted record proves nothing, and the
-- plan names it.
use vcs_lab.Prelude.{
  ◌≡◌, refl, ◌∙◌, Bool, true, ◌&&◌, List, [], ◌∷◌, ◌++◌, map, arith, Text, ◌==◌, contains,
  contains-to_set, contains-sort_texts, IsSorted, IsSorted-sort_by, text_le, text_lt_asymm, ==_iff,
  to_set, filter, any, add_all, contains-add_all, count_if, count_if-append, filter-ext, ltb, not,
  ◌||◌, any-filter, any-ext, ap, Bool-cases, Option-cases, inl, inr,
}
use vcs_lab.Records.{
  CausalRecord, catalog_of, duplicated_record_ids, accepted_causal_records, is_conflicting,
}
use vcs_lab.Records.Conflicts.{has_id, duplicated_iff}
use vcs_lab.MergePlan.{
  truthy, present, is_receipt_type, is_amendment_type, quarantined_facts, receipt_coverage,
  direct_change_coverage, PlanInput, ReceiptCoverage, distinct_ids, absorb_commits, absorb_changes,
  count_changes, plan_change, classify, MergePlan, amended_change_ids, classify_item,
  build_merge_plan,
}
use vcs_lab.MergePlan.Coverage.{in_history, contains-direct_commits}
use vcs_lab.EffectiveBase.{choose_effective_base}

-- The same input over the catalog of these records and parked identifiers.
abbrev pub with_records : PlanInput → List CausalRecord → List Text → PlanInput
with_records input records parked = record input { catalog = catalog_of records parked }

-- All of a plan but its list of quarantined facts.
abbrev pub conclusions : MergePlan → MergePlan
conclusions plan = record plan { quarantined_facts = [] }

module _ (structurally_valid references_exist : CausalRecord → Bool) (ids : List Text) where
  abbrev accept : List CausalRecord → List CausalRecord
  accept = accepted_causal_records structurally_valid references_exist ids

  accept-conflicting :
      (r : CausalRecord) (p q : CausalRecord → Bool) (xs ys : List CausalRecord)
      → is_conflicting ids r ≡ true
      → accept (filter p (filter q (xs ++ r ∷ ys))) ≡ accept (filter p (filter q (xs ++ ys)))
  unfolding accepted_causal_records
  accept-conflicting r p q [] ys h = ground arith
  accept-conflicting r p q (x ∷ xs) ys h = ground (arith, accept-conflicting r p q xs ys h)

-- A plan's conclusions from the accepted receipts and amendments alone.
plan_from : (Text → Text → Bool) → PlanInput → List CausalRecord → List CausalRecord → MergePlan
unfolding build_merge_plan classify_item receipt_coverage amended_change_ids classify
plan_from is_ancestor input receipts amendments =
    let receipt : ReceiptCoverage = record {
      receipts = receipts;
      commits = absorb_commits [] receipts;
      change_ids = absorb_changes [] receipts;
      amended = to_set (truthy (map (λ r. r.change_id) amendments));
      quarantined = [];
    } in
    let changes =
      map (plan_change (direct_change_coverage input.history) receipt (to_set input.candidates))
        input.source_history in
    record {
      exact_state_equality = input.target_tree == input.source_tree;
      effective_base =
          choose_effective_base is_ancestor input.physical_base receipts input.source_head;
      reachable_receipts = distinct_ids [] (map (λ r. r.id) receipts);
      quarantined_facts = [];
      counts =
          count_changes (record { covered_count = 0; candidate_count = 0; new_count = 0 }) changes;
      changes = changes;
    }

-- The records of a type that the target's history reaches, before the acceptance rule.
abbrev reached : PlanInput → (CausalRecord → Bool) → List CausalRecord → List CausalRecord
reached input typed records =
    filter typed
      (filter (λ r. contains (direct_change_coverage input.history).commits r.attached_to) records)

conclusions-plan_from :
    (is_ancestor : Text → Text → Bool) (structurally_valid references_exist : CausalRecord → Bool)
    (input : PlanInput) (records : List CausalRecord) (parked : List Text)
    → let kept = λ (typed : CausalRecord → Bool).
      accept structurally_valid references_exist
        (catalog_of records parked).conflicting_ids
        (reached input typed records) in
      conclusions (
        build_merge_plan is_ancestor structurally_valid references_exist
          (with_records input records parked))
      ≡ plan_from is_ancestor input
          (kept (λ r. is_receipt_type r.type))
          (kept (λ r. is_amendment_type r.type))
unfolding plan_from catalog_of
conclusions-plan_from is_ancestor sv re input records parked = refl

-- The identifiers in conflict: those of two records or more, and the parked ones.
contains-conflicting :
    (records : List CausalRecord) (parked : List Text) (id : Text)
    → contains (catalog_of records parked).conflicting_ids id
      ≡ (ltb 1 (count_if (has_id id) records) || contains parked id)
unfolding catalog_of contains
contains-conflicting records parked id = ground (
  arith,
  contains-add_all (add_all [] (duplicated_record_ids records)) parked id,
  contains-add_all [] (duplicated_record_ids records) id,
  duplicated_iff records id,
)

module _ (xs ys : List CausalRecord) (r : CausalRecord) (parked : List Text) where
  abbrev disputed_with : List Text
  disputed_with = (catalog_of (xs ++ r ∷ ys) parked).conflicting_ids

  abbrev disputed_without : List Text
  disputed_without = (catalog_of (xs ++ ys) parked).conflicting_ids

  -- Without it, the identifier that the record carries is in conflict.
  disputed_own :
      (id : Text)
      → is_conflicting disputed_without r ≡ true
      → has_id id r ≡ true
      → contains disputed_without id ≡ true
  unfolding is_conflicting
  disputed_own id h own = elim (Option-cases r.id) [
    | inl absent ↦ ground (arith, absent)
    | inr (a, e) ↦ ground (arith, e, ==_iff id a)
  ]

  contains-disputed :
      (id : Text)
      → is_conflicting disputed_without r ≡ true
      → contains disputed_with id ≡ contains disputed_without id
  contains-disputed id h = ground (
    arith,
    contains-conflicting (xs ++ r ∷ ys) parked id,
    contains-conflicting (xs ++ ys) parked id,
    count_if-append (has_id id) xs (r ∷ ys),
    count_if-append (has_id id) xs ys,
    disputed_own id h,
  )

  is_conflicting-disputed :
      (x : CausalRecord)
      → is_conflicting disputed_without r ≡ true
      → is_conflicting disputed_with x ≡ is_conflicting disputed_without x
  unfolding is_conflicting
  is_conflicting-disputed x h = elim (Option-cases x.id) [
    | inl absent ↦ rw (absent, is_conflicting) refl
    | inr (id, e) ↦ rw (e, is_conflicting) (contains-disputed id h)
  ]

  -- The conflict rule keeps the same records of a type with the conflicted record and without it.
  accept-disputed :
      (structurally_valid references_exist p q : CausalRecord → Bool)
      → is_conflicting disputed_without r ≡ true
      → accept structurally_valid references_exist disputed_with
          (filter p (filter q (xs ++ r ∷ ys)))
        ≡ accept structurally_valid references_exist disputed_without
            (filter p (filter q (xs ++ ys)))
  unfolding accepted_causal_records
  accept-disputed sv re p q h =
      ap (filter re) (
        filter-ext _ _ (filter p (filter q (xs ++ r ∷ ys)))
          (λ x. ap (λ (b : Bool). not b && sv x) (is_conflicting-disputed x h)))
      ∙ accept-conflicting sv re disputed_without r p q xs ys h

-- A record whose identifier is in conflict without it, since the identifier is parked or two other
-- records carry it, proves nothing: over the catalog that is read with the record and over the one
-- that is read without it, the plan has the same changes, counts, receipts and effective base.
pub conflicted_record_is_inert :
    (is_ancestor : Text → Text → Bool) (structurally_valid references_exist : CausalRecord → Bool)
    (input : PlanInput) (xs ys : List CausalRecord) (r : CausalRecord) (parked : List Text)
    → is_conflicting (catalog_of (xs ++ ys) parked).conflicting_ids r ≡ true
    → let plan = λ (records : List CausalRecord). conclusions (
        build_merge_plan is_ancestor structurally_valid references_exist
          (with_records input records parked)) in
      plan (xs ++ r ∷ ys) ≡ plan (xs ++ ys)
conflicted_record_is_inert is_ancestor sv re input xs ys r parked h =
    let reach =
      λ (x : CausalRecord). contains (direct_change_coverage input.history).commits x.attached_to in
    simp (
      conclusions-plan_from,
      accept-disputed xs ys r parked sv re (λ x. is_receipt_type x.type) reach h,
      accept-disputed xs ys r parked sv re (λ x. is_amendment_type x.type) reach h,
    )

contains-present :
    (conflicting : List Text) (records : List CausalRecord) (id : Text)
    → contains (present (map (λ r. r.id) (filter (is_conflicting conflicting) records))) id
      ≡ (contains conflicting id && any (has_id id) records)
unfolding present is_conflicting contains
contains-present conflicting [] id = ground arith
contains-present conflicting (r ∷ rs) id = elim (Option-cases r.id) [
  | inl absent ↦ rw (absent, present) (contains-present conflicting rs id)
  | inr (a, e) ↦ elim (Bool-cases (contains conflicting a)) [
    | inl disputed ↦
        rw (e, disputed, present, contains)
          (ground (arith, contains-present conflicting rs id, ==_iff a id, ==_iff id a))
    | inr agreed ↦
        rw (e, agreed, present)
          (ground (arith, contains-present conflicting rs id, ==_iff a id, ==_iff id a))
  ]
]

-- The identifiers in conflict that a list of records carries, in ascending order.
quarantined_facts_lem :
    (reachable : List CausalRecord) (conflicting : List Text)
    → IsSorted text_le (quarantined_facts reachable conflicting)
      × ((id : Text)
          → contains (quarantined_facts reachable conflicting) id
            ≡ (contains conflicting id && any (has_id id) reachable))
unfolding quarantined_facts
quarantined_facts_lem reachable conflicting =
    let ids = present (map (λ r. r.id) (filter (is_conflicting conflicting) reachable)) in
    (
      IsSorted-sort_by text_le (λ a b h. ground (arith, text_lt_asymm b a)) (to_set ids),
      λ id.
          contains-sort_texts (to_set ids) id
          ∙ contains-to_set ids id
          ∙ contains-present conflicting reachable id,
    )

-- A plan names as quarantined exactly the identifiers in conflict that some record attached to the
-- target's history carries, whatever the type of the record, in ascending order.
pub quarantined_facts_exact :
    (is_ancestor : Text → Text → Bool) (structurally_valid references_exist : CausalRecord → Bool)
    (input : PlanInput)
    → let plan = build_merge_plan is_ancestor structurally_valid references_exist input in
      IsSorted text_le plan.quarantined_facts
      × ((id : Text)
          → contains plan.quarantined_facts id ≡ (
              contains input.catalog.conflicting_ids id
              && any (λ r. in_history input r.attached_to && has_id id r) input.catalog.records))
unfolding build_merge_plan receipt_coverage
quarantined_facts_exact is_ancestor sv re input =
    let reach =
      λ (r : CausalRecord). contains (direct_change_coverage input.history).commits r.attached_to in
    let reachable = filter reach input.catalog.records in
    let named = quarantined_facts_lem reachable input.catalog.conflicting_ids in
    (
      named.0,
      λ id.
          named.1 id
          ∙ ap (λ (b : Bool). contains input.catalog.conflicting_ids id && b)
              (any-filter (has_id id) reach input.catalog.records
                ∙ any-ext _ _ input.catalog.records (λ r.
                  ap (λ (b : Bool). b && has_id id r)
                    (contains-direct_commits sv re input r.attached_to))),
    )

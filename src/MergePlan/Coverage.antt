-- ===== src/MergePlan/Coverage.antt =====
-- Proofs about the classification of src/merge-plan.js: which evidence covers a change.
use vcs_lab.Prelude.{
  ◌≡◌, refl, ◌∙◌, Bool, true, false, not, ◌&&◌, ◌||◌, Option, none, some, List, [], ◌∷◌, map, arith,
  Text, ◌==◌, contains, any-contains, contains-add_all, add_all, contains-to_set, get_or_else,
  filter, any, any-map, any-filter, any-ext,
}
use vcs_lab.Records.{CausalRecord, accepted_causal_records}
use vcs_lab.Records.Conflicts.{is_accepted, accepted-filter}
use vcs_lab.MergePlan.{
  HistoryItem, item_change_id, is_receipt_type, is_amendment_type, direct_change_coverage, truthy,
  absorb_commits, absorb_changes, Status, covered, classify, plan_change, amended_change_ids,
  receipt_coverage, ReceiptCoverage, PlanInput, classify_item,
}

-- Whether an optional member is there, not empty, and equal to `a`.
abbrev pub carries : Text → Option Text → Bool
carries a none = false
carries a (some []) = false
carries a (some (c ∷ cs)) = (c ∷ cs) == a

contains-map :
    {A : Type 0} (f : A → Text) (xs : List A) (a : Text)
    → contains (map f xs) a ≡ any (λ x. f x == a) xs
contains-map f xs a = any-contains (map f xs) a ∙ any-map (λ x. x == a) f xs

contains-truthy : (xs : List (Option Text)) (a : Text) → contains (truthy xs) a ≡ any (carries a) xs
unfolding truthy contains
contains-truthy [] a = refl
contains-truthy (none ∷ xs) a = contains-truthy xs a
contains-truthy (some [] ∷ xs) a = contains-truthy xs a
contains-truthy (some (c ∷ cs) ∷ xs) a = ground (arith, contains-truthy xs a)

pub contains-absorb_commits :
    (s : List Text) (rs : List CausalRecord) (a : Text)
    → contains (absorb_commits s rs) a
      ≡ (contains s a || any (λ r. contains (get_or_else r.absorbed_commits []) a) rs)
unfolding absorb_commits
contains-absorb_commits s [] a = ground arith
contains-absorb_commits s (r ∷ rs) a =
    let items = get_or_else r.absorbed_commits [] in
    ground (arith, contains-absorb_commits (add_all s items) rs a, contains-add_all s items a)

pub contains-absorb_changes :
    (s : List Text) (rs : List CausalRecord) (a : Text)
    → contains (absorb_changes s rs) a
      ≡ (contains s a || any (λ r. contains (get_or_else r.absorbed_changes []) a) rs)
unfolding absorb_changes
contains-absorb_changes s [] a = ground arith
contains-absorb_changes s (r ∷ rs) a =
    let items = get_or_else r.absorbed_changes [] in
    ground (arith, contains-absorb_changes (add_all s items) rs a, contains-add_all s items a)

-- The evidence, read off the history and the records with no set between.
abbrev pub in_history : PlanInput → Text → Bool
in_history input commit = any (λ h. h.commit == commit) input.history

abbrev pub identity_in_history : PlanInput → Text → Bool
identity_in_history input id = any (λ h. item_change_id h == id) input.history

module _ (structurally_valid references_exist : CausalRecord → Bool) (input : PlanInput) where
  -- A fact: a record attached to the target's history that the conflict rule and the checks keep.
  abbrev pub is_fact : CausalRecord → Bool
  is_fact r =
      in_history input r.attached_to
      && is_accepted structurally_valid references_exist input.catalog.conflicting_ids r

  abbrev pub absorbed_by_receipt : (CausalRecord → Option (List Text)) → Text → Bool
  absorbed_by_receipt member a =
      any (λ r. is_fact r && is_receipt_type r.type && contains (get_or_else (member r) []) a)
        input.catalog.records

  abbrev pub amended : Text → Bool
  amended id =
      any (λ r. is_fact r && is_amendment_type r.type && carries id r.change_id)
        input.catalog.records

  -- Exact evidence for a queued change.
  abbrev pub exact_evidence : HistoryItem → Bool
  exact_evidence item =
      let id = item_change_id item in
      in_history input item.commit
      || absorbed_by_receipt (λ r. r.absorbed_commits) item.commit
      || (identity_in_history input id || absorbed_by_receipt (λ r. r.absorbed_changes) id)
        && not (amended id)

abbrev pub is_covered : Status → Bool
is_covered covered = true
is_covered _ = false

module _ (structurally_valid references_exist : CausalRecord → Bool) (input : PlanInput) where
  abbrev direct_commits : List Text
  direct_commits = (direct_change_coverage input.history).commits

  pub contains-direct_commits : (c : Text) → contains direct_commits c ≡ in_history input c
  unfolding direct_change_coverage
  contains-direct_commits c =
      contains-to_set (map (λ (h : HistoryItem). h.commit) input.history) c
      ∙ contains-map (λ h. h.commit) input.history c

  contains-direct_ids :
      (id : Text)
      → contains (direct_change_coverage input.history).change_ids id ≡ identity_in_history input id
  unfolding direct_change_coverage
  contains-direct_ids id =
      contains-to_set (map item_change_id input.history) id
      ∙ contains-map item_change_id input.history id

  abbrev accepted_of : (CausalRecord → Bool) → List CausalRecord
  accepted_of typed =
      accepted_causal_records structurally_valid references_exist input.catalog.conflicting_ids
        (filter typed (filter (λ r. contains direct_commits r.attached_to) input.catalog.records))

  -- The accepted reachable records of a type are the facts of that type.
  any-accepted :
      (typed p : CausalRecord → Bool)
      → any p (accepted_of typed)
        ≡ any
            (λ r. is_fact structurally_valid references_exist input r && typed r && p r)
            input.catalog.records
  any-accepted typed p =
      simp (accepted-filter, any-filter)
        (any-ext _ _ input.catalog.records
          λ r. ground (arith, contains-direct_commits r.attached_to))

  abbrev receipt_sets : ReceiptCoverage
  receipt_sets = receipt_coverage structurally_valid references_exist direct_commits input.catalog

  contains-receipt_commits :
      (c : Text)
      → contains receipt_sets.commits c
        ≡ absorbed_by_receipt structurally_valid references_exist input (λ r. r.absorbed_commits) c
  unfolding receipt_coverage contains
  contains-receipt_commits c =
      contains-absorb_commits [] (accepted_of (λ r. is_receipt_type r.type)) c
      ∙ any-accepted (λ r. is_receipt_type r.type)
          (λ r. contains (get_or_else r.absorbed_commits []) c)

  contains-receipt_ids :
      (id : Text)
      → contains receipt_sets.change_ids id
        ≡ absorbed_by_receipt structurally_valid references_exist input (λ r. r.absorbed_changes) id
  unfolding receipt_coverage contains
  contains-receipt_ids id =
      contains-absorb_changes [] (accepted_of (λ r. is_receipt_type r.type)) id
      ∙ any-accepted (λ r. is_receipt_type r.type)
          (λ r. contains (get_or_else r.absorbed_changes []) id)

  pub contains-amended :
      (id : Text)
      → contains receipt_sets.amended id ≡ amended structurally_valid references_exist input id
  unfolding receipt_coverage amended_change_ids
  contains-amended id =
      let amendments = accepted_of (λ r. is_amendment_type r.type) in
      let ids = map (λ (r : CausalRecord). r.change_id) amendments in
      contains-to_set (truthy ids) id
      ∙ contains-truthy ids id
      ∙ any-map (carries id) (λ (r : CausalRecord). r.change_id) amendments
      ∙ any-accepted (λ r. is_amendment_type r.type) (λ r. carries id r.change_id)

-- A queued change is reported as covered exactly when there is exact evidence for it: its commit is
-- in the target's history; or an accepted receipt attached to that history absorbed its commit; or
-- that history or such a receipt has its identity, and no accepted amendment attached to that
-- history names the identity.
pub covered_iff_evidence :
    (structurally_valid references_exist : CausalRecord → Bool) (input : PlanInput)
    (item : HistoryItem)
    → is_covered (classify_item structurally_valid references_exist input item).status
      ≡ exact_evidence structurally_valid references_exist input item
unfolding classify_item plan_change classify
covered_iff_evidence sv re input item = ground (
  arith,
  contains-direct_commits sv re input item.commit,
  contains-direct_ids sv re input (item_change_id item),
  contains-receipt_commits sv re input item.commit,
  contains-receipt_ids sv re input (item_change_id item),
  contains-amended sv re input (item_change_id item),
)

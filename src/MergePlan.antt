-- ===== src/MergePlan.antt =====
-- src/merge-plan.js: the planner that subtracts proven prior work. What Git answers is a parameter:
-- the target's history, the queued source changes, patch equivalence and ancestry.
pub mod Coverage
pub mod Counts
pub mod Quarantine
pub mod Examples
use vcs_lab.Prelude.{
  ℕ, suc, ◌+◌, Bool, true, false, not, ◌&&◌, ◌||◌, Option, none, some, List, [], ◌∷◌, ◌++◌, map,
  if◌then◌else◌, Text, codes, ◌==◌, take, contains, add, add_all, to_set, get_or_else, filter, any,
  sort_texts, sort_by,
}
use vcs_lab.EffectiveBase.{EffectiveBase, choose_effective_base}
use vcs_lab.Trailers.{extract_change_id}
use vcs_lab.Records.{CausalRecord, Catalog, accepted_causal_records, is_conflicting}

-- A commit of `commitHistory`.
pub record HistoryItem : Type 0 where
  pub commit : Text
  pub message : Text
  pub subject : Text
  pub changed_paths : Option (List Text)

-- `RECEIPT_TYPES.has(type)`.
unfoldable pub is_receipt_type : Text → Bool
is_receipt_type t = t == codes "landing" || t == codes "reconciliation" || t == codes "rebase"

unfoldable pub is_amendment_type : Text → Bool
is_amendment_type t = t == codes "amendment"

pub record DirectCoverage : Type 0 where
  pub commits : List Text
  pub change_ids : List Text

unfoldable pub item_change_id : HistoryItem → Text
item_change_id h = extract_change_id h.commit h.message

-- `directChangeCoverage`, on the history of the target.
unfoldable pub direct_change_coverage : List HistoryItem → DirectCoverage
unfolding item_change_id
direct_change_coverage history = record {
  commits = to_set (map (λ h. h.commit) history);
  change_ids = to_set (map item_change_id history);
}

-- `.filter(Boolean)`: drops what is absent or empty.
unfoldable pub truthy : List (Option Text) → List Text
truthy [] = []
truthy (none ∷ xs) = truthy xs
truthy (some [] ∷ xs) = truthy xs
truthy (some (c ∷ cs) ∷ xs) = (c ∷ cs) ∷ truthy xs

pub record ReceiptCoverage : Type 0 where
  pub receipts : List CausalRecord
  pub commits : List Text
  pub change_ids : List Text
  pub amended : List Text
  pub quarantined : List Text

-- The two nested loops of `receiptCoverage`, one set at a time.
unfoldable pub absorb_commits : List Text → List CausalRecord → List Text
absorb_commits s [] = s
absorb_commits s (r ∷ rs) = absorb_commits (add_all s (get_or_else r.absorbed_commits [])) rs

unfoldable pub absorb_changes : List Text → List CausalRecord → List Text
absorb_changes s [] = s
absorb_changes s (r ∷ rs) = absorb_changes (add_all s (get_or_else r.absorbed_changes [])) rs

-- The identifiers that are there.
unfoldable pub present : List (Option Text) → List Text
present [] = []
present (none ∷ xs) = present xs
present (some id ∷ xs) = id ∷ present xs

-- `quarantinedFacts`: the reachable identifiers that the conflict rule excludes.
unfoldable pub quarantined_facts : List CausalRecord → List Text → List Text
unfolding is_conflicting present sort_by
quarantined_facts reachable conflicting =
    sort_texts (to_set (present (map (λ r. r.id) (filter (is_conflicting conflicting) reachable))))

pub data Status : Type 0 where
  covered candidate_equivalent new : Status

pub data Proof : Type 0 where
  commit_ancestry receipt_commit stable_change_id receipt_change_id : Proof
  amended_change_id git_patch_id_heuristic : Proof

pub record Change : Type 0 where
  pub commit : Text
  pub short_commit : Text
  pub change_id : Text
  pub subject : Text
  pub status : Status
  pub proof : Option Proof
  pub changed_paths : List Text

-- The classification of one queued change: its status and the proof for it.
unfoldable pub classify :
    DirectCoverage → ReceiptCoverage → List Text → Text → Text → Status × Option Proof
classify direct receipt candidates commit change_id =
    if contains direct.commits commit
    then (covered, some commit_ancestry)
    else if contains receipt.commits commit
    then (covered, some receipt_commit)
    else if contains direct.change_ids change_id || contains receipt.change_ids change_id
    then (if contains receipt.amended change_id
        then (candidate_equivalent, some amended_change_id)
        else (
          covered,
          some (
              if contains direct.change_ids change_id then stable_change_id else receipt_change_id),
        ))
    else if contains candidates commit
    then (candidate_equivalent, some git_patch_id_heuristic)
    else (new, none)

-- The body of `sourceHistory.map`.
unfoldable pub plan_change : DirectCoverage → ReceiptCoverage → List Text → HistoryItem → Change
unfolding item_change_id
plan_change direct receipt candidates item =
    let change_id = item_change_id item in
    let result = classify direct receipt candidates item.commit change_id in
    record {
      commit = item.commit;
      short_commit = take 12 item.commit;
      change_id = change_id;
      subject = item.subject;
      status = result.0;
      proof = result.1;
      changed_paths = get_or_else item.changed_paths [];
    }

pub record StatusCounts : Type 0 where
  pub covered_count : ℕ
  pub candidate_count : ℕ
  pub new_count : ℕ

unfoldable pub count_status : StatusCounts → Status → StatusCounts
count_status c covered = record c { covered_count = c.covered_count + 1 }
count_status c candidate_equivalent = record c { candidate_count = c.candidate_count + 1 }
count_status c new = record c { new_count = c.new_count + 1 }

-- The `reduce` over the changes.
unfoldable pub count_changes : StatusCounts → List Change → StatusCounts
unfolding count_status
count_changes c [] = c
count_changes c (x ∷ xs) = count_changes (count_status c x.status) xs

module _ (structurally_valid references_exist : CausalRecord → Bool) where
  abbrev accept : List Text → List CausalRecord → List CausalRecord
  accept = accepted_causal_records structurally_valid references_exist

  -- `amendedChangeIds`.
  unfoldable pub amended_change_ids : List CausalRecord → List Text → List Text
  unfolding is_amendment_type truthy
  amended_change_ids reachable conflicting = to_set (
      truthy (
        map (λ r. r.change_id)
          (accept conflicting (filter (λ r. is_amendment_type r.type) reachable))))

  -- `receiptCoverage`, on the catalog of the notes tree.
  unfoldable pub receipt_coverage : List Text → Catalog → ReceiptCoverage
  unfolding is_receipt_type absorb_commits absorb_changes amended_change_ids quarantined_facts
  receipt_coverage direct_commits catalog =
      let reachable = filter (λ r. contains direct_commits r.attached_to) catalog.records in
      let receipts =
        accept catalog.conflicting_ids (filter (λ r. is_receipt_type r.type) reachable) in
      record {
        receipts = receipts;
        commits = absorb_commits [] receipts;
        change_ids = absorb_changes [] receipts;
        amended = amended_change_ids reachable catalog.conflicting_ids;
        quarantined = quarantined_facts reachable catalog.conflicting_ids;
      }

-- `left === right` on identifiers that may be absent.
unfoldable pub same_id : Option Text → Option Text → Bool
same_id none none = true
same_id (some a) (some b) = a == b
same_id _ _ = false

-- `[...new Set(ids)]` on such identifiers: each stands where it came first.
unfoldable pub distinct_ids : List (Option Text) → List (Option Text) → List (Option Text)
unfolding same_id
distinct_ids found [] = found
distinct_ids found (id ∷ ids) =
    distinct_ids (if any (same_id id) found then found else found ++ id ∷ []) ids

-- What `buildMergePlanInSession` reads of the repository.
pub record PlanInput : Type 0 where
  pub history : List HistoryItem
  pub source_history : List HistoryItem
  pub candidates : List Text
  pub catalog : Catalog
  pub physical_base : Text
  pub source_head : Text
  pub target_tree : Text
  pub source_tree : Text

pub record MergePlan : Type 0 where
  pub exact_state_equality : Bool
  pub effective_base : EffectiveBase
  pub reachable_receipts : List (Option Text)
  pub quarantined_facts : List Text
  pub counts : StatusCounts
  pub changes : List Change

module _ (structurally_valid references_exist : CausalRecord → Bool) where
  -- The classification of one item, with the sets that the session computes for it.
  unfoldable pub classify_item : PlanInput → HistoryItem → Change
  unfolding direct_change_coverage receipt_coverage plan_change
  classify_item input =
      let direct = direct_change_coverage input.history in
      let receipt =
        receipt_coverage structurally_valid references_exist direct.commits input.catalog in
      plan_change direct receipt (to_set input.candidates)

  unfoldable pub plan_changes : PlanInput → List Change
  unfolding classify_item
  plan_changes input = map (classify_item input) input.source_history

module _ (is_ancestor : Text → Text → Bool)
    (structurally_valid references_exist : CausalRecord → Bool) where
  unfoldable pub build_merge_plan : PlanInput → MergePlan
  unfolding plan_changes choose_effective_base count_changes distinct_ids
  build_merge_plan input =
      let direct = direct_change_coverage input.history in
      let receipt =
        receipt_coverage structurally_valid references_exist direct.commits input.catalog in
      let changes = plan_changes structurally_valid references_exist input in
      record {
        exact_state_equality = input.target_tree == input.source_tree;
        effective_base =
            choose_effective_base is_ancestor input.physical_base receipt.receipts
              input.source_head;
        reachable_receipts = distinct_ids [] (map (λ r. r.id) receipt.receipts);
        quarantined_facts = receipt.quarantined;
        counts =
            count_changes (record { covered_count = 0; candidate_count = 0; new_count = 0 })
              changes;
        changes = changes;
      }

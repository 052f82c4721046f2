-- ===== src/RebaseLists.antt =====
-- src/rebase-plan.js: what the plan does with each change, and the lists that it makes of them.
use vcs_lab.Prelude.{
  Bool, true, false, not, Option, none, some, List, [], ◌∷◌, ◌++◌, map, Text, codes, take, contains,
  Dict, lookup, insert, filter,
}
use vcs_lab.Interactive.{Action, omit, review, replay, is_surviving, PlanChange, ResolvedAction}
use vcs_lab.MergePlan.{Status, covered, candidate_equivalent, new, Proof, Change}
use vcs_lab.Topology.{ParentOrigin, StepKind, pick, recreate_merge, Step}

-- A change of the plan with what the rebase does with it.
pub record RebaseChange : Type 0 where
  pub change : Change
  pub action : Action

unfoldable pub action_of : Status → Action
action_of covered = omit
action_of candidate_equivalent = review
action_of new = replay

unfoldable pub with_action : Change → RebaseChange
unfolding action_of
with_action c = record { change = c; action = action_of c.status }

-- The causal changes that are no merges, each with its action.
unfoldable pub undeclared_changes : List Text → List Change → List RebaseChange
unfolding with_action
undeclared_changes merges changes =
    map with_action (filter (λ c. not (contains merges c.commit)) changes)

abbrev pub plan_changes_of : List RebaseChange → List PlanChange
plan_changes_of changes = map (λ c. record { commit = c.change.commit; action = c.action }) changes

-- `if (action) change.action = action.action`.
unfoldable pub apply_action : Option ResolvedAction → RebaseChange → RebaseChange
apply_action none c = c
apply_action (some a) c = record c { action = a.action }

unfoldable pub declare_actions : Dict ResolvedAction → List RebaseChange → List RebaseChange
unfolding apply_action
declare_actions by_commit changes =
    map (λ c. apply_action (lookup by_commit c.change.commit) c) changes

pub record QueueItem : Type 0 where
  pub commit : Text
  pub short_commit : Text
  pub change_id : Text
  pub subject : Text
  pub action : Action

pub record OmittedItem : Type 0 where
  pub commit : Text
  pub change_id : Text
  pub proof : Option Proof

pub record CandidateItem : Type 0 where
  pub commit : Text
  pub change_id : Text
  pub proof : Option Proof
  pub subject : Text

abbrev pub is_omit : Action → Bool
is_omit omit = true
is_omit _ = false

abbrev pub is_review : Action → Bool
is_review review = true
is_review _ = false

unfoldable pub replay_queue_of : List RebaseChange → List QueueItem
unfolding is_surviving
replay_queue_of changes =
    map
      (λ c. record {
        commit = c.change.commit;
        short_commit = c.change.short_commit;
        change_id = c.change.change_id;
        subject = c.change.subject;
        action = c.action;
      })
      (filter (λ c. is_surviving c.action) changes)

unfoldable pub omitted_of : List RebaseChange → List OmittedItem
omitted_of changes =
    map
      (λ c. record {
        commit = c.change.commit;
        change_id = c.change.change_id;
        proof = c.change.proof;
      })
      (filter (λ c. is_omit c.action) changes)

unfoldable pub candidates_of : List RebaseChange → List CandidateItem
candidates_of changes =
    map
      (λ c. record {
        commit = c.change.commit;
        change_id = c.change.change_id;
        proof = c.change.proof;
        subject = c.change.subject;
      })
      (filter (λ c. is_review c.action) changes)

pub record RecreatedMerge : Type 0 where
  pub commit : Text
  pub short_commit : Text
  pub origin_change_id : Text
  pub subject : Text
  pub parents : List ParentOrigin

-- `changeSubjects`.
unfoldable pub change_subjects : Dict Change → List Change → Dict Change
change_subjects m [] = m
change_subjects m (c ∷ cs) = change_subjects (insert m c.commit c) cs

unfoldable pub recreated_merge : Option Change → Step → RecreatedMerge
recreated_merge none step = record {
  commit = step.commit;
  short_commit = take 12 step.commit;
  origin_change_id = codes "git:" ++ step.commit;
  subject = [];
  parents = step.parents;
}
recreated_merge (some c) step = record {
  commit = step.commit;
  short_commit = take 12 step.commit;
  origin_change_id = c.change_id;
  subject = c.subject;
  parents = step.parents;
}

abbrev pub is_recreation : StepKind → Bool
is_recreation recreate_merge = true
is_recreation pick = false

unfoldable pub recreated_merges_of : Dict Change → List Step → List RecreatedMerge
unfolding recreated_merge
recreated_merges_of subjects steps =
    map (λ s. recreated_merge (lookup subjects s.commit) s)
      (filter (λ s. is_recreation s.kind) steps)

-- ===== src/RebasePlan/Actions.antt =====
-- What the plan of src/rebase-plan.js does with each change: the action follows the classification, with
-- or without declared actions.
use vcs_lab.Prelude.{
  ◌≡◌, refl, arith, inl, inr, Bool, true, false, ◌&&◌, ◌||◌, Option, none, some, List, [], ◌∷◌, map,
  Text, ◌==◌, ==_iff, contains, IsNodup, Dict, lookup, filter, All, Bool-cases,
}
use vcs_lab.Interactive.{Action, omit, review, replay, replayable_commits, ResolvedAction}
use vcs_lab.MergePlan.{Change, Status, covered, candidate_equivalent, new}
use vcs_lab.MergePlan.Counts.{is_new}
use vcs_lab.RebaseLists.{RebaseChange, with_action, plan_changes_of, apply_action, declare_actions}
use vcs_lab.RebasePlan.Declared.{is_declared}

-- The action that a classification admits: a covered change is omitted, a heuristic candidate is left
-- to a person, and a new change is replayed, reworded, edited or absorbed.
abbrev pub agrees : Status → Action → Bool
agrees covered omit = true
agrees candidate_equivalent review = true
agrees new replay = true
agrees new a = is_declared a
agrees _ _ = false

abbrev pub commits_of : List Change → List Text
commits_of changes = map (λ c. c.commit) changes

abbrev pub replayable_of : List Change → List Text
replayable_of changes = replayable_commits (plan_changes_of (map with_action changes))

replayable-IsSubset :
    (changes : List Change) (commit : Text)
    → contains (commits_of changes) commit ≡ false
    → contains (replayable_of changes) commit ≡ false
unfolding replayable_commits with_action contains
replayable-IsSubset [] commit h = refl
replayable-IsSubset (c ∷ cs) commit h = ground (arith, replayable-IsSubset cs commit)

contains-replayable-cons :
    (c : Change) (cs : List Change) (commit : Text)
    → contains (replayable_of (c ∷ cs)) commit
      ≡ (is_new c.status && c.commit == commit || contains (replayable_of cs) commit)
unfolding replayable_commits with_action contains
contains-replayable-cons c cs commit = ground arith

-- Among distinct commits, those to replay are those of new changes.
pub replayable-is_new :
    (known : Text → Bool) (changes : List Change)
    → IsNodup (commits_of changes)
    → ((commit : Text)
        → contains (commits_of changes) commit ≡ true
        → known commit ≡ contains (replayable_of changes) commit)
    → All (λ c. known c.commit ≡ is_new c.status) changes
unfolding contains
replayable-is_new known [] n h = tt
replayable-is_new known (c ∷ cs) n h = (
  ground (
    arith,
    h c.commit,
    ==_iff c.commit c.commit,
    contains-replayable-cons c cs c.commit,
    replayable-IsSubset cs c.commit,
  ),
  replayable-is_new known cs n.1 (λ commit inside.
      ground (
        arith,
        h commit,
        contains-replayable-cons c cs commit,
        ==_iff c.commit commit,
        n.0,
        inside,
      )),
)

agrees-apply_action :
    (known : Text → Bool) (o : Option ResolvedAction) (c : Change)
    → (elim o [ none ↦ true | some a ↦ known c.commit && is_declared a.action ]) ≡ true
    → known c.commit ≡ is_new c.status
    → agrees (apply_action o (with_action c)).change.status (apply_action o (with_action c)).action
      ≡ true
unfolding apply_action with_action
agrees-apply_action known none c h k = ground arith
agrees-apply_action known (some a) c h k = ground arith

abbrev pub Agrees : RebaseChange → Type 0
Agrees c = agrees c.change.status c.action ≡ true

pub declare_actions-Agrees :
    (by_commit : Dict ResolvedAction) (known : Text → Bool) (changes : List Change)
    → ((commit : Text)
        → (elim (lookup by_commit commit) [
          | none ↦ true
          | some a ↦ known commit && is_declared a.action
        ])
          ≡ true)
    → All (λ c. known c.commit ≡ is_new c.status) changes
    → All Agrees (declare_actions by_commit (map with_action changes))
unfolding declare_actions
declare_actions-Agrees by_commit known [] d h = tt
declare_actions-Agrees by_commit known (c ∷ cs) d h = (
  unfold with_action in agrees-apply_action known (lookup by_commit c.commit) c (d c.commit) h.0,
  declare_actions-Agrees by_commit known cs d h.1,
)

contains-commits-filter :
    (p : Change → Bool) (changes : List Change) (commit : Text)
    → contains (commits_of changes) commit ≡ false
    → contains (commits_of (filter p changes)) commit ≡ false
unfolding contains
contains-commits-filter p [] commit h = refl
contains-commits-filter p (c ∷ cs) commit h = ground (arith, contains-commits-filter p cs commit)

pub IsNodup-commits-filter :
    (p : Change → Bool) (changes : List Change)
    → IsNodup (commits_of changes)
    → IsNodup (commits_of (filter p changes))
IsNodup-commits-filter p [] n = tt
IsNodup-commits-filter p (c ∷ cs) n = elim (Bool-cases (p c)) [
  | inl kept ↦ rw kept (contains-commits-filter p cs c.commit n.0, IsNodup-commits-filter p cs n.1)
  | inr dropped ↦ rw dropped (IsNodup-commits-filter p cs n.1)
]

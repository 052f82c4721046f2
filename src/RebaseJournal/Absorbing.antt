-- ===== src/RebaseJournal/Absorbing.antt =====
-- Melding absorbed commits into the commit at HEAD, and the pauses for a message or for content:
-- `absorbOutstanding`, `applyAbsorption`, `interactivePause` and `finishSurvivingStep`.
use vcs_lab.Prelude.{
  ℕ, suc, Bool, true, false, not, Option, none, some, List, [], ◌∷◌, ◌++◌, map, if◌then◌else◌, eqb,
  length, Text, codes, all,
}
use vcs_lab.Errors.{Result, conflict_blocked, conflict_paused, interactive_paused}
use vcs_lab.Interactive.{Action, reword, edit}
use vcs_lab.Messages.{absorbed_message, assert_single_identity}
use vcs_lab.RebaseProgram.{MergeChange, AbsorbedItem, ProgramStep, run_pick}
use vcs_lab.RebaseJournal.{
  RunState, blocked, awaiting_message, awaiting_content, awaiting_absorption, causal_rebase,
  Candidate, Conflict, AbsorbedCommit, Absorption, change_of,
}
use vcs_lab.RebaseJournal.Host.{cherry_pick_no_commit, cherry_pick_abort, amend_message, Host}
use vcs_lab.RebaseJournal.Session.{
  M, ◌>>=◌, ◌>>◌, pure, asks, call, throw, throw_when, when, write_state, set_state, from_some,
  the_current, current_item, set_current, try_git,
}
use vcs_lab.RebaseJournal.Recording.{record_successful_application}
use vcs_lab.RebaseJournal.Approval.{validate_forecast_after}
use vcs_lab.RebaseJournal.Approving.{materialize_choices}

-- The one candidate of each conflict, where each has exactly one.
unfoldable pub sole_choice : Conflict → List Candidate → List (Conflict × Candidate)
sole_choice conflict (candidate ∷ []) = (conflict, candidate) ∷ []
sole_choice conflict _ = []

unfoldable pub sole_choices : List Conflict → List (Conflict × Candidate)
unfolding sole_choice
sole_choices [] = []
sole_choices (c ∷ cs) = sole_choice c c.candidates ++ sole_choices cs

-- `conflicts.every((conflict) => conflict.candidates.length === 1)`.
unfoldable pub is_exact : List Conflict → Bool
is_exact conflicts = all (λ c. eqb (length c.candidates) 1) conflicts

abbrev has_none {ℓ} : {A : Type ℓ} → List A → Bool
has_none [] = true
has_none (x ∷ xs) = false

-- `change.changeId`, of the change that the declared action absorbs.
unfoldable pub absorbed_change_id : AbsorbedItem → Text
absorbed_change_id i = elim i.change [
  | none ↦ codes "git:" ++ i.item.commit
  | some c ↦ c.change.change_id
]

-- `item.action`: only picks have one.
abbrev pub action_of_item : ProgramStep → Option Action
action_of_item (run_pick step c absorbs) = some c.action
action_of_item _ = none

-- The items from the cursor on.
abbrev pub rest_of {ℓ} : {A : Type ℓ} → ℕ → List A → List A
rest_of ℕ.zero items = items
rest_of (ℕ.suc n) [] = []
rest_of (ℕ.suc n) (i ∷ items) = rest_of n items

module _ {World : Type 0} where
  abbrev pub the_absorption : M World Absorption
  the_absorption = the_current >>= λ current. from_some current.absorption

  abbrev pub set_absorption : Absorption → M World (Unit {0})
  set_absorption absorption =
      the_current >>= λ current. set_current (record current { absorption = some absorption })

  -- A pure check that may throw.
  abbrev pub lift : {A : Type 0} → Result A → M World A
  lift r s = (r, s)

module _ {World : Type 0} (host : Host World) where
  -- No path in conflict: Git could not apply the commit at all.
  unfoldable pub block_absorption : M World (Unit {0})
  unfolding write_state
  block_absorption = do
    done ← try_git host cherry_pick_abort
    set_state blocked
    write_state
    throw conflict_blocked

  unfoldable pub pause_absorption : Text → List Text → List Conflict → M World (Unit {0})
  unfolding write_state
  pause_absorption commit paths conflicts = do
    absorption ← the_absorption
    set_absorption (record absorption { conflicts = conflicts; conflicted_commit = some commit })
    set_state awaiting_absorption
    current ← the_current
    set_current (record current { conflicts = conflicts; conflicted_paths = paths })
    write_state
    throw conflict_paused

  unfoldable pub reuse_exact : List Conflict → M World (Unit {0})
  unfolding materialize_choices sole_choices
  reuse_exact conflicts = do
    marked ← materialize_choices host (codes "absorption-exact-reuse") (sole_choices conflicts)
    outcomes ← call (host.capture_outcomes marked)
    absorption ← the_absorption
    set_absorption (record absorption { resolutions = absorption.resolutions ++ outcomes })

  -- The body of `if (paths.length !== 0)`.
  unfoldable pub settle_conflicts : Text → List Text → M World (Unit {0})
  unfolding pause_absorption reuse_exact is_exact
  settle_conflicts commit paths = do
    conflicts ← call (host.capture_descriptors paths)
    if is_exact conflicts then reuse_exact conflicts else pause_absorption commit paths conflicts

  -- The body of `if (!applied.ok)`.
  unfoldable pub settle_absorption : Text → M World (Unit {0})
  unfolding block_absorption settle_conflicts
  settle_absorption commit = do
    paths ← asks host.unmerged_paths
    if has_none paths then block_absorption else settle_conflicts commit paths

  -- One round of the loop.
  unfoldable pub absorb_one : AbsorbedCommit → M World (Unit {0})
  unfolding settle_absorption write_state
  absorb_one item = do
    applied ← try_git host (cherry_pick_no_commit item.commit)
    when (not applied) (settle_absorption item.commit)
    absorption ← the_absorption
    set_absorption (record absorption { next_index = suc absorption.next_index })
    write_state

  -- The loop, over the items from the cursor on.
  unfoldable pub absorb_each : List AbsorbedCommit → M World (Unit {0})
  unfolding absorb_one
  absorb_each [] = pure tt
  absorb_each (i ∷ items) = do absorb_one i; absorb_each items

  -- `absorbOutstanding`.
  unfoldable pub absorb_outstanding : M World (Unit {0})
  unfolding absorb_each
  absorb_outstanding = do
    absorption ← the_absorption
    absorb_each (rest_of absorption.next_index absorption.items)
    amended ← try_git host (amend_message absorption.message)
    throw_when (not amended) conflict_blocked
    current ← the_current
    set_current (record current { conflicts = []; conflicted_paths = [] })

  -- The absorption of a step that melds commits in.
  unfoldable pub begin_absorption :
      MergeChange → AbsorbedItem → List AbsorbedItem → M World (Unit {0})
  unfolding absorb_outstanding absorbed_message assert_single_identity absorbed_change_id
      write_state
  begin_absorption change first items = do
    head ← asks host.head
    surviving ← asks (host.message_of head)
    messages ← asks (λ w.
        map (λ i. record { action = i.item.action; message = host.message_of i.item.commit w })
          items)
    let message = absorbed_message surviving messages change.change_id
    lift (assert_single_identity message change.change_id)
    set_absorption (record {
      action = first.item.action;
      message = message;
      items =
          map
            (λ i. record {
              commit = i.item.commit;
              change_id = absorbed_change_id i;
              action = i.item.action;
            })
            items;
      next_index = 0;
      resolutions = [];
      conflicts = [];
      conflicted_commit = none;
    })
    write_state
    absorb_outstanding

  -- `applyAbsorption`: `if (!item.absorbs?.length) return null`.
  unfoldable pub apply_absorption : MergeChange → List AbsorbedItem → M World (Unit {0})
  unfolding begin_absorption
  apply_absorption change [] = pure tt
  apply_absorption change (i ∷ items) = begin_absorption change i (i ∷ items)

  -- The tree at the pause, then `interactivePause`.
  unfoldable pub interactive_pause : RunState → M World (Unit {0})
  unfolding write_state
  interactive_pause waiting = do
    head ← asks host.head
    tree ← asks (host.tree_of head)
    current ← the_current
    set_current (record current { tree_before_edit = some tree })
    set_state waiting
    write_state
    throw interactive_paused

  unfoldable pub finish_unpaused : MergeChange → M World (Unit {0})
  unfolding validate_forecast_after record_successful_application
  finish_unpaused change = do
    head ← asks host.head
    tree ← asks (host.tree_of head)
    validate_forecast_after change tree (codes "clean")
    record_successful_application host causal_rebase

  unfoldable pub finish_action : MergeChange → Option Action → M World (Unit {0})
  unfolding interactive_pause finish_unpaused
  finish_action change (some reword) = interactive_pause awaiting_message
  finish_action change (some edit) = interactive_pause awaiting_content
  finish_action change _ = finish_unpaused change

  -- `finishSurvivingStep`.
  unfoldable pub finish_surviving_step : M World (Unit {0})
  unfolding finish_action
  finish_surviving_step = do
    item ← current_item
    finish_action (change_of item) (action_of_item item)

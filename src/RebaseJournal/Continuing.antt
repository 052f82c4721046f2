-- ===== src/RebaseJournal/Continuing.antt =====
-- `continueRebaseInSession` of src/rebase-operations.js, with the ends of the three pauses and of a
-- resolved conflict.
use vcs_lab.Prelude.{
  suc, Bool, true, false, not, ◌&&◌, ◌||◌, Option, none, some, [], ◌∷◌, ◌++◌, Text, codes, ◌==◌,
  contains, filter, any, is_some,
}
use vcs_lab.Errors.{
  precondition_not_met, out_of_band_change, usage_missing_argument, usage_invalid_option_value,
  conflict_blocked, operation_state_invalid,
}
use vcs_lab.Messages.{strip, reworded_message, assert_single_identity}
use vcs_lab.RebaseProgram.{MergeChange}
use vcs_lab.RebaseJournal.{
  has, RunState, applying, conflicted, blocked, awaiting_message, awaiting_content,
  awaiting_absorption, Relation, causal_rebase, contextual_rebase, contextual_fork, Conflict,
  SemanticMerge, Join, Current, Receipt, change_of,
}
use vcs_lab.RebaseJournal.Host.{
  cherry_pick_continue, amend_message, amend_no_edit, write_merge_message, Host,
}
use vcs_lab.RebaseJournal.Session.{
  M, ◌>>=◌, ◌>>◌, pure, gets, modify, asks, perform, call, throw, throw_when, when, write_state,
  set_state, the_current, current_item, set_current, run_git, try_git,
}
use vcs_lab.RebaseJournal.Recording.{record_successful_application, record_recreated_merge}
use vcs_lab.RebaseJournal.Approving.{commit_recreated_merge}
use vcs_lab.RebaseJournal.Absorbing.{
  the_absorption, set_absorption, lift, absorb_outstanding, finish_surviving_step,
}
use vcs_lab.RebaseJournal.Finishing.{run_rebase_queue}
use vcs_lab.RebaseJournal.Checks.{require_pending_rebase, require_operation_branch}

-- The options of `rebase --continue`.
pub record ContinueOptions : Type 0 where
  pub message : Option Text
  pub fork : Bool

abbrev pub is_conflicted : RunState → Bool
is_conflicted conflicted = true
is_conflicted _ = false

module _ {World : Type 0} (host : Host World) where
  -- The tree that a reword found, which it must leave as it was.
  unfoldable pub check_reword : Text → Option Text → M World (Unit {0})
  unfolding write_state
  check_reword after none = do set_state blocked; write_state; throw out_of_band_change
  check_reword after (some before) =
      when (not (after == before)) do set_state blocked; write_state; throw out_of_band_change

  abbrev pub message_of : Option Text → Option Text
  message_of (some (c ∷ cs)) = some (c ∷ cs)
  message_of _ = none

  unfoldable pub required_message : Option Text → M World Text
  required_message none = throw usage_missing_argument
  required_message (some text) = pure text

  -- The end of a `reword`.
  unfoldable pub complete_reword : Option Text → M World (Unit {0})
  unfolding required_message check_reword record_successful_application reworded_message
      assert_single_identity
  complete_reword message = do
    item ← current_item
    text ← required_message (message_of message)
    composed ← lift (reworded_message text (change_of item).change_id)
    lift (assert_single_identity composed (change_of item).change_id)
    amended ← try_git host (amend_message composed)
    throw_when (not amended) conflict_blocked
    head ← asks host.head
    after ← asks (host.tree_of head)
    current ← the_current
    check_reword after current.tree_before_edit
    record_successful_application host causal_rebase

  abbrev is_same_tree : Text → Option Text → Bool
  is_same_tree after none = false
  is_same_tree after (some before) = after == before

  -- An amendment is published where the tree changed.
  unfoldable pub add_amendment : MergeChange → Text → Text → Option Text → M World (Unit {0})
  add_amendment change commit after before = when (not (is_same_tree after before)) do
    id ← perform (host.new_id (codes "amend"))
    modify (λ o. record o {
      amendments =
          o.amendments
          ++ (record {
            id = id;
            change_id = change.change_id;
            commit = commit;
            origin_commit = change.commit;
            tree_before = before;
            tree_after = after;
          })
            ∷ [];
    })

  -- The end of an `edit`.
  unfoldable pub complete_edit : Option Text → M World (Unit {0})
  unfolding add_amendment record_successful_application
  complete_edit message = do
    item ← current_item
    throw_when (is_some (message_of message)) usage_invalid_option_value
    staged ← try_git host amend_no_edit
    throw_when (not staged) conflict_blocked
    commit ← asks host.head
    after ← asks (host.tree_of commit)
    current ← the_current
    add_amendment (change_of item) commit after current.tree_before_edit
    record_successful_application host causal_rebase

  unfoldable pub refuse_unresolved : M World (Unit {0})
  refuse_unresolved = do paths ← asks host.unmerged_paths; throw_when (has paths) conflict_blocked

  -- `completeAbsorption`.
  unfoldable pub complete_absorption : M World (Unit {0})
  unfolding refuse_unresolved absorb_outstanding finish_surviving_step write_state
  complete_absorption = do
    refuse_unresolved
    absorption ← the_absorption
    outcomes ← call (host.capture_outcomes absorption.conflicts)
    set_absorption (record absorption {
      resolutions = absorption.resolutions ++ outcomes;
      conflicts = [];
      conflicted_commit = none;
      next_index = suc absorption.next_index;
    })
    set_state applying
    write_state
    absorb_outstanding host
    finish_surviving_step host

  abbrev second_commit : Join → Option Text
  second_commit join = elim join.parents [ [] ↦ none | p ∷ [] ↦ none | p ∷ q ∷ ps ↦ some q.commit ]

  -- `!left || left !== right`.
  unfoldable pub is_other : Option Text → Option Text → Bool
  is_other (some (c ∷ cs)) (some expected) = not ((c ∷ cs) == expected)
  is_other _ _ = true

  -- Git's pending merge or pick is the journal's.
  unfoldable pub check_pending : Current → Option Join → M World (Unit {0})
  unfolding is_other
  check_pending current (some join) = do
    joined ← asks host.pending_merge_head
    throw_when (is_other joined (second_commit join)) out_of_band_change
  check_pending current none = do
    picked ← asks host.cherry_pick_head
    throw_when (is_other picked (some current.source_commit)) out_of_band_change

  -- What was staged for the conflicts.
  unfoldable pub capture_staged : M World (Unit {0})
  unfolding write_state
  capture_staged = do
    before ← the_current
    merges ← call (host.capture_spec_outcomes before.semantic_merges)
    set_current (record before { semantic_merges = merges })
    let resolved =
        λ (path : Text). any (λ (m : SemanticMerge). contains m.resolved_paths path) merges
    outcomes ←
        call (
          host.capture_outcomes (filter (λ (c : Conflict). not (resolved c.path)) before.conflicts))
    current ← the_current
    set_current (record current { resolution_outcomes = outcomes })
    write_state

  -- `forkMergeMessage` with the identity that the journal has, or a new one.
  unfoldable pub fork_identity : Option Text → M World Text
  fork_identity (some id) = pure id
  fork_identity none = perform (host.new_id (codes "ch"))

  unfoldable pub fork_merge_message : M World (Unit {0})
  unfolding fork_identity strip run_git write_state
  fork_merge_message = do
    current ← the_current
    id ← fork_identity current.fork_change_id
    set_current (record current { fork_change_id = some id })
    original ← asks host.merge_message
    run_git host (
        write_merge_message (
          strip original
          ++ codes "\n\nChange-Id: "
          ++ id
          ++ codes "\nDerived-From: "
          ++ current.source_change_id
          ++ codes "\nOrigin-Commit: "
          ++ current.source_commit
          ++ codes "\n"))
    write_state

  abbrev relation_of : Option Text → Relation
  relation_of none = contextual_rebase
  relation_of (some id) = contextual_fork

  -- A resolved join, or a resolved pick.
  unfoldable pub continue_step : ContinueOptions → Option Join → M World (Unit {0})
  unfolding commit_recreated_merge record_recreated_merge fork_merge_message
      record_successful_application
  continue_step options (some join) = do
    throw_when options.fork operation_state_invalid
    item ← current_item
    commit_recreated_merge host (change_of item)
    record_recreated_merge host (change_of item) join.parents false
  continue_step options none = do
    before ← the_current
    when (options.fork || is_some before.fork_change_id) fork_merge_message
    continued ← try_git host cherry_pick_continue
    throw_when (not continued) conflict_blocked
    current ← the_current
    record_successful_application host (relation_of current.fork_change_id)

  -- From the check of the state on.
  unfoldable pub continue_conflicted : ContinueOptions → M World (Unit {0})
  unfolding refuse_unresolved check_pending capture_staged continue_step
  continue_conflicted options = do
    o ← gets (λ o. o)
    throw_when (not (is_conflicted o.state && is_some o.current)) operation_state_invalid
    refuse_unresolved
    current ← the_current
    check_pending current current.join
    capture_staged
    continue_step options current.join

  -- The branches of `continueRebaseInSession` on the state.
  unfoldable pub continue_from : RunState → ContinueOptions → M World (Unit {0})
  unfolding complete_reword complete_edit complete_absorption continue_conflicted
  continue_from awaiting_message options = complete_reword options.message
  continue_from awaiting_content options = complete_edit options.message
  continue_from awaiting_absorption options = complete_absorption
  continue_from _ options = continue_conflicted options

  -- `continueRebase`.
  unfoldable pub continue_rebase : ContinueOptions → M World (Option Receipt)
  unfolding require_pending_rebase require_operation_branch continue_from run_rebase_queue
  continue_rebase options = do
    require_pending_rebase
    o ← gets (λ o. o)
    throw_when (not (host.spec_decisions_current o)) precondition_not_met
    require_operation_branch host
    continue_from o.state options
    run_rebase_queue host

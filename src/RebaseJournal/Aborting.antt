-- ===== src/RebaseJournal/Aborting.antt =====
-- `abortRebase` of src/rebase-operations.js.
use vcs_lab.Prelude.{Bool, true, false, not, ◌&&◌, if◌then◌else◌, Text, ◌==◌, is_some}
use vcs_lab.Errors.{internal_invariant}
use vcs_lab.RebaseJournal.{RunState, awaiting_absorption, Operation}
use vcs_lab.RebaseJournal.Host.{cherry_pick_abort, merge_abort, reset_hard, Host}
use vcs_lab.RebaseJournal.Session.{
  M, ◌>>=◌, ◌>>◌, pure, gets, asks, call, throw_when, when, clear_state, run_git,
}
use vcs_lab.RebaseJournal.Recording.{release_anchors}
use vcs_lab.RebaseJournal.Checks.{
  require_pending_rebase, require_operation_branch, assert_clean, with_overlay,
}

abbrev is_absorption_pause : RunState → Bool
is_absorption_pause awaiting_absorption = true
is_absorption_pause _ = false

module _ {World : Type 0} (host : Host World) where
  -- What is pending in the worktree is undone, or the worktree has to be clean.
  unfoldable pub undo_pending : Operation → M World (Unit {0})
  unfolding run_git assert_clean
  undo_pending o = do
    picking ← asks host.cherry_pick_head
    merging ← asks host.pending_merge_head
    if is_some picking
        then run_git host cherry_pick_abort
        else if is_some merging
        then run_git host merge_abort
        else when (not (is_absorption_pause o.state) && not o.overlay_rematerialized)
            (assert_clean host)

  -- `abortRebase`: the commit at the end.
  unfoldable pub abort_rebase : M World Text
  unfolding require_pending_rebase require_operation_branch undo_pending run_git release_anchors
      clear_state
  abort_rebase = do
    require_pending_rebase
    require_operation_branch host
    o ← gets (λ o. o)
    undo_pending o
    before ← asks host.head
    when (not (before == o.original_head)) (run_git host (reset_hard o.original_head))
    restored ← asks host.head
    throw_when (not (restored == o.original_head)) internal_invariant
    with_overlay o.target_overlay (λ tree. call (host.restore_overlay tree))
    release_anchors host
    clear_state
    pure restored

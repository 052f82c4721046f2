-- ===== src/RebaseJournal/Checks.antt =====
-- What the commands of src/rebase-operations.js check before they act: `requirePendingRebase`,
-- `currentBranch`, `requireOperationBranch` and the clean worktree; and what `rebaseStatus` counts.
use vcs_lab.Prelude.{
  ℕ, ◌-◌, not, Option, none, some, if◌then◌else◌, length, Text, codes, ◌==◌, take, drop,
}
use vcs_lab.Errors.{no_operation_pending, precondition_not_met, out_of_band_change, dirty_worktree}
use vcs_lab.RebaseJournal.{Operation, executable_steps}
use vcs_lab.RebaseJournal.Host.{Host}
use vcs_lab.RebaseJournal.Session.{M, ◌>>=◌, pure, gets, modify, asks, throw, throw_when}

-- `ref.slice("refs/heads/".length)`, of a ref below it.
unfoldable pub branch_name : Option Text → Option Text
branch_name none = none
branch_name (some ref) = if take 11 ref == codes "refs/heads/" then some (drop 11 ref) else none

-- What the status reports of the progress.
pub record Progress : Type 0 where
  pub completed : ℕ
  pub total : ℕ
  pub remaining : ℕ

-- `progress` of `rebaseStatus`; as many steps stand at or after an index as are left of it.
unfoldable pub progress_of : Operation → Progress
unfolding executable_steps
progress_of o = record {
  completed = o.executed_count;
  total = length (executable_steps o.queue);
  remaining = length (executable_steps o.queue) - o.executed_count;
}

module _ {World : Type 0} where
  -- `requirePendingRebase`.
  unfoldable pub load_journal : Option Operation → M World (Unit {0})
  load_journal none = throw no_operation_pending
  load_journal (some o) = modify (λ _. o)

  unfoldable pub require_pending_rebase : M World (Unit {0})
  unfolding load_journal
  require_pending_rebase s = load_journal s.disk s

  -- `if (approvedOverlay) ...`.
  abbrev pub with_overlay : Option Text → (Text → M World (Unit {0})) → M World (Unit {0})
  with_overlay none f = pure tt
  with_overlay (some overlay) f = f overlay

module _ {World : Type 0} (host : Host World) where
  abbrev pub from_branch : Option Text → Option Text → M World (Text × Text)
  from_branch (some ref) (some name) = pure (ref, name)
  from_branch _ _ = throw precondition_not_met

  -- `currentBranch`: the ref and its name.
  unfoldable pub current_branch : M World (Text × Text)
  unfolding branch_name
  current_branch = do ref ← asks host.head_ref; from_branch ref (branch_name ref)

  -- `requireOperationBranch`.
  unfoldable pub require_operation_branch : M World (Unit {0})
  unfolding current_branch
  require_operation_branch = do
    branch ← current_branch
    o ← gets (λ o. o)
    throw_when (not (branch.0 == o.source_branch_ref)) out_of_band_change

  unfoldable pub assert_clean : M World (Unit {0})
  assert_clean = do clean ← asks host.is_clean; throw_when (not clean) dirty_worktree

-- ===== src/RebaseJournal/Aborted.antt =====
-- `abortRebase` of src/rebase-operations.js: the original tip comes back, or the journal stays.
use vcs_lab.Prelude.{arith, ◌≡◌, refl, false, not, Option, none, some, Text, ◌==◌, ==_iff}
use vcs_lab.RebaseJournal.{Operation}
use vcs_lab.RebaseJournal.Host.{Host}
use vcs_lab.RebaseJournal.Session.{Session, pure, ◌>>=◌, ◌>>◌, call, clear_state}
use vcs_lab.RebaseJournal.Recording.{release_anchors}
use vcs_lab.RebaseJournal.Checks.{assert_clean, with_overlay}
use vcs_lab.RebaseJournal.Aborting.{undo_pending, abort_rebase}
use vcs_lab.RebaseJournal.Ledger.{Leaves}
use vcs_lab.RebaseJournal.Quiet.{
  Quiet, quiets, Quiet-if, Quiet-call, Quiet-pure, Quiet-asks, Quiet-when, run_git-Quiet,
  release_anchors-Quiet,
}
use vcs_lab.RebaseJournal.Checked.{
  Holds, Holds-bind, Holds-then, Holds-test, Holds-gets, require_pending-outcome,
  require_operation_branch-Quiet,
}

module _ {World : Type 0} (host : Host World) where
  -- What an abort reports: the journal was there, the commit is its original head, and it is gone.
  abbrev pub Aborted : Option Operation → Text → Session World → Type 0
  Aborted d restored t =
      ((o : Operation) × (d ≡ some o) × (restored ≡ o.original_head)) × (t.disk ≡ none)

  -- The journal is still there.
  abbrev pub Held : Option Operation → Session World → Type 0
  Held d t = t.disk ≡ d

  assert_clean-Quiet : Quiet (assert_clean host)
  unfolding assert_clean
  assert_clean-Quiet = search (quiets) depth 20

  undo_pending-Quiet : (o : Operation) → Quiet (undo_pending host o)
  unfolding undo_pending
  undo_pending-Quiet o = search (quiets, Quiet-if, run_git-Quiet, assert_clean-Quiet) depth 20

  overlay-Quiet :
      (o : Option Text) → Quiet (with_overlay o (λ tree. call (host.restore_overlay tree)))
  overlay-Quiet none = Quiet-pure tt
  overlay-Quiet (some tree) = Quiet-call _

  cleared-Holds :
      (d : Option Operation) (restored : Text)
      → ((o : Operation) × (d ≡ some o) × (restored ≡ o.original_head))
      → Holds d (Aborted d) (clear_state >> pure restored)
  unfolding clear_state pure ◌>>◌ ◌>>=◌
  cleared-Holds d restored back = record { holds = λ t at. (back, refl) }

  restored_of : (a b : Text) → not (a == b) ≡ false → a ≡ b
  restored_of a b h = (==_iff a b).0 (ground arith)

  -- The end: the anchors are released, then the journal is deleted.
  release-Holds :
      (d : Option Operation) (restored : Text)
      → ((o : Operation) × (d ≡ some o) × (restored ≡ o.original_head))
      → Holds d (Aborted d) (release_anchors host >> (clear_state >> pure restored))
  release-Holds d restored back =
      Holds-then (release_anchors-Quiet host) (cleared-Holds d restored back)

  -- An abort that returns read a journal, reports its original head as the restored commit, and
  -- deleted the journal; one that throws leaves the journal on disk as it was.
  pub abort_rebase-Aborted :
      (s : Session World)
      → Leaves (Aborted s.disk) (Held s.disk) (abort_rebase host s).0 (abort_rebase host s).1
  unfolding abort_rebase
  abort_rebase-Aborted s = require_pending-outcome (Aborted s.disk) _ s (
      Holds-then (require_operation_branch-Quiet host) (
        Holds-gets (λ o at. Holds-then (undo_pending-Quiet o) (
          Holds-bind (Quiet-asks _) (λ before. Holds-then (Quiet-when _ (run_git-Quiet host _)) (
            Holds-bind (Quiet-asks _) (λ restored. Holds-test _ _ (λ back.
              Holds-then (overlay-Quiet o.target_overlay) (
                release-Holds s.disk restored
                  (o, at, restored_of restored o.original_head back))))))))))

-- ===== src/RebaseJournal/Begun.antt =====
-- `startRebaseInSession` of src/rebase-operations.js: from the journal that the checks left to the receipt.
use vcs_lab.Prelude.{◌≡◌, refl, Option, none, some, List, Text}
use vcs_lab.RebasePlan.{RebasePlan}
use vcs_lab.RebaseProgram.{ProgramStep, rebase_program}
use vcs_lab.RebaseJournal.{reducing_overlay, resetting, running, Operation, Receipt}
use vcs_lab.RebaseJournal.Host.{reset_hard, Host}
use vcs_lab.RebaseJournal.Session.{Session, M, ◌>>=◌, ◌>>◌, gets, call, write_state, set_state}
use vcs_lab.RebaseJournal.Checks.{with_overlay}
use vcs_lab.RebaseJournal.Finishing.{run_rebase_queue}
use vcs_lab.RebaseJournal.Starting.{StartOptions, begin_queue, prepare, start_rebase}
use vcs_lab.RebaseJournal.Ledger.{DiskSound, Safe, Leaves}
use vcs_lab.RebaseJournal.Between.{Ready, outcome-bind}
use vcs_lab.RebaseJournal.Rounds.{outcome-weaken}
use vcs_lab.RebaseJournal.Quiet.{Quiet-call, Quiet-pure, run_git-Quiet}
use vcs_lab.RebaseJournal.Completed.{Returned, run_rebase_queue-Returned}
use vcs_lab.RebaseJournal.Checked.{Kept}
use vcs_lab.RebaseJournal.Checking.{
  outcome-map, Idles, Idles-Quiet, Idles-state, Idles-write, Idles-then,
}
use vcs_lab.RebaseJournal.Preparing.{Planned, Prepared, prepare-Prepared}

module _ {World : Type 0} (host : Host World) (options : StartOptions) where
  overlay_reduced-Idles :
      (q : List ProgramStep) (overlay : Option Text)
      → Idles q 0 (
          with_overlay overlay (λ tree.
            set_state reducing_overlay >> (write_state >> call (host.reduce_to_head tree))))
  overlay_reduced-Idles q none = Idles-Quiet q 0 (Quiet-pure tt)
  overlay_reduced-Idles q (some tree) =
      Idles-then q 0 (Idles-state q 0 _ refl)
        (Idles-then q 0 (Idles-write q 0) (Idles-Quiet q 0 (Quiet-call _)))

  -- The rest of the command, from the first step of the queue.
  record Runs (q : List ProgramStep) (m : M World (Option Receipt)) : Type 0 where
    pub returns : (t : Session World) → Ready q 0 t → Leaves (Returned host q) Kept (m t).0 (m t).1

  Runs-then :
      {q : List ProgramStep} {m : M World (Unit {0})} {f : M World (Option Receipt)}
      → Idles q 0 m
      → Runs q f
      → Runs q (m >> f)
  unfolding ◌>>◌ ◌>>=◌
  Runs-then {q = q} {m = m} {f = f} idles runs = record {
    returns = λ t ready.
        outcome-bind (λ _. Ready q 0) (Returned host q) Kept Kept (m t).0 (m t).1 (λ _. f)
          (idles.idles t ready) (λ _ u r. runs.returns u r) (λ _ e. e);
  }

  Runs-gets :
      {q : List ProgramStep} {f : Operation → M World (Option Receipt)}
      → ((o : Operation) → Runs q (f o))
      → Runs q (gets (λ o. o) >>= f)
  unfolding ◌>>=◌ gets
  Runs-gets h = record { returns = λ t ready. (h t.operation).returns t ready }

  Runs-queue : (q : List ProgramStep) → Runs q (run_rebase_queue host)
  Runs-queue q = record {
    returns = λ t ready.
        outcome-weaken (Returned host q) Safe Kept (run_rebase_queue host t).0
          (run_rebase_queue host t).1 (run_rebase_queue-Returned host t ready) (λ _ h. h.disk);
  }

  -- The branch moves, and the queue is where it was.
  begin_queue-Runs :
      (q : List ProgramStep) (overlay : Option Text) → Runs q (begin_queue host overlay)
  unfolding begin_queue
  begin_queue-Runs q overlay = Runs-then (overlay_reduced-Idles q overlay) (
      Runs-then (Idles-state q 0 resetting refl) (
        Runs-then (Idles-write q 0) (
          Runs-gets (λ o.
            Runs-then (Idles-Quiet q 0 (run_git-Quiet host (reset_hard o.onto_head))) (
              Runs-then (Idles-state q 0 running refl)
                (Runs-then (Idles-write q 0) (Runs-queue q)))))))

  -- What `startRebase` returns.
  pub record Begun (s : Session World) (r : Option Receipt) (t : Session World) : Type 0 where
    pub plan : RebasePlan
    pub vacant : s.disk ≡ none
    pub planned : Planned host options s.world plan
    pub returned : Returned host (rebase_program plan) r t

  -- A rebase that starts where the journal on disk is sound ends, and either throws and leaves a
  -- sound journal, or returns. If it returns, no journal was there before and none is there
  -- after; the planner gave a supported plan for the branch that is checked out; its candidates
  -- were accepted, or a stored forecast was named; and the receipt has one application for each
  -- pick of the plan's program and one entry for each recreated merge, in the order of the program,
  -- each application with the identity of its origin, unless it is a fork or the origin has none.
  pub start_rebase-Begun :
      (s : Session World)
      → DiskSound s.disk
      → Leaves (Begun s) Kept (start_rebase host options s).0 (start_rebase host options s).1
  unfolding start_rebase ◌>>=◌
  start_rebase-Begun s sound =
      outcome-bind (λ _. Prepared host options s) (Begun s) Kept Kept (prepare host options s).0
        (prepare host options s).1 (begin_queue host) (prepare-Prepared host options s sound)
        (λ overlay t (vacant, (plan, planned, ready)).
          outcome-map (Returned host (rebase_program plan)) (Begun s) Kept
            (begin_queue host overlay t).0 (begin_queue host overlay t).1
            ((begin_queue-Runs (rebase_program plan) overlay).returns t ready)
            (λ r u h. record { plan = plan; vacant = vacant; planned = planned; returned = h }))
        (λ _ h. h)

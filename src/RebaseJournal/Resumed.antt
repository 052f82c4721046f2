-- ===== src/RebaseJournal/Resumed.antt =====
-- `continueRebaseInSession` of src/rebase-operations.js, from a journal on disk.
use vcs_lab.Prelude.{
  ◌≡◌, refl, sym, ◌∙◌, ap, Bool, true, false, not, ◌&&◌, Option, none, some, suc, is_some,
}
use mathlib.Core.Path.{subst}
use vcs_lab.Errors.{ErrorCode}
use vcs_lab.RebaseJournal.{
  RunState, prepared, reducing_overlay, resetting, running, positioning, applying, conflicted,
  blocked, awaiting_message, awaiting_content, awaiting_absorption, forecast_mismatch,
  identity_mismatch, Operation, Receipt,
}
use vcs_lab.RebaseJournal.Host.{Host}
use vcs_lab.RebaseJournal.Session.{Session, M, throw, ◌>>=◌, ◌>>◌, bind_result, gets, throw_when}
use vcs_lab.RebaseJournal.Checks.{load_journal, require_pending_rebase, require_operation_branch}
use vcs_lab.RebaseJournal.Finishing.{run_rebase_queue}
use vcs_lab.RebaseJournal.Continuing.{
  ContinueOptions, is_conflicted, continue_conflicted, continue_from, continue_rebase,
}
use vcs_lab.RebaseJournal.Ledger.{
  awaits, is_continuable, ledger, FitsKind, item_kind, Resumable, IsTracked, IsSound, DiskSound,
  Safe, Leaves, Started,
}
use vcs_lab.RebaseJournal.Between.{Ready, Spoiled, outcome-bind}
use vcs_lab.RebaseJournal.Ending.{Ends}
use vcs_lab.RebaseJournal.Rounds.{outcome-weaken}
use vcs_lab.RebaseJournal.Quiet.{Quiet, Quiet-throw_when}
use vcs_lab.RebaseJournal.Checked.{
  same_journal, Kept, unchanged_after, Loaded, load_journal-Loaded, require_operation_branch-Quiet,
}
use vcs_lab.RebaseJournal.Completed.{Returned, run_rebase_queue-Returned}
use vcs_lab.RebaseJournal.Continued.{
  complete_reword-Ends, complete_edit-Ends, complete_absorption-Ends, continue_conflicted-Ends,
}

module _ {World : Type 0} where
  throws-first :
      {B : Type 0} (Q : B → Session World → Type 0) (E : Session World → Type 0) (b : Bool)
      (c : ErrorCode) (s : Session World) (f : Unit {0} → M World B)
      → b ≡ true
      → E s
      → Leaves Q E
          (bind_result (throw_when b c s).0 (throw_when b c s).1 f).0
          (bind_result (throw_when b c s).0 (throw_when b c s).1 f).1
  unfolding throw_when throw
  throws-first Q E true c s f h e = e
  throws-first Q E false c s f h e = absurd (cc h)

  module _ (host : Host World) (options : ContinueOptions) where
    -- What the rest of the step leaves: the queue can go on after it.
    abbrev Passed : Session World → Session World → Type 0
    Passed s t = Ready s.operation.queue (suc s.operation.next_index) t

    resumed-Passed :
        (m : M World (Unit {0})) (s : Session World) (k : Bool)
        → IsTracked (ledger s.operation)
        → item_kind (ledger s.operation) ≡ some k
        → FitsKind k s.operation.current
        → (awaits s.operation.state ≡ true → k ≡ false)
        → DiskSound s.disk
        → ((started : Started (ledger s.operation) k) → Ends (ledger s.operation) k false m)
        → Leaves (λ _. Passed s) Kept (m s).0 (m s).1
    resumed-Passed m s k tracked kind fits waits disk ends =
        outcome-weaken (λ _. Passed s) (Spoiled false) Kept (m s).0 (m s).1
          ((ends (record { tracked = tracked; kind = kind })).finishes s (record {
            same = refl;
            fits = fits;
            waits = waits;
            applies = λ h. absurd (cc h);
            disk = disk;
          }))
          (λ t h. h.disk)

    -- A pause waits on a pick.
    pause-Passed :
        (m : M World (Unit {0})) (s : Session World)
        → awaits s.operation.state ≡ true
        → Resumable s.operation
        → DiskSound s.disk
        → ((started : Started (ledger s.operation) false) → Ends (ledger s.operation) false false m)
        → Leaves (λ _. Passed s) Kept (m s).0 (m s).1
    pause-Passed m s paused (tracked, (k, kind, fits, waits)) disk ends =
        resumed-Passed m s false tracked (kind ∙ ap some (waits paused))
          (subst (λ b. FitsKind b s.operation.current) (waits paused) fits) (λ _. refl) disk ends

    -- In any other state the command is refused.
    refused-Passed :
        (s : Session World)
        → is_conflicted s.operation.state ≡ false
        → DiskSound s.disk
        → Leaves
            (λ _. Passed s)
            Kept
            (continue_conflicted host options s).0
            (continue_conflicted host options s).1
    unfolding continue_conflicted ◌>>=◌ ◌>>◌ gets
    refused-Passed s h disk =
        throws-first _ Kept _ _ s _ (ap (λ b. not (b && is_some s.operation.current)) h) disk

    conflict-Passed :
        (s : Session World)
        → Resumable s.operation
        → DiskSound s.disk
        → Leaves
            (λ _. Passed s)
            Kept
            (continue_conflicted host options s).0
            (continue_conflicted host options s).1
    conflict-Passed s (tracked, (k, kind, fits, waits)) disk =
        resumed-Passed _ s k tracked kind fits waits disk
          (λ started. continue_conflicted-Ends host options k ⦃started = started⦄)

    continue_from-Passed :
        (state : RunState) (s : Session World)
        → s.operation.state ≡ state
        → IsSound s.operation
        → DiskSound s.disk
        → Leaves
            (λ _. Passed s)
            Kept
            (continue_from host state options s).0
            (continue_from host state options s).1
    unfolding continue_from
    continue_from-Passed conflicted s at sound disk =
        conflict-Passed s (sound.resume (ap is_continuable at)) disk
    continue_from-Passed awaiting_message s at sound disk =
        pause-Passed _ s (ap awaits at) (sound.resume (ap is_continuable at)) disk
          (λ started. complete_reword-Ends ⦃started = started⦄ host options.message)
    continue_from-Passed awaiting_content s at sound disk =
        pause-Passed _ s (ap awaits at) (sound.resume (ap is_continuable at)) disk
          (λ started. complete_edit-Ends ⦃started = started⦄ host options.message)
    continue_from-Passed awaiting_absorption s at sound disk =
        pause-Passed _ s (ap awaits at) (sound.resume (ap is_continuable at)) disk
          (λ started. complete_absorption-Ends ⦃started = started⦄ host)
    continue_from-Passed prepared s at sound disk = refused-Passed s (ap is_conflicted at) disk
    continue_from-Passed reducing_overlay s at sound disk =
        refused-Passed s (ap is_conflicted at) disk
    continue_from-Passed resetting s at sound disk = refused-Passed s (ap is_conflicted at) disk
    continue_from-Passed running s at sound disk = refused-Passed s (ap is_conflicted at) disk
    continue_from-Passed positioning s at sound disk = refused-Passed s (ap is_conflicted at) disk
    continue_from-Passed applying s at sound disk = refused-Passed s (ap is_conflicted at) disk
    continue_from-Passed blocked s at sound disk = refused-Passed s (ap is_conflicted at) disk
    continue_from-Passed forecast_mismatch s at sound disk =
        refused-Passed s (ap is_conflicted at) disk
    continue_from-Passed identity_mismatch s at sound disk =
        refused-Passed s (ap is_conflicted at) disk

    abbrev pub Continued : Option Operation → Option Receipt → Session World → Type 0
    Continued none r t = ⊥
    Continued (some o) r t = Returned host o.queue r t

    Loaded-ends :
        (d : Option Operation) (state : RunState) (s : Session World)
        → Loaded d s.operation s.disk
        → s.operation.state ≡ state
        → DiskSound d
        → Leaves
            (Continued d)
            Kept
            ((continue_from host state options >> run_rebase_queue host) s).0
            ((continue_from host state options >> run_rebase_queue host) s).1
    unfolding ◌>>◌ ◌>>=◌
    Loaded-ends none state s loaded at sound = absurd (cc loaded.0)
    Loaded-ends (some o) state s loaded at sound =
        outcome-bind (λ _. Passed s) (Returned host o.queue) Kept Kept
          (continue_from host state options s).0 (continue_from host state options s).1
          (λ _. run_rebase_queue host)
          (continue_from-Passed state s at (subst DiskSound loaded.0 sound)
            (subst DiskSound (sym loaded.1) sound))
          (λ _ t ready.
            outcome-weaken (Returned host o.queue) Safe Kept (run_rebase_queue host t).0
              (run_rebase_queue host t).1
              (subst
                (λ (p : Operation).
                  Leaves (Returned host p.queue) Safe (run_rebase_queue host t).0
                    (run_rebase_queue host t).1)
                (sym (same_journal loaded.0)) (run_rebase_queue-Returned host t ready))
              (λ _ h. h.disk))
          (λ _ h. h)

    -- A quiet check after the journal was read.
    checked :
        {A B : Type 0} (d : Option Operation) (m : M World A) (f : A → M World B)
        (Q : B → Session World → Type 0) (s : Session World)
        → Quiet m
        → DiskSound d
        → Loaded d s.operation s.disk
        → ((x : A) (t : Session World)
            → Loaded d t.operation t.disk
            → Leaves Q Kept (f x t).0 (f x t).1)
        → Leaves Q Kept (bind_result (m s).0 (m s).1 f).0 (bind_result (m s).0 (m s).1 f).1
    checked d m f Q s quiet sound loaded h =
        outcome-bind (λ _ t. Loaded d t.operation t.disk) Q (λ t. Loaded d t.operation t.disk) Kept
          (m s).0 (m s).1 f (unchanged_after (Loaded d) m s quiet loaded) h
          (λ t k. subst DiskSound (sym k.1) sound)

    -- From a sound journal on disk a continued rebase ends, and either throws and leaves a sound
    -- journal, or returns. If it returns, there was a journal, it is gone, and the receipt has one
    -- application for each pick of its queue and one entry for each merge, in the order of the
    -- queue and whatever was applied before the pause, each application with the identity of its
    -- origin, unless it is a fork or the origin has none.
    pub continue_rebase-Continued :
        (s : Session World)
        → DiskSound s.disk
        → Leaves
            (Continued s.disk)
            Kept
            (continue_rebase host options s).0
            (continue_rebase host options s).1
    unfolding continue_rebase require_pending_rebase ◌>>=◌ ◌>>◌ gets
    continue_rebase-Continued s sound =
        outcome-bind (λ _ t. Loaded s.disk t.operation t.disk) (Continued s.disk)
          (λ t. t.disk ≡ s.disk) Kept (load_journal s.disk s).0 (load_journal s.disk s).1 _
          (load_journal-Loaded s.disk s refl)
          (λ _ t loaded.
            checked s.disk (throw_when (not (host.spec_decisions_current t.operation)) _) _
              (Continued s.disk) t (Quiet-throw_when _ _) sound loaded
              (λ _ u here.
                checked s.disk (require_operation_branch host) _ (Continued s.disk) u
                  (require_operation_branch-Quiet host) sound here
                  (λ _ v last.
                    Loaded-ends s.disk t.operation.state v last
                      (ap (λ (o : Operation). o.state) (same_journal (sym last.0 ∙ loaded.0)))
                      sound)))
          (λ t h. subst DiskSound (sym h) sound)

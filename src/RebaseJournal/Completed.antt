-- ===== src/RebaseJournal/Completed.antt =====
-- What the receipt of `finalizeRebase` accounts for, and what `runRebaseQueue` returns.
use vcs_lab.Prelude.{
  if◌then◌else◌, ◌≡◌, refl, sym, ◌∙◌, ap, arith, ℕ, ◌≤◌, Bool, true, false, Option, none, some,
  List, map, Text, length, All,
}
use mathlib.Core.Path.{subst}
use vcs_lab.Errors.{ErrorCode, Result, ok, err}
use vcs_lab.RebaseProgram.{ProgramStep}
use vcs_lab.RebaseJournal.{Operation, Receipt}
use vcs_lab.RebaseJournal.Host.{Host}
use vcs_lab.RebaseJournal.Session.{
  Session, M, pure, throw, ◌>>=◌, ◌>>◌, gets, modify, asks, call, perform, when, write_state,
  clear_state, catch,
}
use vcs_lab.RebaseJournal.Approval.{mark_mismatch}
use vcs_lab.RebaseJournal.Recording.{release_anchors}
use vcs_lab.RebaseJournal.Stepping.{leave, run_rounds}
use vcs_lab.RebaseJournal.Finishing.{
  overlay_restored, restore_draft, final_receipt, publish, finalize_rebase, finish_queue,
  run_rebase_queue, misses, predicted_tree,
}
use vcs_lab.RebaseJournal.Ledger.{
  is_continuable, Ledger, ledger, IsTracked, KeepsIdentity, pick_commits, merge_commits, first,
  Safe, IsSound, DiskSound, Leaves, Leaves-same,
}
use vcs_lab.RebaseJournal.Accounting.{first-length}
use vcs_lab.RebaseJournal.Between.{Ready, outcome-bind, idle-IsSound}
use vcs_lab.RebaseJournal.Quiet.{Quiet, publish-Quiet, release_anchors-Quiet}
use vcs_lab.RebaseJournal.Rounds.{outcome-catch}
use vcs_lab.RebaseJournal.Loop.{Exhausted, Ended, run_rounds-Ended}

-- The receipt names one application for each pick of the queue and one entry for each merge, in the order
-- of the queue, and each application kept the identity of its origin, unless it is a fork or has none.
pub record Accounts (q : List ProgramStep) (r : Receipt) : Type 0 where
  pub applications_exact : map (λ a. a.origin_commit) r.applications ≡ pick_commits q
  pub merges_exact : map (λ m. m.origin_commit) r.recreated_merges ≡ merge_commits q
  pub identities_kept : All KeepsIdentity r.applications

module _ {World : Type 0} where
  -- The queue is done and the receipt is not yet published.
  pub record Closing (l : Ledger) (s : Session World) : Type 0 where
    pub same : ledger s.operation ≡ l
    pub idle : is_continuable s.operation.state ≡ false
    pub disk : DiskSound s.disk

  closing-mismatch :
      {A : Type 0} (Q : A → Session World → Type 0) (s : Session World)
      → Leaves Q Safe (mark_mismatch {A = A} s).0 (mark_mismatch {A = A} s).1
  unfolding mark_mismatch ◌>>◌ ◌>>=◌ modify write_state throw
  closing-mismatch Q s = record { memory = idle-IsSound refl; disk = idle-IsSound refl }

  Closing-of :
      {l : Ledger} (b : Bool) (s : Session World)
      → Closing l s
      → Leaves (λ _. Closing l) Safe (when b mark_mismatch s).0 (when b mark_mismatch s).1
  unfolding when pure
  Closing-of {l} true s c = closing-mismatch (λ _. Closing l) s
  Closing-of false s c = c

  Safe-if : (b : Bool) (s t : Session World) → Safe s → Safe t → Safe (if b then s else t)
  Safe-if true s t h k = h
  Safe-if false s t h k = k

  recorded-Ready :
      {q : List ProgramStep} {n : ℕ} {b : Bool} {s : Session World}
      → Ready q n s
      → Ready q n (record s { recorded = b })
  recorded-Ready r = record {
    tracked = r.tracked;
    queue = r.queue;
    index = r.index;
    idle = r.idle;
    vacant = r.vacant;
    disk = r.disk;
  }

  recorded-Exhausted :
      {q : List ProgramStep} {b : Bool} {s : Session World}
      → Exhausted q s
      → Exhausted q (record s { recorded = b })
  recorded-Exhausted e = record { last = e.last; ready = recorded-Ready e.ready; at_end = e.at_end }

  module _ (host : Host World) where
    overlay_restored-Closing :
        {l : Ledger} (tree : Option Text) (s : Session World)
        → Closing l s
        → Leaves
            (λ _. Closing l)
            Safe
            (overlay_restored host tree s).0
            (overlay_restored host tree s).1
    unfolding overlay_restored ◌>>◌ ◌>>=◌ modify write_state gets
    overlay_restored-Closing {l} none s c = closing-mismatch (λ _. Closing l) s
    overlay_restored-Closing (some tree) s c =
        Closing-of _ _ (record { same = c.same; idle = c.idle; disk = idle-IsSound c.idle })

    restore_draft-Closing :
        {l : Ledger} (overlay : Option Text) (base tree : Text) (s : Session World)
        → Closing l s
        → Leaves
            (λ _. Closing l)
            Safe
            (restore_draft host overlay base tree s).0
            (restore_draft host overlay base tree s).1
    unfolding restore_draft ◌>>◌ ◌>>=◌ call pure
    restore_draft-Closing none base tree s c = c
    restore_draft-Closing {l} (some overlay) base tree s c =
        let merged = host.materialize_overlay overlay base tree s.world in
        outcome-bind (λ _. Closing l) (λ _. Closing l) Safe Safe merged.0
          (record s { world = merged.1 }) (overlay_restored host)
          (both merged.0 (record s { world = merged.1 })
            (record { same = c.same; idle = c.idle; disk = c.disk }))
          (λ restored t d. overlay_restored-Closing restored t d) (λ _ h. h)
      where
        both :
            {A : Type 0} (r : Result A) (t : Session World)
            → Closing l t
            → Leaves (λ _. Closing l) Safe r t
        both (ok x) t c = c
        both (err e) t c = record { memory = idle-IsSound c.idle; disk = c.disk }

    Quiet-Safe :
        {A : Type 0} (m : M World A) (s : Session World)
        → Quiet m
        → Safe s
        → Leaves (λ _. Safe) Safe (m s).0 (m s).1
    Quiet-Safe m s q h = Leaves-same Safe (m s).0 (m s).1 (record {
      memory = subst IsSound (sym (q.files s).0) h.memory;
      disk = subst DiskSound (sym (q.files s).1) h.disk;
    })

    -- What `finalizeRebase` returns; the journal is gone by then, and sound if it throws.
    abbrev pub Finalized : List ProgramStep → Receipt → Session World → Type 0
    Finalized q r t = Accounts q r × (t.disk ≡ none)

    publish_all :
        (q : List ProgramStep) (r : Receipt) (s : Session World)
        → Accounts q r
        → Safe s
        → Leaves
            (Finalized q)
            Safe
            ((publish host r >> (release_anchors host >> (clear_state >> pure r))) s).0
            ((publish host r >> (release_anchors host >> (clear_state >> pure r))) s).1
    unfolding ◌>>◌ ◌>>=◌ clear_state pure
    publish_all q r s accounts d =
        outcome-bind (λ _. Safe) (Finalized q) Safe Safe (publish host r s).0 (publish host r s).1
          (λ _. release_anchors host >> (clear_state >> pure r))
          (Quiet-Safe (publish host r) s (publish-Quiet host r) d)
          (λ _ t e.
            outcome-bind (λ _. Safe) (Finalized q) Safe Safe (release_anchors host t).0
              (release_anchors host t).1 (λ _. clear_state >> pure r)
              (Quiet-Safe (release_anchors host) t (release_anchors-Quiet host) e)
              (λ _ v f. (accounts, refl)) (λ _ h. h))
          (λ _ h. h)

    -- The receipt of an operation whose queue is done.
    final_receipt-Accounts :
        {q : List ProgramStep} (o : Operation) (l : Ledger) (id commit tree : Text)
        → ledger o ≡ l
        → IsTracked l
        → l.queue ≡ q
        → length q ≤ l.next_index
        → Accounts q (final_receipt o id commit tree)
    unfolding final_receipt
    final_receipt-Accounts {q} o l id commit tree same tracked queue at_end =
        let whole : first l.next_index l.queue ≡ q =
          ap (first l.next_index) queue ∙ first-length q l.next_index at_end in
        record {
          applications_exact =
              ap (λ (m : Ledger). map (λ a. a.origin_commit) m.applied) same
              ∙ tracked.applied_exact
              ∙ ap pick_commits whole;
          merges_exact =
              ap (λ (m : Ledger). map (λ e. e.origin_commit) m.merges) same
              ∙ tracked.merges_exact
              ∙ ap merge_commits whole;
          identities_kept =
              subst (λ (m : Ledger). All KeepsIdentity m.applied) (sym same)
                tracked.identities_kept;
        }

    finalize_rebase-Finalized :
        {q : List ProgramStep} (s : Session World)
        → Exhausted q s
        → Leaves (Finalized q) Safe (finalize_rebase host s).0 (finalize_rebase host s).1
    unfolding finalize_rebase ◌>>◌ ◌>>=◌ asks gets perform
    finalize_rebase-Finalized {q} s e =
        let l = ledger s.operation in
        let tree = host.tree_of (host.head s.world) s.world in
        outcome-bind (λ _. Closing l) (Finalized q) Safe Safe _ _ _
          (Closing-of (misses (predicted_tree s.operation.forecast_approval) tree) s
            (record { same = refl; idle = e.ready.idle; disk = e.ready.disk }))
          (λ _ t c.
            outcome-bind (λ _. Closing l) (Finalized q) Safe Safe _ _ _
              (restore_draft-Closing s.operation.target_overlay s.operation.plan.source_tree tree t
                c)
              (λ _ v d.
                publish_all q (final_receipt v.operation _ (host.head s.world) tree) _
                  (final_receipt-Accounts v.operation l _ _ _ d.same e.ready.tracked e.ready.queue
                    (subst (λ n. length q ≤ n) (sym e.ready.index) e.at_end))
                  (record { memory = idle-IsSound d.idle; disk = d.disk }))
              (λ _ h. h))
          (λ _ h. h)

    -- What `runRebaseQueue` returns: a receipt, since the fuel does not run out.
    abbrev pub Returned : List ProgramStep → Option Receipt → Session World → Type 0
    Returned q none t = ⊥
    Returned q (some r) t = Finalized q r t

    finish_queue-Returned :
        {q : List ProgramStep} (done : Bool) (s : Session World)
        → Ended q done s
        → Leaves (Returned q) Safe (finish_queue host done s).0 (finish_queue host done s).1
    unfolding finish_queue ◌>>◌ ◌>>=◌ pure
    finish_queue-Returned {q} false s e = absurd (cc e.0)
    finish_queue-Returned {q} true s e =
        let at_end = record s { recorded = true } in
        outcome-bind (Finalized q) (Returned q) Safe Safe (finalize_rebase host at_end).0
          (finalize_rebase host at_end).1 (λ receipt. pure (some receipt))
          (finalize_rebase-Finalized at_end (recorded-Exhausted e.1)) (λ r t f. f) (λ _ h. h)

    -- The handler writes the journal, unless it was done.
    leave-Safe :
        {A : Type 0} (Q : A → Session World → Type 0) (c : ErrorCode) (t : Session World)
        → Safe t
        → Leaves Q Safe (leave {A = A} c t).0 (leave {A = A} c t).1
    unfolding leave write_state
    leave-Safe Q c t h =
        Safe-if t.recorded t (record t { disk = some t.operation }) h
          (record { memory = h.memory; disk = h.memory })

    -- With no step under way and no pause, every step before the cursor accounted for and a sound
    -- journal on disk, the loop over the queue does not run out of fuel, which is the length of
    -- the queue: it throws and leaves a sound journal, or returns a receipt that accounts for the
    -- whole queue, with the journal gone.
    pub run_rebase_queue-Returned :
        {q : List ProgramStep} {n : ℕ} (s : Session World)
        → Ready q n s
        → Leaves (Returned q) Safe (run_rebase_queue host s).0 (run_rebase_queue host s).1
    unfolding run_rebase_queue ◌>>◌ ◌>>=◌ gets catch
    run_rebase_queue-Returned {q} {n} s r =
        let begun = record s { recorded = false } in
        let body = run_rounds host (length s.operation.queue) >>= finish_queue host in
        outcome-catch (Returned q) Safe Safe (body begun).0 (body begun).1 leave
          (outcome-bind (Ended q) (Returned q) Safe Safe
            (run_rounds host (length s.operation.queue) begun).0
            (run_rounds host (length s.operation.queue) begun).1 (finish_queue host)
            (run_rounds-Ended host (length s.operation.queue) n begun (recorded-Ready r)
              (omega (arith, ap length r.queue)))
            (λ done t e. finish_queue-Returned done t e) (λ _ h. h))
          (λ c t h. leave-Safe (Returned q) c t h)

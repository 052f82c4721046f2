-- ===== src/RebaseJournal/Continued.antt =====
-- The branches of `continueRebaseInSession`: each ends the step at the cursor.
use vcs_lab.Prelude.{◌≡◌, refl, sym, ◌∙◌, ap, Bool, true, false, Option, none, some, Text, is_some}
use vcs_lab.RebaseProgram.{MergeChange, ProgramStep}
use vcs_lab.RebaseJournal.{Join, Current, change_of, get_elem?}
use vcs_lab.RebaseJournal.Host.{Host}
use vcs_lab.RebaseJournal.Session.{M, ◌>>=◌, gets, modify, current_item}
use vcs_lab.RebaseJournal.Continuing.{
  ContinueOptions, required_message, check_reword, complete_reword, add_amendment, complete_edit,
  refuse_unresolved, complete_absorption, check_pending, capture_staged, fork_identity,
  fork_merge_message, continue_step, continue_conflicted,
}
use vcs_lab.RebaseJournal.Ledger.{At, Ledger, Started}
use vcs_lab.RebaseJournal.Rules.{
  Stays, stays, stops, Stays-throw, Stays-bind, Stays-pure, Stays-asks, Stays-gets, Stays-call,
  Stays-write_state, Stays-throw_when, Stays-when, Stays-Stops, Stays-perform, Under-Safe,
  Stays-lift,
}
use vcs_lab.RebaseJournal.Kept.{
  run_git-Stays, set_absorption-Stays, the_absorption-Stays, absorb_outstanding-Stays,
  commit_recreated_merge-Stays,
}
use vcs_lab.RebaseJournal.Between.{Spoiled, Safe-Spoiled, from_some-outcome}
use vcs_lab.RebaseJournal.Ending.{
  Ends, Ends-bind, Ends-then, Ends-current, finish_surviving_step-Ends, record_successful-Ends,
  record_merge-Ends,
}

module _ {World : Type 0} {l : Ledger} {k : Bool} ⦃started : Started l k⦄ (host : Host World) where
  required_message-Stays :
      (o : Option Text) → Stays l k false (required_message {World = World} host o)
  unfolding required_message
  required_message-Stays none = Stays-throw _
  required_message-Stays (some text) = Stays-pure text

  check_reword-Stays :
      (after : Text) (before : Option Text) → Stays l k false (check_reword host after before)
  unfolding check_reword
  check_reword-Stays after none = Stays-Stops (search (stops) depth 20)
  check_reword-Stays after (some before) = Stays-when _ (Stays-Stops (search (stops) depth 20))

  add_amendment-Stays :
      (change : MergeChange) (commit after : Text) (before : Option Text)
      → Stays l k false (add_amendment host change commit after before)
  unfolding add_amendment modify
  add_amendment-Stays change commit after before = Stays-when _ (
      Stays-bind (Stays-perform _) (λ id. record {
        holds = λ s u. record {
          same = u.same;
          fits = u.fits;
          waits = u.waits;
          applies = u.applies;
          disk = u.disk;
        };
      }))

  refuse_unresolved-Stays : Stays l k false (refuse_unresolved host)
  unfolding refuse_unresolved
  refuse_unresolved-Stays = search (stays) depth 20

  check_pending-Stays :
      (current : Current) (join : Option Join) → Stays l k false (check_pending host current join)
  unfolding check_pending
  check_pending-Stays current none = search (stays) depth 20
  check_pending-Stays current (some join) = search (stays) depth 20

  capture_staged-Stays : Stays l k false (capture_staged host)
  unfolding capture_staged
  capture_staged-Stays = search (stays) depth 20

  fork_identity-Stays : (o : Option Text) → Stays l k false (fork_identity host o)
  unfolding fork_identity
  fork_identity-Stays none = Stays-perform _
  fork_identity-Stays (some id) = Stays-pure id

  fork_merge_message-Stays : Stays l k false (fork_merge_message host)
  unfolding fork_merge_message
  fork_merge_message-Stays = search (stays, fork_identity-Stays, run_git-Stays) depth 20

  -- The rest of a step reads the item at the cursor.
  Ends-item :
      {f : ProgramStep → M World (Unit {0})}
      → ((item : ProgramStep) → At l item → Ends l k false (f item))
      → Ends l k false (current_item >>= f)
  unfolding ◌>>=◌ gets
  Ends-item {f = f} h = record {
    finishes = λ s u.
        from_some-outcome _ (Spoiled false) (get_elem? s.operation.queue s.operation.next_index) s f
          (Safe-Spoiled s (Under-Safe {l = l} {k = k} {a = false} u))
          (λ item at.
            (h item
                (sym (ap (λ (o : Ledger). get_elem? o.queue o.next_index) u.same) ∙ at)).finishes
              s u);
  }

module _ {World : Type 0} {l : Ledger} ⦃started : Started l false⦄ (host : Host World) where
  pub complete_reword-Ends :
      (message : Option Text) → Ends l false false (complete_reword host message)
  unfolding complete_reword
  complete_reword-Ends message = Ends-item host (λ item at.
      Ends-bind (required_message-Stays host _) (λ text. Ends-bind (Stays-lift _) (λ composed.
        Ends-then (Stays-lift _) (
          Ends-bind (Stays-perform _) (λ amended. Ends-then (Stays-throw_when _ _) (
            Ends-bind (Stays-asks _) (λ head. Ends-bind (Stays-asks _) (λ after.
              Ends-current (λ current fits.
                Ends-then (check_reword-Stays host after current.tree_before_edit)
                  (record_successful-Ends host _))))))))))

  pub complete_edit-Ends : (message : Option Text) → Ends l false false (complete_edit host message)
  unfolding complete_edit
  complete_edit-Ends message = Ends-item host (λ item at. Ends-then (Stays-throw_when _ _) (
      Ends-bind (Stays-perform _) (λ staged. Ends-then (Stays-throw_when _ _) (
        Ends-bind (Stays-asks _) (λ commit. Ends-bind (Stays-asks _) (λ after.
          Ends-current (λ current fits.
            Ends-then (add_amendment-Stays host (change_of item) commit after _)
              (record_successful-Ends host _))))))))

  pub complete_absorption-Ends : Ends l false false (complete_absorption host)
  unfolding complete_absorption
  complete_absorption-Ends = Ends-then (refuse_unresolved-Stays host) (
      Ends-bind (the_absorption-Stays host) (λ absorption. Ends-bind (Stays-call _) (λ outcomes.
        Ends-then (set_absorption-Stays host _) (
          Ends-then (search (stays)) (
            Ends-then Stays-write_state (
              Ends-then (absorb_outstanding-Stays host refl) (finish_surviving_step-Ends host)))))))

module _ {World : Type 0} {l : Ledger} (host : Host World) (options : ContinueOptions) where
  continue_step-Ends :
      (k : Bool) ⦃started : Started l k⦄ (join : Option Join)
      → is_some join ≡ k
      → Ends l k false (continue_step host options join)
  unfolding continue_step
  continue_step-Ends true (some join) fits = Ends-then (Stays-throw_when _ _) (
      Ends-item host (λ item at.
        Ends-then (commit_recreated_merge-Stays host (change_of item))
          (record_merge-Ends host item (change_of item) join.parents false at refl)))
  continue_step-Ends false none fits = Ends-current (λ before fits.
      Ends-then (Stays-when _ (fork_merge_message-Stays host)) (
        Ends-bind (Stays-perform _) (λ continued.
          Ends-then (Stays-throw_when _ _)
            (Ends-current (λ current fits. record_successful-Ends host _)))))
  continue_step-Ends false (some join) fits = absurd (cc fits)
  continue_step-Ends true none fits = absurd (cc fits)

  pub continue_conflicted-Ends :
      (k : Bool) ⦃started : Started l k⦄ → Ends l k false (continue_conflicted host options)
  unfolding continue_conflicted
  continue_conflicted-Ends k = Ends-bind (Stays-gets _) (λ o. Ends-then (Stays-throw_when _ _) (
      Ends-then (refuse_unresolved-Stays host) (
        Ends-current (λ current fits.
          Ends-then (check_pending-Stays host current current.join)
            (Ends-then (capture_staged-Stays host) (continue_step-Ends k current.join fits))))))

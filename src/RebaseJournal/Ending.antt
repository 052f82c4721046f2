-- ===== src/RebaseJournal/Ending.antt =====
-- The rules by which the rest of a step records it: what is left of the step passes the cursor, or throws.
use vcs_lab.Prelude.{
  ◌≡◌, refl, suc, Bool, true, false, Option, none, some, List, [], ◌∷◌, if◌then◌else◌, is_some,
}
use mathlib.Core.Path.{subst}
use vcs_lab.Errors.{Result, ok, err}
use vcs_lab.Interactive.{Action, reword, edit}
use vcs_lab.RebaseProgram.{MergeChange, ProgramStep}
use vcs_lab.RebaseJournal.{Relation, MergeParent, Join, Current, Conflict, Candidate, change_of}
use vcs_lab.RebaseJournal.Host.{Host, SpecPlanView}
use vcs_lab.RebaseJournal.Session.{Session, M, ◌>>=◌, ◌>>◌, gets, the_current}
use vcs_lab.RebaseJournal.Recording.{record_successful_application, record_recreated_merge}
use vcs_lab.RebaseJournal.Approving.{
  record_resolved, apply_choices, commit_resolved, materialize_specs,
}
use vcs_lab.RebaseJournal.Absorbing.{finish_unpaused, finish_action, finish_surviving_step}
use vcs_lab.RebaseJournal.Stepping.{finish_phase, block_join, finish_join}
use vcs_lab.RebaseJournal.Ledger.{At, Ledger, FitsKind, Safe, Under, Leaves, Started}
use vcs_lab.RebaseJournal.Rules.{
  Stays, Stops, stays, Under-weaken, Under-Safe, Stays-bind, Stays-then, Stays-pure, Stays-asks,
  Stays-call, Stays-set_current, Stays-write_state, Stays-throw_when, Stays-set_state, Stops-then,
  Stops-throw, Stays-when, Stays-Stops,
}
use vcs_lab.RebaseJournal.Kept.{
  validate_forecast_after-Stays, interactive_pause-Stops, commit_recreated_merge-Stays,
  materialize_choices-Stays,
}
use vcs_lab.RebaseJournal.Between.{Ready, Spoiled, Safe-Spoiled, outcome-bind, from_some-outcome}
use vcs_lab.RebaseJournal.Recorded.{
  record_successful_application-Ready, record_recreated_merge-Ready,
}

module _ {World : Type 0} (l : Ledger) (k : Bool) where
  pub record Ends (a : Bool) (m : M World (Unit {0})) : Type 0 where
    pub finishes :
        (s : Session World)
        → Under l k a s
        → Leaves (λ _. Ready l.queue (suc l.next_index)) (Spoiled a) (m s).0 (m s).1

fits-of :
    {k : Bool} {o : Option Current} {c : Current} → FitsKind k o → o ≡ some c → is_some c.join ≡ k
fits-of {k = k} fits at = subst (FitsKind k) at fits

never-ends :
    {World : Type 0} (a : Bool) {A : Type 0} (Q : A → Session World → Type 0) (r : Result A)
    (s : Session World)
    → Leaves (λ _ t. ⊥) Safe r s
    → Leaves Q (Spoiled a) r s
never-ends a Q (ok x) s h = absurd h
never-ends a Q (err c) s h = Safe-Spoiled s h

module _ {World : Type 0} {l : Ledger} {k : Bool} ⦃started : Started l k⦄ where
  pub Ends-bind :
      {a : Bool} {A : Type 0} {m : M World A} {f : A → M World (Unit {0})}
      → Stays l k a m
      → ((x : A) → Ends l k a (f x))
      → Ends l k a (m >>= f)
  unfolding ◌>>=◌
  Ends-bind {a = a} {m = m} {f = f} hm hf = record {
    finishes = λ s u.
        outcome-bind (λ _. Under l k a) _ Safe (Spoiled a) (m s).0 (m s).1 f (hm.holds s u)
          (λ x t v. (hf x).finishes t v) Safe-Spoiled;
  }

  pub Ends-then :
      {a : Bool} {m n : M World (Unit {0})} → Stays l k a m → Ends l k a n → Ends l k a (m >> n)
  unfolding ◌>>◌ ◌>>=◌
  Ends-then {a = a} {m = m} {n = n} hm hn = record {
    finishes = λ s u.
        outcome-bind (λ _. Under l k a) _ Safe (Spoiled a) (m s).0 (m s).1 (λ _. n) (hm.holds s u)
          (λ x t v. hn.finishes t v) Safe-Spoiled;
  }

  pub Ends-current :
      {a : Bool} {f : Current → M World (Unit {0})}
      → ((c : Current) → is_some c.join ≡ k → Ends l k a (f c))
      → Ends l k a (the_current >>= f)
  unfolding ◌>>=◌ gets
  Ends-current {a = a} {f = f} h = record {
    finishes = λ s u.
        from_some-outcome _ (Spoiled a) s.operation.current s f
          (Safe-Spoiled s (Under-Safe {l = l} {k = k} {a = a} u))
          (λ c at. (h c (fits-of u.fits at)).finishes s u);
  }

  pub Ends-if :
      {a : Bool} (b : Bool) {m n : M World (Unit {0})}
      → Ends l k a m
      → Ends l k a n
      → Ends l k a (if b then m else n)
  Ends-if true h h' = h
  Ends-if false h h' = h'

  pub Ends-Stops : {a : Bool} {m : M World (Unit {0})} → Stops l k m → Ends l k a m
  Ends-Stops {a = a} {m = m} h = record {
    finishes = λ s u. never-ends a _ (m s).0 (m s).1 (h.throws s (Under-weaken u));
  }

  pub Stays-finish_phase : {a : Bool} → Stays l k a (finish_phase {World = World})
  Stays-finish_phase = record {
    holds = λ s u. record {
      same = u.same;
      fits = u.fits;
      waits = u.waits;
      applies = u.applies;
      disk = u.disk;
    };
  }

module _ {World : Type 0} {l : Ledger} (host : Host World) where
  pub record_successful-Ends :
      {a : Bool} ⦃started : Started l false⦄ (relation : Relation)
      → Ends l false a (record_successful_application host relation)
  record_successful-Ends relation = record {
    finishes = λ s u. record_successful_application-Ready host relation s u;
  }

  pub record_merge-Ends :
      {a : Bool} ⦃started : Started l true⦄ (item : ProgramStep) (change : MergeChange)
      (parents : List MergeParent) (clean : Bool)
      → At l item
      → change.commit ≡ (change_of item).commit
      → Ends l true a (record_recreated_merge host change parents clean)
  record_merge-Ends item change parents clean at same = record {
    finishes = λ s u. record_recreated_merge-Ready host item change parents clean s u at same;
  }

  pub record_resolved-Ends :
      {a : Bool} (k : Bool) ⦃started : Started l k⦄ (item : ProgramStep) (change : MergeChange)
      (join : Option Join)
      → is_some join ≡ k
      → At l item
      → change.commit ≡ (change_of item).commit
      → Ends l k a (record_resolved host change join)
  unfolding record_resolved
  record_resolved-Ends false item change none h at same = record_successful-Ends _
  record_resolved-Ends true item change (some join) h at same =
      record_merge-Ends item change join.parents false at same
  record_resolved-Ends false item change (some join) h at same = absurd (cc h)
  record_resolved-Ends true item change none h at same = absurd (cc h)

  module _ {k : Bool} ⦃started : Started l k⦄ where
    materialize_specs-Stays :
        {a : Bool} (specs : List SpecPlanView) → Stays l k a (materialize_specs host specs)
    unfolding materialize_specs
    materialize_specs-Stays [] = Stays-pure _
    materialize_specs-Stays {a} (p ∷ specs) =
        Stays-then (Stays-call _)
          (Stays-bind (materialize_specs-Stays {a = a} specs) (λ rest. Stays-pure _))

    commit_resolved-Stays :
        {a : Bool} (change : MergeChange) (b : Bool) → Stays l k a (commit_resolved host change b)
    unfolding commit_resolved
    commit_resolved-Stays change true = commit_recreated_merge-Stays host change
    commit_resolved-Stays change false = search (stays) depth 20

    pub apply_choices-Ends :
        {a : Bool} (item : ProgramStep) (change : MergeChange) (exact : List Conflict)
        (choices : List (Conflict × Candidate)) (specs : List SpecPlanView)
        → At l item
        → change.commit ≡ (change_of item).commit
        → Ends l k a (apply_choices host change exact choices specs)
    unfolding apply_choices
    apply_choices-Ends item change exact choices specs at same =
        Ends-bind (materialize_specs-Stays specs) (λ merges. Ends-bind (Stays-call _) (λ outcomes.
          Ends-current (λ before fits. Ends-then (Stays-set_current _ fits) (
            Ends-then (Stays-throw_when _ _) (
              Ends-bind (materialize_choices-Stays host _ choices) (λ marked.
                Ends-bind (Stays-call _) (λ resolutions. Ends-current (λ current fits'.
                  Ends-then (Stays-set_current _ fits') (
                    Ends-then Stays-write_state (
                      Ends-then (commit_resolved-Stays change _) (
                        Ends-bind (Stays-asks _) (λ head. Ends-bind (Stays-asks _) (λ tree.
                          Ends-then (validate_forecast_after-Stays change tree _) (
                            record_resolved-Ends k item change current.join fits' at
                              same))))))))))))))

  module _ ⦃started : Started l false⦄ where
    finish_unpaused-Ends :
        {a : Bool} (change : MergeChange) → Ends l false a (finish_unpaused host change)
    unfolding finish_unpaused
    finish_unpaused-Ends change = Ends-bind (Stays-asks _) (λ head.
        Ends-bind (Stays-asks _) (λ tree.
          Ends-then (validate_forecast_after-Stays change tree _) (record_successful-Ends _)))

    finish_action-Ends :
        {a : Bool} (change : MergeChange) (action : Option Action)
        → Ends l false a (finish_action host change action)
    unfolding finish_action
    finish_action-Ends change (some reword) = Ends-Stops (interactive_pause-Stops host _ refl)
    finish_action-Ends change (some edit) = Ends-Stops (interactive_pause-Stops host _ refl)
    finish_action-Ends change none = finish_unpaused-Ends change
    finish_action-Ends change (some _) = finish_unpaused-Ends change

    pub finish_surviving_step-Ends : {a : Bool} → Ends l false a (finish_surviving_step host)
    unfolding finish_surviving_step
    finish_surviving_step-Ends =
        Ends-bind (search (stays)) (λ item. finish_action-Ends (change_of item) _)

  module _ ⦃started : Started l true⦄ where
    block_join-Stops : Stops l true (block_join host)
    unfolding block_join
    block_join-Stops =
        Stops-then (Stays-set_state _ refl)
          (Stops-then Stays-finish_phase (Stops-then Stays-write_state (Stops-throw _)))

    pub finish_join-Ends :
        {a : Bool} (item : ProgramStep) (change : MergeChange) (parents : List MergeParent)
        → At l item
        → change.commit ≡ (change_of item).commit
        → Ends l true a (finish_join host change parents)
    unfolding finish_join
    finish_join-Ends item change parents at same = Ends-bind (Stays-asks _) (λ pending.
        Ends-then (Stays-when _ (Stays-Stops block_join-Stops)) (
          Ends-then (commit_recreated_merge-Stays host change) (
            Ends-bind (Stays-asks _) (λ head. Ends-bind (Stays-asks _) (λ tree.
              Ends-then (validate_forecast_after-Stays change tree _)
                (record_merge-Ends item change parents true at same))))))

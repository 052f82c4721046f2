-- ===== src/RebaseJournal/Recorded.antt =====
-- The two ends of a step, `recordSuccessfulApplication` and `recordRecreatedMerge`, and the omission:
-- each passes the step at the cursor and leaves the journal ready for the next one.
use vcs_lab.Prelude.{◌≡◌, sym, ◌∙◌, ap, ℕ, suc, Bool, true, false, some, List, [], ◌∷◌, ◌++◌, Text}
use mathlib.Core.Path.{subst}
use vcs_lab.RebaseProgram.{MergeChange, ProgramStep, run_omit}
use vcs_lab.RebaseJournal.{
  Relation, AppliedChange, RecreatedEntry, AbsorptionRecord, MergeParent, change_of, get_elem?,
}
use vcs_lab.Topology.{Step}
use vcs_lab.RebaseJournal.Host.{Host}
use vcs_lab.RebaseJournal.Session.{Session, ◌>>=◌, ◌>>◌, gets, modify, asks, write_state}
use vcs_lab.RebaseJournal.Recording.{
  anchor_rewritten, with_absorption, advance, record_successful_application, record_recreated_merge,
}
use vcs_lab.RebaseJournal.Stepping.{omit_step}
use vcs_lab.RebaseJournal.Ledger.{
  At, is_continuable, Ledger, ledger, IsTracked, KeepsIdentity, kind_of, item_kind, DiskSound, Safe,
  Under, Leaves, Started,
}
use vcs_lab.RebaseJournal.Rules.{Under-Safe}
use vcs_lab.RebaseJournal.Accounting.{passed, IsTracked-pick, IsTracked-merge, IsTracked-omit}
use vcs_lab.RebaseJournal.Between.{
  Ready, idle-IsSound, Spoiled, Safe-Spoiled, outcome-bind, from_some-outcome,
}
use vcs_lab.RebaseJournal.Anchored.{
  pick-facts, merge-facts, Anchored, anchor_rewritten-Anchored, anchor_advance-Ready,
  application_record-Under, absorption_id-Under, absorbed-origin, absorbed-KeepsIdentity,
}

module _ {World : Type 0} (host : Host World) where
  -- The end of a step leaves the journal past the step that the ledger has at its cursor.
  abbrev ReadyAfter : Bool → Ledger → Text → Text → Session World → Type 0
  ReadyAfter a l origin commit s =
      Leaves (λ _. Ready l.queue (suc l.next_index)) (Spoiled a)
        ((anchor_rewritten host origin commit >> advance host) s).0
        ((anchor_rewritten host origin commit >> advance host) s).1

  abbrev pushed : AppliedChange → List AbsorptionRecord → Session World → Session World
  pushed app absorptions s = record s {
    operation = record s.operation {
      applied = s.operation.applied ++ app ∷ [];
      absorptions = absorptions;
    };
  }

  -- The application is pushed, anchored and journaled.
  push_application-Ready :
      {l : Ledger} {a : Bool} ⦃started : Started l false⦄ (item : ProgramStep) (app : AppliedChange)
      (absorptions : List AbsorptionRecord) (origin commit : Text) (s : Session World)
      → Under l false a s
      → get_elem? l.queue l.next_index ≡ some item
      → kind_of (some item) ≡ some false
      → app.origin_commit ≡ (change_of item).commit
      → KeepsIdentity app
      → ReadyAfter a l origin commit (pushed app absorptions s)
  push_application-Ready {a = a} ⦃started⦄ item app absorptions origin commit s u at kind same
        kept =
      subst (λ (o : Ledger). ReadyAfter a o origin commit (pushed app absorptions s)) u.same
        (anchor_advance-Ready host a origin commit (pushed app absorptions s)
          (IsTracked-pick (ledger s.operation) (subst IsTracked (sym u.same) started.tracked) app
            (ap (λ (o : Ledger). get_elem? o.queue o.next_index) u.same ∙ at)
            (pick-facts item kind).0 (ap (λ c. c ∷ []) same ∙ (pick-facts item kind).1)
            (pick-facts item kind).2 kept)
          u.disk u.applies)

  abbrev Made : Ledger → Bool → ProgramStep → AppliedChange → Session World → Type 0
  Made l a item app t =
      ((app.origin_commit ≡ (change_of item).commit) × KeepsIdentity app) × Under l false a t

  -- `recordSuccessfulApplication`, on a pick.
  pub record_successful_application-Ready :
      {l : Ledger} {a : Bool} ⦃started : Started l false⦄ (relation : Relation) (s : Session World)
      → Under l false a s
      → Leaves
          (λ _. Ready l.queue (suc l.next_index))
          (Spoiled a)
          (record_successful_application host relation s).0
          (record_successful_application host relation s).1
  unfolding record_successful_application ◌>>◌ ◌>>=◌ gets modify
  record_successful_application-Ready {l} {a} ⦃started⦄ relation s u =
      from_some-outcome _ (Spoiled a) (get_elem? s.operation.queue s.operation.next_index) s _
        (Safe-Spoiled s (Under-Safe {l = l} {k = false} {a = a} u))
        (λ item at.
          outcome-bind (Made l a item) _ Safe (Spoiled a) _ _ _
            (application_record-Under host (change_of item) relation s u)
            (λ app t made.
              from_some-outcome _ (Spoiled a) t.operation.current t _
                (Safe-Spoiled t (Under-Safe {l = l} {k = false} {a = a} made.1))
                (λ c here.
                  outcome-bind (λ _. Under l false a) _ Safe (Spoiled a) _ _ _
                    (absorption_id-Under host c.absorption t made.1)
                    (λ id v under.
                      push_application-Ready item (with_absorption host c.absorption app) _ _ _ v
                        under
                        (sym (ap (λ (o : Ledger). get_elem? o.queue o.next_index) u.same) ∙ at)
                        (ap kind_of (sym at) ∙ ap item_kind u.same ∙ started.kind)
                        (absorbed-origin host c.absorption app ∙ made.0.0)
                        (absorbed-KeepsIdentity host c.absorption app made.0.1))
                    Safe-Spoiled))
            Safe-Spoiled)

  abbrev entered : RecreatedEntry → Session World → Session World
  entered entry s = record s {
    operation = record s.operation {
      recreated_merges = s.operation.recreated_merges ++ entry ∷ [];
    };
  }

  push_merge-Ready :
      {l : Ledger} {a : Bool} ⦃started : Started l true⦄ (item : ProgramStep)
      (entry : RecreatedEntry) (origin commit : Text) (s : Session World)
      → Under l true a s
      → At l item
      → entry.origin_commit ≡ (change_of item).commit
      → ReadyAfter a l origin commit (entered entry s)
  push_merge-Ready {a = a} ⦃started⦄ item entry origin commit s u at same =
      let kind = ap kind_of (sym at) ∙ started.kind in
      subst (λ (o : Ledger). ReadyAfter a o origin commit (entered entry s)) u.same
        (anchor_advance-Ready host a origin commit (entered entry s)
          (IsTracked-merge (ledger s.operation) (subst IsTracked (sym u.same) started.tracked) entry
            (ap (λ (o : Ledger). get_elem? o.queue o.next_index) u.same ∙ at)
            (merge-facts item kind).0 (merge-facts item kind).1
            (ap (λ c. c ∷ []) same ∙ (merge-facts item kind).2))
          u.disk u.applies)

  -- `recordRecreatedMerge`, on a merge.
  pub record_recreated_merge-Ready :
      {l : Ledger} {a : Bool} ⦃started : Started l true⦄ (item : ProgramStep) (change : MergeChange)
      (parents : List MergeParent) (clean : Bool) (s : Session World)
      → Under l true a s
      → At l item
      → change.commit ≡ (change_of item).commit
      → Leaves
          (λ _. Ready l.queue (suc l.next_index))
          (Spoiled a)
          (record_recreated_merge host change parents clean s).0
          (record_recreated_merge host change parents clean s).1
  unfolding record_recreated_merge ◌>>◌ ◌>>=◌ gets modify asks
  record_recreated_merge-Ready {l} {a} item change parents clean s u at same =
      from_some-outcome _ (Spoiled a) s.operation.current s _
        (Safe-Spoiled s (Under-Safe {l = l} {k = true} {a = a} u))
        (λ c here.
          from_some-outcome _ (Spoiled a) c.join s _
            (Safe-Spoiled s (Under-Safe {l = l} {k = true} {a = a} u))
            (λ join joined. push_merge-Ready item _ change.commit _ s u at same))

  passed_omission :
      {l : Ledger} {step : Step} (t : Session World)
      → ledger t.operation ≡ l
      → IsTracked l
      → At l (run_omit step)
      → IsTracked (
          passed
            (ledger t.operation)
            t.operation.executed_count
            t.operation.applied
            t.operation.recreated_merges)
  passed_omission t same tracked at =
      IsTracked-omit (ledger t.operation) (subst IsTracked (sym same) tracked)
        (ap (λ (o : Ledger). get_elem? o.queue o.next_index) same ∙ at)

  -- The omission of a step.
  pub omit_step-Ready :
      {q : List ProgramStep} {n : ℕ} {step : Step} (commit parent : Text) (s : Session World)
      → Ready q n s
      → get_elem? q n ≡ some (run_omit step)
      → Leaves
          (λ _. Ready q (suc n))
          Safe
          (omit_step host commit parent s).0
          (omit_step host commit parent s).1
  unfolding omit_step ◌>>◌ ◌>>=◌ modify write_state
  omit_step-Ready {q} {n} commit parent s r at =
      outcome-bind (λ _. Anchored s) _ (Anchored s) Safe _ _ _
        (anchor_rewritten-Anchored host commit parent s)
        (λ _ t same. record {
          tracked = passed_omission t (same.0) r.tracked (
              ap (λ qs. get_elem? qs s.operation.next_index) r.queue
              ∙ ap (get_elem? q) r.index
              ∙ at);
          queue = ap (λ (o : Ledger). o.queue) same.0 ∙ r.queue;
          index = ap (λ (o : Ledger). suc o.next_index) same.0 ∙ ap suc r.index;
          idle = ap is_continuable same.1 ∙ r.idle;
          vacant = same.2 ∙ r.vacant;
          disk = idle-IsSound (ap is_continuable same.1 ∙ r.idle);
        })
        (λ t same. record {
          memory = idle-IsSound (ap is_continuable same.1 ∙ r.idle);
          disk = subst DiskSound (sym same.3) r.disk;
        })

-- ===== src/RebaseJournal/Anchored.antt =====
-- What both ends of a step in src/rebase-operations.js share: `anchorRewritten` and the advance of the
-- journal, `applicationRecord`, and what the queue says of a step.
use vcs_lab.Prelude.{
  ◌≡◌, refl, sym, ◌∙◌, ap, arith, suc, Bool, true, false, Option, none, some, [], ◌∷◌, Text,
}
use mathlib.Core.Path.{subst}
use vcs_lab.RebaseProgram.{MergeChange, ProgramStep, run_merge, run_pick, run_omit}
use vcs_lab.RebaseJournal.{Relation, Absorption, AppliedChange, change_of, is_executable}
use vcs_lab.RebaseJournal.Host.{Host}
use vcs_lab.RebaseJournal.Session.{
  Session, pure, throw, ◌>>=◌, ◌>>◌, gets, modify, asks, perform, throw_when, when, write_state,
  from_some, run_git,
}
use vcs_lab.RebaseJournal.Recording.{
  loses_identity, refuse_identity, application_record, anchor_rewritten, with_absorption,
  absorption_id, advance,
}
use vcs_lab.RebaseJournal.Ledger.{
  picks, joins, is_applying, Ledger, ledger, IsTracked, KeepsIdentity, kind_of, DiskSound, Safe,
  Under, Leaves, Started,
}
use vcs_lab.RebaseJournal.Rules.{Under-Safe}
use vcs_lab.RebaseJournal.Accounting.{passed}
use vcs_lab.RebaseJournal.Between.{
  Ready, idle-IsSound, idle_of_applying, Spoiled, outcome-bind, from_some-outcome, Under-world,
}

-- What the queue says of a pick, and of a merge.
pub pick-facts :
    (item : ProgramStep)
    → kind_of (some item) ≡ some false
    → (is_executable item ≡ true) × ((change_of item).commit ∷ [] ≡ picks item) × ([] ≡ joins item)
unfolding change_of
pick-facts (run_pick step c absorbs) h = (refl, refl, refl)
pick-facts (run_merge step change) h = absurd (cc h)
pick-facts (run_omit step) h = absurd (cc h)

pub merge-facts :
    (item : ProgramStep)
    → kind_of (some item) ≡ some true
    → (is_executable item ≡ true) × ([] ≡ picks item) × ((change_of item).commit ∷ [] ≡ joins item)
unfolding change_of
merge-facts (run_merge step change) h = (refl, refl, refl)
merge-facts (run_pick step c absorbs) h = absurd (cc h)
merge-facts (run_omit step) h = absurd (cc h)

module _ {World : Type 0} where
  -- Only the mapping of the rewritten commits differs.
  abbrev pub Anchored : Session World → Session World → Type 0
  Anchored s t =
      (ledger t.operation ≡ ledger s.operation)
      × (t.operation.state ≡ s.operation.state)
      × (t.operation.current ≡ s.operation.current)
      × (t.disk ≡ s.disk)

  module _ (host : Host World) where
    advance-Ready :
        (a : Bool) (s : Session World)
        → IsTracked (
            passed
              (ledger s.operation)
              (suc s.operation.executed_count)
              s.operation.applied
              s.operation.recreated_merges)
        → Leaves
            (λ _. Ready s.operation.queue (suc s.operation.next_index))
            (Spoiled a)
            (advance host s).0
            (advance host s).1
    unfolding advance ◌>>◌ ◌>>=◌ modify write_state
    advance-Ready a s tracked = record {
      tracked = tracked;
      queue = refl;
      index = refl;
      idle = refl;
      vacant = refl;
      disk = idle-IsSound refl;
    }

    pub anchor_rewritten-Anchored :
        (origin commit : Text) (s : Session World)
        → Leaves
            (λ _. Anchored s)
            (Anchored s)
            (anchor_rewritten host origin commit s).0
            (anchor_rewritten host origin commit s).1
    unfolding anchor_rewritten run_git ◌>>=◌ ◌>>◌ modify gets asks when pure perform throw_when
        throw
    anchor_rewritten-Anchored origin commit s = ground arith

    -- The end of both.
    pub anchor_advance-Ready :
        (a : Bool) (origin commit : Text) (s : Session World)
        → IsTracked (
            passed
              (ledger s.operation)
              (suc s.operation.executed_count)
              s.operation.applied
              s.operation.recreated_merges)
        → DiskSound s.disk
        → (a ≡ true → is_applying s.operation.state ≡ true)
        → Leaves
            (λ _. Ready s.operation.queue (suc s.operation.next_index))
            (Spoiled a)
            ((anchor_rewritten host origin commit >> advance host) s).0
            ((anchor_rewritten host origin commit >> advance host) s).1
    unfolding ◌>>◌ ◌>>=◌
    anchor_advance-Ready a origin commit s tracked disk applies =
        outcome-bind (λ _. Anchored s) _ (Anchored s) (Spoiled a) _ _ (λ _. advance host)
          (anchor_rewritten-Anchored origin commit s)
          (λ _ t same.
            subst
              (λ (o : Ledger).
                Leaves (λ _. Ready o.queue (suc o.next_index)) (Spoiled a) (advance host t).0
                  (advance host t).1)
              same.0
              (advance-Ready a t (
                subst (λ (o : Ledger). IsTracked (passed o (suc o.executed) o.applied o.merges))
                  (sym same.0) tracked)))
          (λ t same. record {
            disk = subst DiskSound (sym same.3) disk;
            memory = λ h. idle-IsSound (idle_of_applying _ (ap is_applying same.1 ∙ applies h));
          })

    refuse_identity-Under :
        {l : Ledger} {k a : Bool} ⦃started : Started l k⦄ (lost : Bool) (s : Session World)
        → Under l k a s
        → Leaves
            (λ _ t. (lost ≡ false) × Under l k a t)
            (Safe)
            (refuse_identity host lost s).0
            (refuse_identity host lost s).1
    unfolding refuse_identity when pure ◌>>◌ ◌>>=◌ modify write_state throw
    refuse_identity-Under false s u = (refl, u)
    refuse_identity-Under true s u = record { memory = idle-IsSound refl; disk = idle-IsSound refl }

    pub application_record-Under :
        {l : Ledger} {k a : Bool} ⦃started : Started l k⦄ (change : MergeChange)
        (relation : Relation) (s : Session World)
        → Under l k a s
        → Leaves
            (λ x t. ((x.origin_commit ≡ change.commit) × KeepsIdentity x) × Under l k a t)
            Safe
            (application_record host change relation s).0
            (application_record host change relation s).1
    unfolding application_record ◌>>◌ ◌>>=◌ asks perform gets from_some throw pure
    application_record-Under {l} {k} {a} change relation s u =
        let lost =
          loses_identity relation change.change_id
            (host.change_id_of (host.head s.world) s.world) in
        outcome-bind (λ _ t. (lost ≡ false) × Under l k a t) _ Safe Safe _ _ _
          (refuse_identity-Under lost s u)
          (λ _ t kept.
            from_some-outcome _ Safe t.operation.current _ _ (Under-Safe (Under-world _ kept.1))
              (λ c at. ((refl, kept.0), Under-world _ kept.1)))
          (λ t h. h)

    pub absorption_id-Under :
        {l : Ledger} {k a : Bool} (o : Option Absorption) (s : Session World)
        → Under l k a s
        → Leaves (λ _. Under l k a) Safe (absorption_id host o s).0 (absorption_id host o s).1
    unfolding absorption_id pure perform
    absorption_id-Under none s u = u
    absorption_id-Under (some x) s u = Under-world _ u

    pub absorbed-origin :
        (x : Option Absorption) (app : AppliedChange)
        → (with_absorption host x app).origin_commit ≡ app.origin_commit
    unfolding with_absorption
    absorbed-origin none app = refl
    absorbed-origin (some x) app = refl

    pub absorbed-KeepsIdentity :
        (x : Option Absorption) (app : AppliedChange)
        → KeepsIdentity app
        → KeepsIdentity (with_absorption host x app)
    unfolding with_absorption
    absorbed-KeepsIdentity none app h = h
    absorbed-KeepsIdentity (some x) app h = h

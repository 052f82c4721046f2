-- ===== src/RebaseJournal/Rounds.antt =====
-- One round of `runRebaseQueue` passes exactly one step of the queue, or throws and leaves a journal that
-- can be resumed from where it was, if at all; and the loop ends.
use vcs_lab.Prelude.{
  ◌≡◌, refl, sym, ◌∙◌, ap, inl, inr, ◌⊎◌, ℕ, suc, Bool, true, false, not, Option, none, some, List,
  [], ◌∷◌, ◌==◌, Text, is_some, Bool-cases,
}
use vcs_lab.Errors.{ErrorCode, Result, ok, err}
use vcs_lab.RebaseProgram.{MergeChange, ProgramStep}
use vcs_lab.RebaseJournal.{Join, ForecastStep, ForecastApproval, Conflict, Candidate, change_of}
use vcs_lab.RebaseJournal.Host.{SpecPlanView, Host}
use vcs_lab.RebaseJournal.Session.{
  Session, M, pure, throw, ◌>>=◌, ◌>>◌, gets, modify, asks, when, write_state, catch, catch_result,
}
use vcs_lab.RebaseJournal.Approval.{
  mark_mismatch, check_step, expected_from, validate_forecast_before, expected_forecast_step,
  differs_before, nothing_approved, forecast_resolution_choices,
}
use vcs_lab.RebaseJournal.Approving.{
  apply_forecast_resolutions, apply_approval, apply_or_leave, forecast_spec_merge_choices,
}
use vcs_lab.RebaseJournal.Stepping.{
  begin_step, started, settle_step, try_forecast, stop_step, resolution_failed,
}
use vcs_lab.RebaseJournal.Ledger.{At, Ledger, DiskSound, Safe, Under, Leaves, Started}
use vcs_lab.RebaseJournal.Rules.{Under-weaken, Under-Safe, Stays-when, Stays-Stops}
use vcs_lab.RebaseJournal.Kept.{
  forecast_spec_merge_choices-Stays, forecast_resolution_choices-Stays, mark_mismatch-Stops,
  describe_conflicts-Stays, stop_step-Stops,
}
use vcs_lab.RebaseJournal.Between.{
  Ready, Spoiled, Safe-Spoiled, outcome-bind, from_some-outcome, idle-IsSound,
}
use vcs_lab.RebaseJournal.Ending.{apply_choices-Ends}

-- A forecast is expected, or none was approved.
abbrev pub Expects : Ledger → Option ForecastStep → Type 0
Expects l e = (is_some e ≡ true) ⊎ (l.approval ≡ none)

abbrev pub ExpectsUnder :
    {World : Type 0} → Ledger → Bool → Bool → Option ForecastStep → Session World → Type 0
ExpectsUnder l k a e t = Expects l e × Under l k a t

module _ {World : Type 0} where
  stopped :
      {A : Type 0} (Q : A → Session World → Type 0) (r : Result A) (s : Session World)
      → Leaves (λ _ t. ⊥) Safe r s
      → Leaves Q Safe r s
  stopped Q (ok x) s h = absurd h
  stopped Q (err c) s h = h

  pub outcome-catch :
      {A : Type 0} (Q : A → Session World → Type 0) (E F : Session World → Type 0) (r : Result A)
      (s : Session World) (handler : ErrorCode → M World A)
      → Leaves Q E r s
      → ((c : ErrorCode) (t : Session World) → E t → Leaves Q F (handler c t).0 (handler c t).1)
      → Leaves Q F (catch_result r s handler).0 (catch_result r s handler).1
  outcome-catch Q E F (ok x) s handler q h = q
  outcome-catch Q E F (err c) s handler q h = h c s q

  pub outcome-weaken :
      {A : Type 0} (Q : A → Session World → Type 0) (E F : Session World → Type 0) (r : Result A)
      (s : Session World)
      → Leaves Q E r s
      → ((t : Session World) → E t → F t)
      → Leaves Q F r s
  outcome-weaken Q E F (ok x) s q h = q
  outcome-weaken Q E F (err c) s q h = h s q

module _ {World : Type 0} {l : Ledger} {k : Bool} ⦃at_start : Started l k⦄ where
  mismatch-stopped :
      {a : Bool} {A : Type 0} (Q : A → Session World → Type 0) (s : Session World)
      → Under l k a s
      → Leaves Q Safe (mark_mismatch {A = A} s).0 (mark_mismatch {A = A} s).1
  mismatch-stopped {A = A} Q s u =
      stopped Q _ _ ((mark_mismatch-Stops {l = l} {k = k} {A = A}).throws s (Under-weaken u))

  check_step-Expects :
      {a : Bool} (change : MergeChange) (step : Option ForecastStep) (s : Session World)
      → Under l k a s
      → Leaves (ExpectsUnder l k a) Safe (check_step change step s).0 (check_step change step s).1
  unfolding check_step pure
  check_step-Expects change none s u = mismatch-stopped _ s u
  check_step-Expects change (some step) s u =
      elim (Bool-cases (step.source_commit == change.commit)) [
        | inl same ↦ rw same (inl refl, u)
        | inr other ↦ rw other (mismatch-stopped _ s u)
      ]

  expected_from-Expects :
      {a : Bool} (change : MergeChange) (i : ℕ) (approval : Option ForecastApproval)
      (s : Session World)
      → approval ≡ l.approval
      → Under l k a s
      → Leaves
          (ExpectsUnder l k a)
          Safe
          (expected_from change i approval s).0
          (expected_from change i approval s).1
  unfolding expected_from pure
  expected_from-Expects change i none s e u = (inr (sym e), u)
  expected_from-Expects change i (some approval) s e u = check_step-Expects change _ s u

  validate_forecast_before-Expects :
      {a : Bool} (change : MergeChange) (tree : Text) (s : Session World)
      → Under l k a s
      → Leaves
          (ExpectsUnder l k a)
          Safe
          (validate_forecast_before change tree s).0
          (validate_forecast_before change tree s).1
  unfolding validate_forecast_before expected_forecast_step ◌>>=◌ ◌>>◌ gets pure
  validate_forecast_before-Expects {a} change tree s u =
      outcome-bind (ExpectsUnder l k a) _ Safe Safe _ _ _
        (expected_from-Expects change s.operation.executed_count s.operation.forecast_approval s
          (ap (λ (o : Ledger). o.approval) u.same) u)
        (λ e t h.
          outcome-bind (λ _. Under l k a) _ Safe Safe _ _ _
            ((Stays-when {l = l} {k = k} {a = a} (differs_before tree e)
                (Stays-Stops mark_mismatch-Stops)).holds
              t h.1)
            (λ _ v u'. (h.0, u')) (λ _ x. x))
        (λ _ x. x)

  pub begin_step-Expects :
      (host : Host World) (change : MergeChange) (join : Option Join) (s : Session World)
      → is_some join ≡ k
      → Under l k false s
      → Leaves
          (ExpectsUnder l k true)
          Safe
          (begin_step host change join s).0
          (begin_step host change join s).1
  unfolding begin_step ◌>>=◌ ◌>>◌ asks modify write_state started
  begin_step-Expects host change join s fits u =
      validate_forecast_before-Expects change (host.tree_of (host.head s.world) s.world) _ (record {
        same = u.same;
        fits = fits;
        waits = λ h. absurd (cc h);
        applies = λ _. refl;
        disk = idle-IsSound refl;
      })

-- A conflict that a forecast resolved is recorded; one that none did leaves the step under way.
abbrev Tried : {World : Type 0} → Ledger → Bool → Bool → Session World → Type 0
Tried l k true t = Ready l.queue (suc l.next_index) t
Tried l k false t = Under l k false t

-- An error on the way to it leaves the disk sound; memory too, if no forecast was approved.
abbrev Failed : {World : Type 0} → Ledger → Session World → Type 0
Failed l t = DiskSound t.disk × (l.approval ≡ none → Safe t)

module _ {World : Type 0} (l : Ledger) (k : Bool) ⦃at_start : Started l k⦄ (host : Host World) where
  handled :
      (expected : Option ForecastStep) (c : ErrorCode) (t : Session World)
      → Expects l expected
      → Failed l t
      → Leaves
          (Tried l k)
          Safe
          (resolution_failed host expected c t).0
          (resolution_failed host expected c t).1
  unfolding resolution_failed mark_mismatch ◌>>◌ ◌>>=◌ modify write_state throw
  handled none c t (inl h) f = absurd (cc h)
  handled none c t (inr h) f = f.1 h
  handled (some step) c t h f = record { memory = idle-IsSound refl; disk = idle-IsSound refl }

  refuse_or_go :
      (expected : Option ForecastStep) (paths : List Text) (resolved : Bool) (s : Session World)
      → Tried l k resolved s
      → Leaves
          (λ _. Ready l.queue (suc l.next_index))
          Safe
          (when (not resolved) (stop_step host expected paths) s).0
          (when (not resolved) (stop_step host expected paths) s).1
  unfolding when pure
  refuse_or_go expected paths true s r = r
  refuse_or_go expected paths false s u =
      stopped _ _ _ ((stop_step-Stops {l = l} {k = k} host expected paths).throws s u)

module _ {World : Type 0} {l : Ledger} {k : Bool} ⦃at_start : Started l k⦄ (host : Host World)
    (item : ProgramStep) (change : MergeChange) (at : At l item)
    (same : change.commit ≡ (change_of item).commit) where
  apply_or_leave-Tried :
      (b : Bool) (exact : List Conflict) (choices : List (Conflict × Candidate))
      (specs : List SpecPlanView) (s : Session World)
      → Under l k false s
      → Leaves
          (Tried l k)
          (Spoiled false)
          (apply_or_leave host b change exact choices specs s).0
          (apply_or_leave host b change exact choices specs s).1
  unfolding apply_or_leave ◌>>◌ ◌>>=◌ pure
  apply_or_leave-Tried true exact choices specs s u = u
  apply_or_leave-Tried false exact choices specs s u =
      outcome-bind (λ _. Ready l.queue (suc l.next_index)) (Tried l k) (Spoiled false)
        (Spoiled false) _ _ _
        ((apply_choices-Ends host {a = false} item change exact choices specs at same).finishes s u)
        (λ _ t r. r) (λ _ h. h)

  apply_approved-Tried :
      (approval : Option ForecastApproval) (s : Session World)
      → Under l k false s
      → Leaves
          (Tried l k)
          (Spoiled false)
          (apply_approval host change approval s).0
          (apply_approval host change approval s).1
  unfolding apply_approval ◌>>◌ ◌>>=◌ gets
  apply_approved-Tried approval s u =
      outcome-bind (λ _. Under l k false) (Tried l k) Safe (Spoiled false) _ _ _
        ((forecast_spec_merge_choices-Stays {l = l} {k = k} host {a = false} change approval).holds
          s u)
        (λ specs t v.
          from_some-outcome (Tried l k) (Spoiled false) t.operation.current t _
            (Safe-Spoiled t (Under-Safe {l = l} {k = k} {a = false} v))
            (λ c here.
              outcome-bind (λ _. Under l k false) (Tried l k) Safe (Spoiled false) _ _ _
                ((forecast_resolution_choices-Stays {l = l} {k = k} host {a = false} change _
                    approval).holds
                  t v)
                (λ choices w x. apply_or_leave-Tried _ _ _ _ w x) Safe-Spoiled))
        Safe-Spoiled

  -- Without a forecast nothing is applied.
  apply_unapproved-Tried :
      (s : Session World)
      → Under l k false s
      → Leaves
          (Tried l k)
          Safe
          (apply_approval host change none s).0
          (apply_approval host change none s).1
  unfolding apply_approval ◌>>◌ ◌>>=◌ gets forecast_spec_merge_choices forecast_resolution_choices
      nothing_approved apply_or_leave pure
  apply_unapproved-Tried s u =
      from_some-outcome (Tried l k) Safe s.operation.current s _
        (Under-Safe {l = l} {k = k} {a = false} u) (λ c here. u)

  Failed-Tried :
      (approval : Option ForecastApproval) (s : Session World)
      → approval ≡ l.approval
      → Under l k false s
      → Leaves
          (Tried l k)
          (Failed l)
          (apply_approval host change approval s).0
          (apply_approval host change approval s).1
  Failed-Tried none s e u =
      outcome-weaken (Tried l k) Safe (Failed l) _ _ (apply_unapproved-Tried s u)
        (λ t h. (h.disk, λ _. h))
  Failed-Tried (some approval) s e u =
      outcome-weaken (Tried l k) (Spoiled false) (Failed l) _ _ (apply_approved-Tried _ s u)
        (λ t h. (h.disk, λ n. absurd (cc (e ∙ n))))

  try_forecast-Tried :
      (expected : Option ForecastStep) (paths : List Text) (s : Session World)
      → Expects l expected
      → Under l k false s
      → Leaves
          (Tried l k)
          Safe
          (try_forecast host expected change paths s).0
          (try_forecast host expected change paths s).1
  unfolding try_forecast pure catch apply_forecast_resolutions ◌>>=◌ gets
  try_forecast-Tried expected [] s e u = u
  try_forecast-Tried expected (p ∷ paths) s e u =
      outcome-catch (Tried l k) (Failed l) Safe _ _ _
        (Failed-Tried s.operation.forecast_approval s (ap (λ (o : Ledger). o.approval) u.same) u)
        (λ c t f. handled l k host expected c t e f)

  -- A step that Git left in conflict.
  pub settle_step-Ready :
      (expected : Option ForecastStep) (s : Session World)
      → Expects l expected
      → Under l k false s
      → Leaves
          (λ _. Ready l.queue (suc l.next_index))
          Safe
          (settle_step host expected change s).0
          (settle_step host expected change s).1
  unfolding settle_step ◌>>◌ ◌>>=◌
  settle_step-Ready expected s e u =
      outcome-bind (λ _. Under l k false) _ Safe Safe _ _ _
        ((describe_conflicts-Stays {l = l} {k = k} host).holds s u)
        (λ paths t v.
          outcome-bind (Tried l k) _ Safe Safe _ _ _ (try_forecast-Tried expected paths t e v)
            (λ resolved w x. refuse_or_go l k host expected paths resolved w x) (λ _ h. h))
        (λ _ h. h)

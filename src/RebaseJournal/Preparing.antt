-- ===== src/RebaseJournal/Preparing.antt =====
-- `startRebaseInSession` of src/rebase-operations.js, up to the point where the branch moves: the checks
-- before the journal exists, and the journal that is written then.
use vcs_lab.Prelude.{
  ◌≡◌, refl, arith, Bool, true, false, not, ◌&&◌, ◌||◌, Option, none, some, Text, codes, is_some,
  ◌++◌, ==_iff, take, drop, ap, ◌∙◌, ℕ, zero, suc, [], ◌∷◌,
}
use vcs_lab.Errors.{ok}
use vcs_lab.RebasePlan.{RebasePlan, build_rebase_plan}
use vcs_lab.RebaseProgram.{rebase_program}
use vcs_lab.RebaseJournal.{has, Operation, executable_steps}
use vcs_lab.RebaseJournal.Host.{Forecast, Host}
use vcs_lab.RebaseJournal.Session.{
  Session, pure, throw, ◌>>=◌, ◌>>◌, modify, asks, perform, call, throw_when, when, write_state,
}
use vcs_lab.RebaseJournal.Absorbing.{lift}
use vcs_lab.RebaseJournal.Checks.{
  branch_name, from_branch, current_branch, assert_clean, with_overlay,
}
use vcs_lab.RebaseJournal.Starting.{
  StartOptions, start_operation, forecast_accepts, approved_overlay, approved_forecast,
  write_journal, prepare,
}
use vcs_lab.RebaseJournal.Ledger.{ledger, IsTracked, DiskSound, Leaves}
use vcs_lab.RebaseJournal.Between.{Ready, outcome-bind, idle-IsSound}
use vcs_lab.RebaseJournal.Quiet.{Quiet, Quiet-call, Quiet-pure}
use vcs_lab.RebaseJournal.Checked.{Kept, unchanged_after}
use vcs_lab.RebaseJournal.Checking.{
  Reads, Reads-pure, Reads-asks, Reads-lift, Reads-throw_when, Reads-when, Reads-bind,
  Reads-outcome, passed_test,
}

new-IsTracked :
    (id ref name onto : Text) (plan : RebasePlan) (accept : Bool) (forecast : Option Forecast)
    → IsTracked (ledger (start_operation id ref name onto plan accept forecast))
unfolding start_operation executable_steps
new-IsTracked id ref name onto plan accept forecast = record {
  executed_exact = refl;
  applied_exact = refl;
  merges_exact = refl;
  identities_kept = tt;
}

take-drop : (n : ℕ) (xs : Text) → take n xs ++ drop n xs ≡ xs
take-drop zero xs = refl
take-drop (suc n) [] = refl
take-drop (suc n) (x ∷ xs) = ap (◌∷◌ x) (take-drop n xs)

branch_name_lem :
    (ref : Option Text) (name : Text)
    → branch_name ref ≡ some name
    → ref ≡ some (codes "refs/heads/" ++ name)
unfolding branch_name
branch_name_lem none name e = absurd (cc e)
branch_name_lem (some ref) name e =
    ground (arith, ==_iff (take 11 ref) (codes "refs/heads/"), take-drop 11 ref)

module _ {World : Type 0} (host : Host World) (options : StartOptions) where
  -- The plan of the branch that `HEAD` is on; it is supported, and its candidates were accepted or a
  -- stored forecast was named.
  pub record Planned (w : World) (plan : RebasePlan) : Type 0 where
    pub branch : Text
    pub checked_out : host.head_ref w ≡ some (codes "refs/heads/" ++ branch)
    pub planned :
        build_rebase_plan
          (host.repository w)
          options.onto
          (some branch)
          options.from
          options.interactive
        ≡ ok plan
    pub supported : plan.topology.supported ≡ true
    pub reviewed :
        (has plan.candidates && not (options.accept_candidates || is_some options.forecast_id))
        ≡ false

  -- What the journal starts from.
  abbrev pub Prepared : Session World → Session World → Type 0
  Prepared s t =
      (s.disk ≡ none)
      × ((plan : RebasePlan) × Planned s.world plan × Ready (rebase_program plan) 0 t)

  approved_overlay-Reads : (id : Option Text) → Reads (approved_overlay host id)
  unfolding approved_overlay
  approved_overlay-Reads none = Reads-pure none
  approved_overlay-Reads (some id) = Reads-bind (Reads-asks _) (λ overlay. Reads-lift overlay)

  approved_forecast-Reads :
      (id : Option Text) (plan : RebasePlan) → Reads (approved_forecast host id plan)
  unfolding approved_forecast
  approved_forecast-Reads none plan = Reads-pure none
  approved_forecast-Reads (some id) plan =
      Reads-bind (Reads-asks _) (λ found. Reads-bind (Reads-lift found) (λ forecast. Reads-pure _))

  assert_clean-Reads : Reads (assert_clean host)
  unfolding assert_clean
  assert_clean-Reads = Reads-bind (Reads-asks _) (λ clean. Reads-throw_when _ _)

  from_branch-Reads : (ref name : Option Text) → Reads (from_branch host ref name)
  unfolding throw pure
  from_branch-Reads (some ref) (some name) = record { unchanged = λ s. refl }
  from_branch-Reads none name = record { unchanged = λ s. refl }
  from_branch-Reads (some ref) none = record { unchanged = λ s. refl }

  current_branch-Reads : Reads (current_branch host)
  unfolding current_branch
  current_branch-Reads = Reads-bind (Reads-asks _) (λ ref. from_branch-Reads ref _)

  from_branch_lem :
      (ref name : Option Text) (s : Session World) (b : Text × Text)
      → ((n : Text) → name ≡ some n → ref ≡ some (codes "refs/heads/" ++ n))
      → (from_branch host ref name s).0 ≡ ok b
      → ref ≡ some (codes "refs/heads/" ++ b.1)
  unfolding throw pure
  from_branch_lem (some ref) (some name) s b h e =
      h name refl ∙ ap (λ (n : Text). some (codes "refs/heads/" ++ n)) (cc e)
  from_branch_lem none name s b h e = absurd (cc e)
  from_branch_lem (some ref) none s b h e = absurd (cc e)

  -- The branch that is found is the one `HEAD` is on.
  current_branch_lem :
      (s : Session World) (b : Text × Text)
      → (current_branch host s).0 ≡ ok b
      → host.head_ref s.world ≡ some (codes "refs/heads/" ++ b.1)
  unfolding current_branch asks ◌>>=◌
  current_branch_lem s b e =
      from_branch_lem (host.head_ref s.world) (branch_name (host.head_ref s.world)) s b
        (branch_name_lem (host.head_ref s.world)) e

  -- The worktree has to be clean unless a forecast brings its draft.
  overlay-Quiet :
      (overlay : Option Text)
      → Quiet (with_overlay overlay (λ tree. call (host.assert_overlay_current tree)))
  overlay-Quiet none = Quiet-pure tt
  overlay-Quiet (some tree) = Quiet-call _

  named_forecast :
      (id : Option Text) (plan : RebasePlan) (s : Session World) (f : Option Forecast)
      → (approved_forecast host id plan s).0 ≡ ok f
      → forecast_accepts f ≡ true
      → is_some id ≡ true
  unfolding approved_forecast pure
  named_forecast none plan s none h accepts = accepts
  named_forecast none plan s (some f) h accepts = absurd (cc h)
  named_forecast (some id) plan s f h accepts = refl

  reviewed_of :
      (candidates accept : Bool) (forecast : Bool) (named : Bool)
      → (candidates && not (accept || forecast)) ≡ false
      → (forecast ≡ true → named ≡ true)
      → (candidates && not (accept || named)) ≡ false
  reviewed_of candidates accept forecast named h k = ground arith

  -- The journal is written last.
  journal-Prepared :
      (s t : Session World) (plan : RebasePlan) (ref name : Text) (forecast : Option Forecast)
      → s.disk ≡ none
      → ((has plan.candidates && not (options.accept_candidates || forecast_accepts forecast))
            ≡ false
          → Planned s.world plan)
      → Kept t
      → Leaves
          (λ _. Prepared s)
          Kept
          (write_journal host options ref name plan forecast t).0
          (write_journal host options ref name plan forecast t).1
  unfolding write_journal ◌>>=◌ ◌>>◌ perform modify write_state pure
  journal-Prepared s t plan ref name forecast vacant fits kept =
      Reads-outcome (λ _. Prepared s) Kept (throw_when _ _) _ t (Reads-throw_when _ _) kept
        (λ _ passed. (
          vacant,
          (
            plan,
            fits (passed_test _ _ t passed),
            record {
              tracked =
                  new-IsTracked (host.new_id (codes "rebase_op") t.world).0 ref name options.onto
                    plan (options.accept_candidates || forecast_accepts forecast) forecast;
              queue = refl;
              index = refl;
              idle = refl;
              vacant = refl;
              disk = idle-IsSound refl;
            },
          ),
        ))

  no_journal : (b : Bool) (o : Option Operation) → (b || is_some o) ≡ false → o ≡ none
  no_journal b none h = refl
  no_journal b (some o) h = ground arith

  passed_not : (b : Bool) → not b ≡ false → b ≡ true
  passed_not b h = ground arith

  pub prepare-Prepared :
      (s : Session World)
      → DiskSound s.disk
      → Leaves (λ _. Prepared s) Kept (prepare host options s).0 (prepare host options s).1
  unfolding prepare ◌>>=◌ ◌>>◌ asks pure
  prepare-Prepared s sound =
      Reads-outcome (λ _. Prepared s) Kept (throw_when _ _) _ s (Reads-throw_when _ _) sound
        (λ _ idle.
          Reads-outcome (λ _. Prepared s) Kept (approved_overlay host options.forecast_id) _ s
            (approved_overlay-Reads _) sound
            (λ overlay _.
              Reads-outcome (λ _. Prepared s) Kept
                (when (not (is_some overlay)) (assert_clean host)) _ s
                (Reads-when _ assert_clean-Reads) sound
                (λ _ _.
                  Reads-outcome (λ _. Prepared s) Kept (throw_when (host.replay_active s.world) _) _
                    s (Reads-throw_when _ _) sound
                    (λ _ _.
                      Reads-outcome (λ _. Prepared s) Kept (current_branch host) _ s
                        current_branch-Reads sound
                        (λ branch found_branch.
                          Reads-outcome (λ _. Prepared s) Kept (lift _) _ s (Reads-lift _) sound
                            (λ plan planned.
                              Reads-outcome (λ _. Prepared s) Kept
                                (throw_when (not plan.topology.supported) _) _ s
                                (Reads-throw_when _ _) sound
                                (λ _ supported.
                                  Reads-outcome (λ _. Prepared s) Kept
                                    (approved_forecast host options.forecast_id plan) _ s
                                    (approved_forecast-Reads _ plan) sound
                                    (λ forecast found.
                                      outcome-bind (λ _. Kept) (λ _. Prepared s) Kept Kept
                                        (with_overlay overlay
                                          (λ tree. call (host.assert_overlay_current tree)) s).0
                                        (with_overlay overlay
                                          (λ tree. call (host.assert_overlay_current tree)) s).1
                                        _
                                        (unchanged_after (λ _ d. DiskSound d) _ s
                                          (overlay-Quiet overlay) sound)
                                        (λ _ t kept.
                                          outcome-bind (λ _. Prepared s) (λ _. Prepared s) Kept Kept
                                            (write_journal host options branch.0 branch.1 plan
                                              forecast t).0
                                            (write_journal host options branch.0 branch.1 plan
                                              forecast t).1
                                            (λ _. pure overlay)
                                            (journal-Prepared s t plan branch.0 branch.1 forecast
                                              (no_journal _ s.disk (passed_test _ _ s idle))
                                              (λ fits. record {
                                                branch = branch.1;
                                                checked_out =
                                                    current_branch_lem s branch found_branch;
                                                planned = planned;
                                                supported =
                                                    passed_not _ (passed_test _ _ s supported);
                                                reviewed =
                                                    reviewed_of _ options.accept_candidates
                                                      (forecast_accepts forecast)
                                                      (is_some options.forecast_id) fits
                                                      (named_forecast options.forecast_id plan s
                                                        forecast found);
                                              })
                                              kept)
                                            (λ _ _ h. h) (λ _ h. h))
                                        (λ _ h. h)))))))))

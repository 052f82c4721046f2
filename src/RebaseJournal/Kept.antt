-- ===== src/RebaseJournal/Kept.antt =====
-- The parts of one step of `runRebaseQueue` leave the ledger as it is.
use vcs_lab.Prelude.{
  true, false, if◌then◌else◌, ◌≡◌, refl, ℕ, Bool, false, Option, none, some, List, [], ◌∷◌, Text,
}
use vcs_lab.RebaseProgram.{MergeChange, AbsorbedItem}
use vcs_lab.RebaseJournal.{
  blocked, conflicted, ApprovedResolution, ApprovedSpecMerge, Absorption, AbsorbedCommit, Conflict,
  Candidate, RunState, ForecastStep, ForecastApproval,
}
use vcs_lab.RebaseJournal.Host.{SpecPlanView, GitCommand, Host}
use vcs_lab.RebaseJournal.Session.{run_git}
use vcs_lab.RebaseJournal.Approval.{
  found_spec, match_specs, spec_choices_from, pair_choice, choose_all, choices_from,
  forecast_resolution_choices, mark_mismatch, check_step, expected_from, expected_forecast_step,
  validate_forecast_after,
}
use vcs_lab.RebaseJournal.Approving.{
  forecast_spec_merge_choices, materialize_choices, commit_recreated_merge,
}
use vcs_lab.RebaseJournal.Absorbing.{
  block_absorption, interactive_pause, pause_absorption, reuse_exact, settle_conflicts,
  settle_absorption, absorb_one, absorb_each, absorb_outstanding, begin_absorption,
  apply_absorption, set_absorption, the_absorption,
}
use vcs_lab.RebaseJournal.Stepping.{
  stop_step, describe_conflicts, finish_phase, move_to, refuse_expected,
}
use vcs_lab.RebaseJournal.Ledger.{awaits, Ledger, Started}
use vcs_lab.RebaseJournal.Rules.{
  Stays-throw, Stays-throw_when, Stays, Stops, stays, stops, Stays-Stops, Stays-set_state,
  Stays-write_state, Stops-throw, Stays-call, Stays-current, Stays-set_current, Stops-then,
  Stays-if, Stays-pure, Stays-bind, Stays-asks, Stays-gets, Stays-then,
}

settled-awaits : (b : Bool) → awaits (if b then blocked else conflicted) ≡ false
settled-awaits true = refl
settled-awaits false = refl

module _ {World : Type 0} {l : Ledger} {k : Bool} ⦃started : Started l k⦄ where
  pub mark_mismatch-Stops : {A : Type 0} → Stops l k (mark_mismatch {World = World} {A = A})
  unfolding mark_mismatch
  mark_mismatch-Stops =
      Stops-then (Stays-set_state _ refl) (Stops-then Stays-write_state (Stops-throw _))

  pub check_step-Stays :
      {a : Bool} (change : MergeChange) (step : Option ForecastStep)
      → Stays l k a (check_step {World = World} change step)
  unfolding check_step
  check_step-Stays change none = Stays-Stops mark_mismatch-Stops
  check_step-Stays change (some step) = Stays-if _ (Stays-pure _) (Stays-Stops mark_mismatch-Stops)

  pub expected_from-Stays :
      {a : Bool} (change : MergeChange) (i : ℕ) (approval : Option ForecastApproval)
      → Stays l k a (expected_from {World = World} change i approval)
  unfolding expected_from
  expected_from-Stays change i none = Stays-pure _
  expected_from-Stays change i (some approval) = check_step-Stays change _

  pub expected-Stays :
      {a : Bool} (change : MergeChange)
      → Stays l k a (expected_forecast_step {World = World} change)
  unfolding expected_forecast_step
  expected-Stays change =
      Stays-bind (Stays-gets _)
        (λ o. expected_from-Stays change o.executed_count o.forecast_approval)

  pub validate_forecast_after-Stays :
      {a : Bool} (change : MergeChange) (tree outcome : Text)
      → Stays l k a (validate_forecast_after {World = World} change tree outcome)
  unfolding validate_forecast_after
  validate_forecast_after-Stays change tree outcome =
      search (stays, expected-Stays, Stays-Stops, mark_mismatch-Stops)

  pub block_absorption-Stops : (host : Host World) → Stops l k (block_absorption host)
  unfolding block_absorption
  block_absorption-Stops host = search (stops) depth 20

  pub interactive_pause-Stops :
      (host : Host World) (state : RunState) → k ≡ false → Stops l k (interactive_pause host state)
  unfolding interactive_pause
  interactive_pause-Stops host state h = search (stops) depth 20

  module _ (host : Host World) where
    pub run_git-Stays : {a : Bool} (command : GitCommand) → Stays l k a (run_git host command)
    unfolding run_git
    run_git-Stays command = search (stays) depth 20

    pub set_absorption-Stays :
        {a : Bool} (x : Absorption) → Stays l k a (set_absorption {World = World} x)
    set_absorption-Stays x = Stays-current (λ c h. Stays-set_current _ h)

    pub the_absorption-Stays : {a : Bool} → Stays l k a (the_absorption {World = World})
    the_absorption-Stays = Stays-current (λ c h. search (stays))

    pub pause_absorption-Stops :
        (commit : Text) (paths : List Text) (conflicts : List Conflict)
        → k ≡ false
        → Stops l k (pause_absorption host commit paths conflicts)
    unfolding pause_absorption
    pause_absorption-Stops commit paths conflicts h =
        search (stops, set_absorption-Stays, the_absorption-Stays) depth 20

    pub materialize_choices-Stays :
        {a : Bool} (method : Text) (choices : List (Conflict × Candidate))
        → Stays l k a (materialize_choices host method choices)
    unfolding materialize_choices
    materialize_choices-Stays method [] = Stays-pure _
    materialize_choices-Stays {a} method ((c, d) ∷ choices) =
        Stays-then (Stays-call _)
          (Stays-bind (materialize_choices-Stays {a = a} method choices) (λ rest. Stays-pure _))

    pub reuse_exact-Stays :
        {a : Bool} (conflicts : List Conflict) → Stays l k a (reuse_exact host conflicts)
    unfolding reuse_exact
    reuse_exact-Stays conflicts =
        search (stays, materialize_choices-Stays, set_absorption-Stays, the_absorption-Stays) depth
          20

    pub settle_conflicts-Stays :
        {a : Bool} (commit : Text) (paths : List Text)
        → k ≡ false
        → Stays l k a (settle_conflicts host commit paths)
    unfolding settle_conflicts
    settle_conflicts-Stays commit paths h = Stays-bind (Stays-call _) (λ conflicts.
        Stays-if _ (reuse_exact-Stays conflicts)
          (Stays-Stops (pause_absorption-Stops commit paths conflicts h)))

    pub settle_absorption-Stays :
        {a : Bool} (commit : Text) → k ≡ false → Stays l k a (settle_absorption host commit)
    unfolding settle_absorption
    settle_absorption-Stays commit h = Stays-bind (Stays-asks _) (λ paths.
        Stays-if _ (Stays-Stops (block_absorption-Stops host))
          (settle_conflicts-Stays commit paths h))

    pub absorb_one-Stays :
        {a : Bool} (item : AbsorbedCommit) → k ≡ false → Stays l k a (absorb_one host item)
    unfolding absorb_one
    absorb_one-Stays item h =
        search (stays, settle_absorption-Stays, set_absorption-Stays, the_absorption-Stays) depth 20

    pub absorb_each-Stays :
        {a : Bool} (items : List AbsorbedCommit) → k ≡ false → Stays l k a (absorb_each host items)
    unfolding absorb_each
    absorb_each-Stays [] h = Stays-pure tt
    absorb_each-Stays (i ∷ items) h = Stays-then (absorb_one-Stays i h) (absorb_each-Stays items h)

    pub absorb_outstanding-Stays : {a : Bool} → k ≡ false → Stays l k a (absorb_outstanding host)
    unfolding absorb_outstanding
    absorb_outstanding-Stays h = search (stays, absorb_each-Stays, the_absorption-Stays) depth 20

    pub apply_absorption-Stays :
        {a : Bool} (change : MergeChange) (items : List AbsorbedItem)
        → k ≡ false
        → Stays l k a (apply_absorption host change items)
    unfolding apply_absorption begin_absorption
    apply_absorption-Stays change [] h = Stays-pure tt
    apply_absorption-Stays change (i ∷ items) h =
        search (stays, absorb_outstanding-Stays, set_absorption-Stays) depth 20

    pub move_to-Stays : (parent : Text) → Stays l k false (move_to host parent)
    unfolding move_to
    move_to-Stays parent = search (stays, run_git-Stays) depth 20

    pub refuse_expected-Stays :
        {a : Bool} (e : Option ForecastStep) → Stays l k a (refuse_expected host e)
    unfolding refuse_expected
    refuse_expected-Stays none = Stays-pure tt
    refuse_expected-Stays (some step) = Stays-Stops mark_mismatch-Stops

    pub commit_recreated_merge-Stays :
        {a : Bool} (change : MergeChange) → Stays l k a (commit_recreated_merge host change)
    unfolding commit_recreated_merge
    commit_recreated_merge-Stays change = search (stays, run_git-Stays) depth 20

    found_spec-Stays :
        {a : Bool} (o : Option SpecPlanView) → Stays l k a (found_spec {World = World} o)
    unfolding found_spec
    found_spec-Stays none = Stays-throw _
    found_spec-Stays (some p) = Stays-pure _

    match_specs-Stays :
        {a : Bool} (plans : List SpecPlanView) (approvals : List ApprovedSpecMerge)
        → Stays l k a (match_specs {World = World} plans approvals)
    unfolding match_specs
    match_specs-Stays plans [] = Stays-pure _
    match_specs-Stays {a} plans (x ∷ approvals) =
        Stays-bind (found_spec-Stays _)
          (λ p. Stays-bind (match_specs-Stays {a = a} plans approvals) (λ rest. Stays-pure _))

    spec_choices_from-Stays :
        {a : Bool} (approvals : List ApprovedSpecMerge) (plans : List SpecPlanView)
        → Stays l k a (spec_choices_from {World = World} approvals plans)
    unfolding spec_choices_from
    spec_choices_from-Stays [] plans = Stays-pure _
    spec_choices_from-Stays (x ∷ approvals) plans =
        Stays-then (Stays-throw_when _ _) (match_specs-Stays plans (x ∷ approvals))

    pub forecast_spec_merge_choices-Stays :
        {a : Bool} (change : MergeChange) (approval : Option ForecastApproval)
        → Stays l k a (forecast_spec_merge_choices host change approval)
    unfolding forecast_spec_merge_choices
    forecast_spec_merge_choices-Stays change none = Stays-pure _
    forecast_spec_merge_choices-Stays change (some approval) =
        Stays-bind (Stays-asks _) (λ plans. spec_choices_from-Stays _ _)

    pair_choice-Stays :
        {a : Bool} (conflict : Conflict) (o : Option Candidate)
        → Stays l k a (pair_choice {World = World} conflict o)
    unfolding pair_choice
    pair_choice-Stays conflict none = Stays-throw _
    pair_choice-Stays conflict (some c) = Stays-pure _

    choose_all-Stays :
        {a : Bool} (approvals : List ApprovedResolution) (conflicts : List Conflict)
        → Stays l k a (choose_all {World = World} approvals conflicts)
    unfolding choose_all
    choose_all-Stays approvals [] = Stays-pure _
    choose_all-Stays {a} approvals (c ∷ cs) =
        Stays-bind (pair_choice-Stays c _)
          (λ choice. Stays-bind (choose_all-Stays {a = a} approvals cs) (λ rest. Stays-pure _))

    choices_from-Stays :
        {a : Bool} (approvals : List ApprovedResolution) (conflicts : List Conflict)
        → Stays l k a (choices_from {World = World} approvals conflicts)
    unfolding choices_from
    choices_from-Stays [] conflicts = Stays-pure _
    choices_from-Stays (x ∷ approvals) conflicts =
        Stays-then (Stays-throw_when _ _)
          (Stays-bind (choose_all-Stays (x ∷ approvals) conflicts) (λ choices. Stays-pure _))

    pub forecast_resolution_choices-Stays :
        {a : Bool} (change : MergeChange) (conflicts : List Conflict)
        (approval : Option ForecastApproval)
        → Stays l k a (forecast_resolution_choices {World = World} change conflicts approval)
    unfolding forecast_resolution_choices
    forecast_resolution_choices-Stays change conflicts none = Stays-pure _
    forecast_resolution_choices-Stays change conflicts (some approval) = choices_from-Stays _ _

    Stays-finish_phase : {a : Bool} → Stays l k a (finish_phase {World = World})
    Stays-finish_phase = record {
      holds = λ s u. record {
        same = u.same;
        fits = u.fits;
        waits = u.waits;
        applies = u.applies;
        disk = u.disk;
      };
    }

    pub stop_step-Stops :
        (expected : Option ForecastStep) (paths : List Text)
        → Stops l k (stop_step host expected paths)
    unfolding stop_step
    stop_step-Stops expected paths =
        search (stops, refuse_expected-Stays, Stays-finish_phase) depth 20

    pub describe_conflicts-Stays : Stays l k false (describe_conflicts host)
    unfolding describe_conflicts
    describe_conflicts-Stays = search (stays, settled-awaits) depth 20

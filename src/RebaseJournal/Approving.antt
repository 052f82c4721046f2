-- ===== src/RebaseJournal/Approving.antt =====
-- `forecastSpecMergeChoices`, `commitRecreatedMerge` and `applyForecastResolutions`.
use vcs_lab.Prelude.{
  Bool, true, false, not, Option, none, some, List, [], ◌∷◌, map, if◌then◌else◌, Text, codes, ◌==◌,
  filter, any, is_some,
}
use vcs_lab.Errors.{stale_input, conflict_blocked}
use vcs_lab.Topology.{recreated_merge_message}
use vcs_lab.RebaseProgram.{MergeChange}
use vcs_lab.RebaseJournal.{
  contextual_rebase, Candidate, Conflict, SemanticMerge, Join, ForecastApproval,
}
use vcs_lab.RebaseJournal.Host.{
  commit_no_edit, write_merge_message, cherry_pick_continue, SpecPlanView, Host,
}
use vcs_lab.RebaseJournal.Session.{
  M, ◌>>=◌, ◌>>◌, pure, gets, asks, call, throw_when, write_state, the_current, set_current,
  run_git, try_git, join_of,
}
use vcs_lab.RebaseJournal.Recording.{record_successful_application, record_recreated_merge}
use vcs_lab.RebaseJournal.Approval.{
  selected, choices_or_none, has, actual_outcome, resolved_by, nothing_approved, with_marks,
  validate_forecast_after, forecast_resolution_choices, spec_choices_from,
}

module _ {World : Type 0} (host : Host World) where
  -- `forecastSpecMergeChoices`.
  unfoldable pub forecast_spec_merge_choices :
      MergeChange → Option ForecastApproval → M World (List SpecPlanView)
  unfolding spec_choices_from
  forecast_spec_merge_choices change none = pure []
  forecast_spec_merge_choices change (some approval) = do
    plans ← asks host.spec_plans
    spec_choices_from (filter (λ a. a.source_commit == change.commit) approval.approved_spec_merges)
        (filter (λ p. p.clean) plans)

  -- `commitRecreatedMerge`.
  unfoldable pub commit_recreated_merge : MergeChange → M World (Unit {0})
  unfolding run_git
  commit_recreated_merge change = do
    current ← the_current
    join ← join_of current
    run_git host (
        write_merge_message (
          recreated_merge_message change.subject join.change_id (some change.change_id)
            change.commit))
    committed ← try_git host commit_no_edit
    throw_when (not committed) conflict_blocked

  -- `materializeSpecMerge` of each plan, in order.
  unfoldable pub materialize_specs : List SpecPlanView → M World (List SemanticMerge)
  materialize_specs [] = pure []
  materialize_specs (p ∷ plans) = do
    call (host.materialize_spec p)
    rest ← materialize_specs plans
    pure ((record { file = p.file; resolved_paths = p.resolved_paths; accepted = false }) ∷ rest)

  -- `materializeResolutionCandidate` and the marks on the conflict.
  unfoldable pub materialize_choices : Text → List (Conflict × Candidate) → M World (List Conflict)
  materialize_choices method [] = pure []
  materialize_choices method ((conflict, candidate) ∷ choices) = do
    call (host.materialize_candidate conflict candidate)
    rest ← materialize_choices method choices
    pure (selected method candidate conflict ∷ rest)

  -- The commit of what was resolved.
  unfoldable pub commit_resolved : MergeChange → Bool → M World (Unit {0})
  unfolding commit_recreated_merge
  commit_resolved change true = commit_recreated_merge change
  commit_resolved change false = do
    continued ← try_git host cherry_pick_continue
    throw_when (not continued) conflict_blocked

  unfoldable pub record_resolved : MergeChange → Option Join → M World (Unit {0})
  unfolding record_recreated_merge record_successful_application
  record_resolved change none = record_successful_application host contextual_rebase
  record_resolved change (some join) = record_recreated_merge host change join.parents false

  -- From the choices on.
  unfoldable pub apply_choices :
      MergeChange
      → List Conflict
      → List (Conflict × Candidate)
      → List SpecPlanView
      → M World (Unit {0})
  unfolding materialize_specs materialize_choices commit_resolved validate_forecast_after
      record_resolved actual_outcome write_state with_marks
  apply_choices change exact choices specs = do
    merges ← materialize_specs specs
    outcomes ← call (host.capture_spec_outcomes merges)
    before ← the_current
    set_current (record before { semantic_merges = outcomes })
    throw_when (any (λ m. not m.accepted) outcomes) stale_input
    marked ← materialize_choices (codes "rebase-forecast-batch") choices
    resolutions ← call (host.capture_outcomes (if has choices then marked else exact))
    current ← the_current
    set_current (record current {
      resolution_outcomes = resolutions;
      conflicts = map (with_marks marked) current.conflicts;
    })
    write_state
    commit_resolved change (is_some current.join)
    head ← asks host.head
    tree ← asks (host.tree_of head)
    validate_forecast_after change tree (actual_outcome (has merges) (has choices))
    record_resolved change current.join

  unfoldable pub apply_or_leave :
      Bool
      → MergeChange
      → List Conflict
      → List (Conflict × Candidate)
      → List SpecPlanView
      → M World Bool
  unfolding apply_choices
  apply_or_leave true change exact choices specs = pure false
  apply_or_leave false change exact choices specs = do
    apply_choices change exact choices specs
    pure true

  unfoldable pub apply_approval : MergeChange → Option ForecastApproval → M World Bool
  unfolding forecast_spec_merge_choices forecast_resolution_choices nothing_approved apply_or_leave
  apply_approval change approval = do
    specs ← forecast_spec_merge_choices change approval
    current ← the_current
    let exact = filter (λ c. not (resolved_by specs c.path)) current.conflicts
    choices ← forecast_resolution_choices change exact approval
    apply_or_leave (nothing_approved choices specs exact) change exact (choices_or_none choices)
        specs

  -- `applyForecastResolutions`.
  unfoldable pub apply_forecast_resolutions : MergeChange → M World Bool
  unfolding apply_approval
  apply_forecast_resolutions change = do
    approval ← gets (λ o. o.forecast_approval)
    apply_approval change approval

-- ===== src/RebaseJournal/Starting.antt =====
-- `startRebaseInSession` and `startOperation` of src/rebase-operations.js.
use vcs_lab.Prelude.{
  Bool, false, not, ◌&&◌, ◌||◌, Option, none, some, List, [], ◌∷◌, Text, codes, is_some,
}
use vcs_lab.Errors.{
  ErrorCode, ok, git_operation_active, operation_in_progress, approval_required,
  unsupported_repository_shape,
}
use vcs_lab.Interactive.{InteractiveOptions}
use vcs_lab.RebasePlan.{RebasePlan, build_rebase_plan}
use vcs_lab.RebaseProgram.{rebase_program}
use vcs_lab.Topology.{UnsupportedMerge, unsupported_topology_error}
use vcs_lab.RebaseJournal.{
  has, prepared, reducing_overlay, resetting, running, ForecastApproval, Operation, Receipt,
}
use vcs_lab.RebaseJournal.Host.{reset_hard, Forecast, Host}
use vcs_lab.RebaseJournal.Session.{
  M, ◌>>=◌, ◌>>◌, pure, gets, modify, asks, perform, call, throw_when, when, write_state, set_state,
  run_git,
}
use vcs_lab.RebaseJournal.Absorbing.{lift}
use vcs_lab.RebaseJournal.Finishing.{run_rebase_queue}
use vcs_lab.RebaseJournal.Checks.{current_branch, assert_clean, with_overlay}

-- The options of `rebase`.
pub record StartOptions : Type 0 where
  pub onto : Text
  pub from : Option Text
  pub interactive : InteractiveOptions
  pub accept_candidates : Bool
  pub forecast_id : Option Text

abbrev from_overlay : Option Forecast → Option Text
from_overlay none = none
from_overlay (some f) = f.target_overlay

abbrev from_approval : Option Forecast → Option ForecastApproval
from_approval none = none
from_approval (some f) = some f.approval

abbrev pub forecast_accepts : Option Forecast → Bool
forecast_accepts none = false
forecast_accepts (some f) = f.accept_candidates

-- `startOperation`.
unfoldable pub start_operation :
    Text → Text → Text → Text → RebasePlan → Bool → Option Forecast → Operation
unfolding rebase_program
start_operation id ref name onto plan accept forecast = record {
  id = id;
  state = prepared;
  source_ref = name;
  source_branch_ref = ref;
  source_head = plan.source_head;
  original_head = plan.source_head;
  onto_ref = onto;
  onto_head = plan.onto_head;
  accept_candidates = accept;
  forecast_approval = from_approval forecast;
  target_overlay = from_overlay forecast;
  overlay_rematerialized = false;
  plan = plan;
  queue = rebase_program plan;
  next_index = 0;
  executed_count = 0;
  rewritten = [];
  recreated_merges = [];
  amendments = [];
  absorptions = [];
  applied = [];
  current = none;
}

-- The first refusal of an unsupported plan.
unfoldable pub first_refusal : List UnsupportedMerge → ErrorCode
first_refusal [] = unsupported_repository_shape
first_refusal (m ∷ ms) = unsupported_topology_error m

module _ {World : Type 0} (host : Host World) where
  -- `options.forecastId ? readRebaseForecast(...)?.targetOverlay ?? null : null`.
  unfoldable pub approved_overlay : Option Text → M World (Option Text)
  approved_overlay none = pure none
  approved_overlay (some id) = do overlay ← asks (host.forecast_overlay id); lift overlay

  unfoldable pub approved_forecast : Option Text → RebasePlan → M World (Option Forecast)
  approved_forecast none plan = pure none
  approved_forecast (some id) plan = do
    found ← asks (host.forecast_for_plan id plan)
    forecast ← lift found
    pure (some forecast)

  -- The candidates were accepted, or nothing is written.
  unfoldable pub write_journal :
      StartOptions → Text → Text → RebasePlan → Option Forecast → M World (Unit {0})
  unfolding start_operation write_state
  write_journal options ref name plan forecast = do
    let accept = options.accept_candidates || forecast_accepts forecast
    throw_when (has plan.candidates && not accept) approval_required
    id ← perform (host.new_id (codes "rebase_op"))
    modify (λ _. start_operation id ref name options.onto plan accept forecast)
    write_state

  abbrev has_disk : M World Bool
  has_disk s = (ok (is_some s.disk), s)

  -- `startRebaseInSession`, up to the point where the branch moves.
  unfoldable pub prepare : StartOptions → M World (Option Text)
  unfolding approved_overlay approved_forecast assert_clean current_branch first_refusal
      build_rebase_plan write_journal
  prepare options = do
    pending ← has_disk
    reconciling ← asks host.reconciliation_pending
    throw_when (reconciling || pending) operation_in_progress
    overlay ← approved_overlay options.forecast_id
    when (not (is_some overlay)) (assert_clean host)
    active ← asks host.replay_active
    throw_when active git_operation_active
    branch ← current_branch host
    repository ← asks host.repository
    plan ←
        lift (
          build_rebase_plan repository options.onto (some branch.1) options.from
            options.interactive)
    throw_when (not plan.topology.supported) (first_refusal plan.topology.unsupported_merges)
    forecast ← approved_forecast options.forecast_id plan
    with_overlay overlay (λ tree. call (host.assert_overlay_current tree))
    write_journal options branch.0 branch.1 plan forecast
    pure overlay

  -- The branch moves, and the queue runs.
  unfoldable pub begin_queue : Option Text → M World (Option Receipt)
  unfolding write_state run_git run_rebase_queue
  begin_queue overlay = do
    with_overlay overlay
        (λ tree. set_state reducing_overlay >> (write_state >> call (host.reduce_to_head tree)))
    set_state resetting
    write_state
    o ← gets (λ o. o)
    run_git host (reset_hard o.onto_head)
    set_state running
    write_state
    run_rebase_queue host

  -- `startRebase`.
  unfoldable pub start_rebase : StartOptions → M World (Option Receipt)
  unfolding prepare begin_queue
  start_rebase options = do overlay ← prepare options; begin_queue overlay

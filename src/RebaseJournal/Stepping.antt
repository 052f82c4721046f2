-- ===== src/RebaseJournal/Stepping.antt =====
-- The loop of `runRebaseQueue`: one round positions the branch, runs the step, and records it or stops.
use vcs_lab.Prelude.{
  ℕ, zero, suc, Bool, true, false, not, Option, none, some, List, [], ◌∷◌, map, if◌then◌else◌, ltb,
  length, Text, codes, ◌==◌, is_some,
}
use vcs_lab.Errors.{ErrorCode, Result, conflict_blocked, conflict_paused}
use vcs_lab.RebaseProgram.{MergeChange, ProgramStep, AbsorbedItem, run_merge, run_pick, run_omit}
use vcs_lab.Topology.{ResolvedParent, resolve_step_parents}
use vcs_lab.RebaseJournal.{
  positioning, applying, conflicted, blocked, MergeParent, Join, Current, ForecastStep, Operation,
  change_of, step_of_item,
}
use vcs_lab.RebaseJournal.Host.{cherry_pick, merge_no_commit, reset_hard, Host}
use vcs_lab.RebaseJournal.Session.{
  M, ◌>>=◌, ◌>>◌, pure, gets, modify, asks, perform, call, throw, when, write_state, set_state,
  from_some, the_current, current_item, set_current, run_git, try_git, catch,
}
use vcs_lab.RebaseJournal.Recording.{anchor_rewritten, record_recreated_merge}
use vcs_lab.RebaseJournal.Approval.{
  mark_mismatch, validate_forecast_before, validate_forecast_after,
}
use vcs_lab.RebaseJournal.Approving.{commit_recreated_merge, apply_forecast_resolutions}
use vcs_lab.RebaseJournal.Absorbing.{apply_absorption, finish_surviving_step, lift}

abbrev has_none {ℓ} : {A : Type ℓ} → List A → Bool
has_none [] = true
has_none (x ∷ xs) = false

-- `parents[0]`, `parents[1]`.
unfoldable pub first_parent : List ResolvedParent → Option Text
first_parent [] = none
first_parent (p ∷ ps) = some p.commit

unfoldable pub second_parent : List ResolvedParent → Option Text
unfolding first_parent
second_parent [] = none
second_parent (p ∷ ps) = first_parent ps

abbrev pub merge_parents : List ResolvedParent → List MergeParent
merge_parents parents =
    map (λ p. record { commit = p.commit; replaces = p.origin; source = p.source }) parents

-- `operation.current` at the start of a step.
unfoldable pub started : MergeChange → Text → Text → Option Join → Current
started change before before_tree join = record {
  source_commit = change.commit;
  source_change_id = change.change_id;
  target_before = before;
  target_before_tree = before_tree;
  conflicted_paths = [];
  join = join;
  conflicts = [];
  resolution_outcomes = [];
  semantic_merges = [];
  absorption = none;
  tree_before_edit = none;
  fork_change_id = none;
}

-- `operation.nextIndex < operation.queue.length`.
abbrev pub has_more : Operation → Bool
has_more o = ltb o.next_index (length o.queue)

module _ {World : Type 0} where
  -- `finishPhase(false)`, without the metrics.
  abbrev pub finish_phase : M World (Unit {0})
  finish_phase s = (Result.ok tt, record s { recorded = true })

  -- `finishPhase(true)` in the `catch` of the loop, which throws the error on.
  unfoldable pub leave : {A : Type 0} → ErrorCode → M World A
  unfolding write_state
  leave code s = (Result.err code, if s.recorded then s else (write_state s).1)

module _ {World : Type 0} (host : Host World) where
  -- The mapping of an omission.
  unfoldable pub omit_step : Text → Text → M World (Unit {0})
  unfolding anchor_rewritten write_state
  omit_step commit parent = do
    anchor_rewritten host commit parent
    modify (λ o. record o { next_index = suc o.next_index })
    write_state

  -- HEAD moves to the parent that the step applies onto.
  unfoldable pub move_to : Text → M World (Unit {0})
  unfolding run_git write_state
  move_to parent = do
    head ← asks host.head
    when (not (head == parent))
        do set_state positioning; write_state; run_git host (reset_hard parent)

  -- `operation.current = { ... }`, journaled; and the forecast's step.
  unfoldable pub begin_step : MergeChange → Option Join → M World (Option ForecastStep)
  unfolding validate_forecast_before write_state started
  begin_step change join = do
    before ← asks host.head
    before_tree ← asks (host.tree_of before)
    set_state applying
    set_current (started change before before_tree join)
    write_state
    validate_forecast_before change before_tree

  -- An expected result that did not come about.
  unfoldable pub refuse_expected : Option ForecastStep → M World (Unit {0})
  unfolding mark_mismatch
  refuse_expected none = pure tt
  refuse_expected (some step) = mark_mismatch

  -- The handler around `applyForecastResolutions`.
  unfoldable pub resolution_failed : Option ForecastStep → ErrorCode → M World Bool
  unfolding mark_mismatch
  resolution_failed none code = throw code
  resolution_failed (some step) code = mark_mismatch

  -- The code of `conflictError`.
  unfoldable pub conflict_code : List Text → ErrorCode
  conflict_code [] = conflict_blocked
  conflict_code (p ∷ paths) = conflict_paused

  -- What follows a conflict that no forecast resolved.
  unfoldable pub stop_step : Option ForecastStep → List Text → M World (Unit {0})
  unfolding refuse_expected conflict_code write_state
  stop_step expected paths = do
    refuse_expected expected
    finish_phase
    write_state
    throw (conflict_code paths)

  unfoldable pub try_forecast : Option ForecastStep → MergeChange → List Text → M World Bool
  unfolding apply_forecast_resolutions resolution_failed
  try_forecast expected change [] = pure false
  try_forecast expected change (p ∷ paths) =
      catch (apply_forecast_resolutions host change) (resolution_failed expected)

  -- The paths in conflict and their descriptors, in the journal's memory.
  unfoldable pub describe_conflicts : M World (List Text)
  describe_conflicts = do
    paths ← asks host.unmerged_paths
    current ← the_current
    set_current (record current { conflicted_paths = paths })
    conflicts ← call (host.capture_descriptors paths)
    described ← the_current
    set_current (record described { conflicts = conflicts })
    set_state (if has_none paths then blocked else conflicted)
    pure paths

  -- From `operation.current.conflictedPaths = unmergedPaths(cwd)` on.
  unfoldable pub settle_step : Option ForecastStep → MergeChange → M World (Unit {0})
  unfolding describe_conflicts try_forecast stop_step
  settle_step expected change = do
    paths ← describe_conflicts
    resolved ← try_forecast expected change paths
    when (not resolved) (stop_step expected paths)

  -- Both parents became the same line.
  unfoldable pub block_join : M World (Unit {0})
  unfolding write_state
  block_join = do set_state blocked; finish_phase; write_state; throw conflict_blocked

  unfoldable pub finish_join : MergeChange → List MergeParent → M World (Unit {0})
  unfolding block_join commit_recreated_merge validate_forecast_after record_recreated_merge
  finish_join change parents = do
    pending ← asks host.pending_merge_head
    when (not (is_some pending)) block_join
    commit_recreated_merge host change
    head ← asks host.head
    tree ← asks (host.tree_of head)
    validate_forecast_after change tree (codes "clean")
    record_recreated_merge host change parents true

  unfoldable pub after_merge :
      Option ForecastStep → MergeChange → List MergeParent → Bool → M World (Unit {0})
  unfolding finish_join settle_step
  after_merge expected change parents true = finish_join change parents
  after_merge expected change parents false = settle_step expected change

  -- A recreated merge; its identity is minted and journaled before the commit exists.
  unfoldable pub join_step : MergeChange → Text → List ResolvedParent → M World (Unit {0})
  unfolding begin_step after_merge second_parent
  join_step change parent parents = do
    move_to parent
    id ← perform (host.new_id (codes "ch"))
    expected ← begin_step change (some (record { change_id = id; parents = merge_parents parents }))
    joined ← from_some (second_parent parents)
    merged ← try_git host (merge_no_commit joined)
    after_merge expected change (merge_parents parents) merged

  -- An error here leaves the metrics recorded, so that the journal is not written again.
  unfoldable pub rethrow_recorded : ErrorCode → M World (Unit {0})
  rethrow_recorded code = do finish_phase; throw code

  unfoldable pub finish_pick : MergeChange → List AbsorbedItem → M World (Unit {0})
  unfolding apply_absorption finish_surviving_step rethrow_recorded
  finish_pick change absorbs =
      catch (apply_absorption host change absorbs >> finish_surviving_step host) rethrow_recorded

  unfoldable pub after_pick :
      Option ForecastStep → MergeChange → List AbsorbedItem → Bool → M World (Unit {0})
  unfolding finish_pick settle_step
  after_pick expected change absorbs true = finish_pick change absorbs
  after_pick expected change absorbs false = settle_step expected change

  unfoldable pub pick_step : MergeChange → List AbsorbedItem → Text → M World (Unit {0})
  unfolding move_to begin_step after_pick
  pick_step change absorbs parent = do
    move_to parent
    expected ← begin_step change none
    picked ← try_git host (cherry_pick change.commit)
    after_pick expected change absorbs picked

  unfoldable pub run_item : ProgramStep → Text → List ResolvedParent → M World (Unit {0})
  unfolding omit_step join_step pick_step
  run_item (run_omit step) parent parents = omit_step (change_of (run_omit step)).commit parent
  run_item (run_merge step change) parent parents = join_step change parent parents
  run_item (run_pick step c absorbs) parent parents =
      pick_step (change_of (run_pick step c absorbs)) absorbs parent

  -- One round of the loop. A step has at least one parent.
  unfoldable pub run_round : ProgramStep → M World (Unit {0})
  unfolding run_item resolve_step_parents first_parent
  run_round item = do
    o ← gets (λ o. o)
    parents ← lift (resolve_step_parents (step_of_item item) o.onto_head o.rewritten)
    parent ← from_some (first_parent parents)
    run_item item parent parents

  -- `while (test) { body }`, once.
  unfoldable pub while_more : Bool → M World Bool → M World Bool
  while_more true rest = rest
  while_more false rest = pure true

  -- The loop on fuel: whether the queue was exhausted, which is false when the fuel ran out.
  unfoldable pub run_rounds : ℕ → M World Bool
  unfolding while_more run_round
  run_rounds zero s = (Result.ok (not (has_more s.operation)), s)
  run_rounds (suc fuel) s =
      while_more (has_more s.operation)
        (current_item >>= λ item. run_round item >>= λ done. run_rounds fuel) s

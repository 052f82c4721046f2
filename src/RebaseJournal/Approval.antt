-- ===== src/RebaseJournal/Approval.antt =====
-- The checks against an approved forecast: `markMismatch`, `expectedForecastStep`,
-- `validateForecastBefore`, `validateForecastAfter`, `forecastResolutionChoices` and the choices of
-- `forecastSpecMergeChoices`.
use vcs_lab.Prelude.{
  ℕ, Bool, true, false, not, ◌&&◌, ◌||◌, Option, none, some, List, [], ◌∷◌, if◌then◌else◌, eqb,
  length, Text, codes, ◌==◌, contains, filter, find, any, get_or_else,
}
use vcs_lab.Errors.{stale_forecast}
use vcs_lab.RebaseProgram.{MergeChange}
use vcs_lab.RebaseJournal.{
  forecast_mismatch, Candidate, Conflict, ForecastStep, ApprovedResolution, ApprovedSpecMerge,
  ForecastApproval, get_elem?,
}
use vcs_lab.RebaseJournal.Host.{SpecPlanView}
use vcs_lab.RebaseJournal.Session.{
  M, ◌>>=◌, ◌>>◌, pure, gets, throw, throw_when, when, write_state, set_state,
}

-- `left === right` on values that may be null.
unfoldable pub same_option : Option Text → Option Text → Bool
same_option none none = true
same_option (some a) (some b) = a == b
same_option _ _ = false

-- `step && step.targetBeforeTree !== targetBeforeTree`.
unfoldable pub differs_before : Text → Option ForecastStep → Bool
differs_before tree none = false
differs_before tree (some step) = not (step.target_before_tree == tree)

unfoldable pub differs_after : Text → Text → Option ForecastStep → Bool
unfolding same_option
differs_after tree outcome none = false
differs_after tree outcome (some step) =
    not (same_option step.result_tree (some tree)) || not (step.outcome == outcome)

-- The approved candidate of one conflict.
unfoldable pub approved_candidate : List ApprovedResolution → Conflict → Option Candidate
unfolding same_option
approved_candidate approvals conflict =
    elim (find (λ a. a.path == conflict.path && a.signature == conflict.signature) approvals) [
      | none ↦ none
      | some approval ↦
          find
            (λ c. c.id == approval.resolution_id && same_option c.result_blob approval.result_blob)
            conflict.candidates
    ]

unfoldable pub fits_spec : ApprovedSpecMerge → SpecPlanView → Bool
fits_spec approval plan =
    plan.file == approval.path
    && plan.signature == approval.signature
    && plan.clean
    && plan.markdown_hash == approval.markdown_hash
    && plan.manifest_hash == approval.manifest_hash

abbrev pub selected : Text → Candidate → Conflict → Conflict
selected method candidate conflict = record conflict {
  selected = some candidate.id;
  selection_method = some method;
}

abbrev pub choices_or_none : Option (List (Conflict × Candidate)) → List (Conflict × Candidate)
choices_or_none none = []
choices_or_none (some choices) = choices

abbrev pub has {ℓ} : {A : Type ℓ} → List A → Bool
has [] = false
has (x ∷ xs) = true

unfoldable pub actual_outcome : Bool → Bool → Text
actual_outcome true true = codes "semantic-spec-and-exact-resolution"
actual_outcome true false = codes "semantic-spec-merge"
actual_outcome false _ = codes "exact-resolution"

abbrev pub resolved_by : List SpecPlanView → Text → Bool
resolved_by plans path = any (λ p. contains p.resolved_paths path) plans

-- `(!choices && specChoices.length === 0) || (!choices && exactConflicts.length > 0)`.
unfoldable pub nothing_approved :
    Option (List (Conflict × Candidate)) → List SpecPlanView → List Conflict → Bool
nothing_approved (some choices) specs exact = false
nothing_approved none specs exact = not (has specs) || has exact

-- The marks on a conflict that was chosen for, in the journal's list.
unfoldable pub with_marks : List Conflict → Conflict → Conflict
with_marks marked c = get_or_else (find (λ m. m.path == c.path) marked) c

module _ {World : Type 0} where
  -- `markMismatch`.
  unfoldable pub mark_mismatch : {A : Type 0} → M World A
  unfolding write_state
  mark_mismatch = do set_state forecast_mismatch; write_state; throw stale_forecast

  -- The forecast's step for this one, which has to be about the same commit.
  unfoldable pub check_step : MergeChange → Option ForecastStep → M World (Option ForecastStep)
  unfolding mark_mismatch
  check_step change none = mark_mismatch
  check_step change (some step) =
      if step.source_commit == change.commit then pure (some step) else mark_mismatch

  -- `expectedForecastStep`.
  unfoldable pub expected_from :
      MergeChange → ℕ → Option ForecastApproval → M World (Option ForecastStep)
  unfolding check_step
  expected_from change index none = pure none
  expected_from change index (some approval) = check_step change (get_elem? approval.steps index)

  unfoldable pub expected_forecast_step : MergeChange → M World (Option ForecastStep)
  unfolding expected_from
  expected_forecast_step change = do
    o ← gets (λ o. o)
    expected_from change o.executed_count o.forecast_approval

  unfoldable pub validate_forecast_before : MergeChange → Text → M World (Option ForecastStep)
  unfolding expected_forecast_step differs_before mark_mismatch
  validate_forecast_before change tree = do
    step ← expected_forecast_step change
    when (differs_before tree step) mark_mismatch
    pure step

  unfoldable pub validate_forecast_after : MergeChange → Text → Text → M World (Unit {0})
  unfolding expected_forecast_step differs_after mark_mismatch
  validate_forecast_after change tree outcome = do
    step ← expected_forecast_step change
    when (differs_after tree outcome step) mark_mismatch

  unfoldable pub pair_choice : Conflict → Option Candidate → M World (Conflict × Candidate)
  pair_choice conflict none = throw stale_forecast
  pair_choice conflict (some candidate) = pure (conflict, candidate)

  unfoldable pub choose_all :
      List ApprovedResolution → List Conflict → M World (List (Conflict × Candidate))
  unfolding approved_candidate pair_choice
  choose_all approvals [] = pure []
  choose_all approvals (c ∷ cs) = do
    choice ← pair_choice c (approved_candidate approvals c)
    rest ← choose_all approvals cs
    pure (choice ∷ rest)

  -- `approvals.length === 0` returns null, which is not the empty list.
  unfoldable pub choices_from :
      List ApprovedResolution → List Conflict → M World (Option (List (Conflict × Candidate)))
  unfolding choose_all
  choices_from [] conflicts = pure none
  choices_from (a ∷ approvals) conflicts = do
    throw_when (not (eqb (length (a ∷ approvals)) (length conflicts))) stale_forecast
    choices ← choose_all (a ∷ approvals) conflicts
    pure (some choices)

  -- `forecastResolutionChoices`.
  unfoldable pub forecast_resolution_choices :
      MergeChange
      → List Conflict
      → Option ForecastApproval
      → M World (Option (List (Conflict × Candidate)))
  unfolding choices_from
  forecast_resolution_choices change conflicts none = pure none
  forecast_resolution_choices change conflicts (some approval) =
      choices_from (filter (λ a. a.source_commit == change.commit) approval.approved_resolutions)
        conflicts

  unfoldable pub found_spec : Option SpecPlanView → M World SpecPlanView
  found_spec none = throw stale_forecast
  found_spec (some plan) = pure plan

  unfoldable pub match_specs :
      List SpecPlanView → List ApprovedSpecMerge → M World (List SpecPlanView)
  unfolding fits_spec found_spec
  match_specs plans [] = pure []
  match_specs plans (a ∷ approvals) = do
    plan ← found_spec (find (fits_spec a) plans)
    rest ← match_specs plans approvals
    pure (plan ∷ rest)

  unfoldable pub spec_choices_from :
      List ApprovedSpecMerge → List SpecPlanView → M World (List SpecPlanView)
  unfolding match_specs
  spec_choices_from [] plans = pure []
  spec_choices_from (a ∷ approvals) plans = do
    throw_when (not (eqb (length plans) (length (a ∷ approvals)))) stale_forecast
    match_specs plans (a ∷ approvals)

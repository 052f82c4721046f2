-- ===== src/RebasePlanText.antt =====
-- `formatRebasePlan` of src/rebase-plan.js: a plan as text. The fingerprint and the details of a refused
-- merge are texts that the model does not build, and so are arguments.
pub mod Examples
use vcs_lab.Prelude.{
  ℕ, Bool, true, false, not, Option, none, some, List, [], ◌∷◌, ◌++◌, map, if◌then◌else◌, eqb, Text,
  codes, take, length, get_or_else,
}
use vcs_lab.Interactive.{Action, omit, review, replay, reword, edit, squash, fixup}
use vcs_lab.MergePlanText.{show_number, show_reason, proof_suffix, join_ids}
use vcs_lab.RebaseLists.{RebaseChange, RecreatedMerge}
use vcs_lab.RebasePlan.{Mode, linear, merge_preserving, RebasePlan}
use vcs_lab.RebaseRange.{Range, Excluded}
use vcs_lab.Topology.{
  ParentSource, rewritten, new_base, ParentOrigin, ShapeReason, octopus_merge, parent_outside_range,
  UnsupportedMerge,
}
use vcs_lab.Trailers.{join_lines}

unfoldable title : Mode → Text
title merge_preserving = codes "Causal rebase plan (merge-preserving)"
title linear = codes "Causal rebase plan"

unfoldable show_action : Action → Text
show_action omit = codes "omit"
show_action review = codes "review"
show_action replay = codes "replay"
show_action reword = codes "reword"
show_action edit = codes "edit"
show_action squash = codes "squash"
show_action fixup = codes "fixup"

unfoldable action_marker : Action → Text
action_marker omit = codes "="
action_marker review = codes "?"
action_marker _ = codes "+"

unfoldable rebase_change_line : RebaseChange → Text
unfolding action_marker show_action proof_suffix
rebase_change_line c =
    action_marker c.action
    ++ codes " "
    ++ c.change.short_commit
    ++ codes " "
    ++ c.change.change_id
    ++ codes " "
    ++ c.change.subject
    ++ codes " -> "
    ++ show_action c.action
    ++ proof_suffix c.change.proof

unfoldable rebase_change_lines : List RebaseChange → List Text
unfolding rebase_change_line
rebase_change_lines [] = codes "No source changes are outside the physical ancestry." ∷ []
rebase_change_lines (c ∷ cs) = map rebase_change_line (c ∷ cs)

abbrev plural : List Text → Text
plural xs = if eqb (length xs) 1 then [] else codes "s"

unfoldable show_parent_of : ParentSource → Option Text → Text
show_parent_of new_base origin = codes "the new base"
show_parent_of rewritten origin = take 12 (get_or_else origin [])

unfoldable join_parents : List ParentOrigin → Text
unfolding show_parent_of
join_parents [] = []
join_parents (p ∷ []) = show_parent_of p.source p.origin
join_parents (p ∷ q ∷ ps) = show_parent_of p.source p.origin ++ codes " + " ++ join_parents (q ∷ ps)

unfoldable merge_line : RecreatedMerge → Text
unfolding join_parents
merge_line m =
    codes "  M "
    ++ m.short_commit
    ++ codes " "
    ++ m.subject
    ++ codes " <- "
    ++ join_parents m.parents

unfoldable merge_lines : List RecreatedMerge → List Text
unfolding merge_line show_number
merge_lines [] = []
merge_lines (m ∷ ms) =
    (codes "recreated     "
      ++ show_number (length (m ∷ ms))
      ++ codes " merge"
      ++ plural (map (λ r. r.commit) (m ∷ ms))
      ++ codes " preserved as joins; each takes a new identity and claims nothing")
    ∷ map merge_line (m ∷ ms)

unfoldable range_lines : Text → Range → List Text
range_lines base_ref range =
    if range.explicit
    then (codes "range         "
        ++ base_ref
        ++ codes " ("
        ++ take 12 (get_or_else range.base [])
        ++ codes ").."
        ++ take 12 range.tip)
      ∷ []
    else []

unfoldable excluded_line : Excluded → Text
excluded_line e =
    codes "  - " ++ take 12 e.commit ++ codes " " ++ e.change_id ++ codes " " ++ e.subject

unfoldable excluded_lines : List Excluded → List Text
unfolding excluded_line show_number
excluded_lines [] = []
excluded_lines (e ∷ es) =
    (codes "excluded      "
      ++ show_number (length (e ∷ es))
      ++ codes " commit"
      ++ plural (map (λ x. x.commit) (e ∷ es))
      ++ codes " below the range base stay behind")
    ∷ map excluded_line (e ∷ es)

unfoldable quarantined_lines : List Text → List Text
unfolding join_ids show_number
quarantined_lines [] = []
quarantined_lines (id ∷ ids) =
    (codes "quarantined   "
      ++ show_number (length (id ∷ ids))
      ++ codes " reachable fact"
      ++ plural (id ∷ ids)
      ++ codes " excluded: "
      ++ join_ids (id ∷ ids))
    ∷ []

unfoldable show_shape : ShapeReason → Text
show_shape octopus_merge = codes "octopus-merge"
show_shape parent_outside_range = codes "parent-outside-range"

module _ (details : UnsupportedMerge → Text) where
  unfoldable unsupported_line : UnsupportedMerge → Text
  unfolding show_shape
  unsupported_line m =
      codes "  ! "
      ++ take 12 m.commit
      ++ codes " "
      ++ show_shape m.reason
      ++ codes ": "
      ++ details m

  -- The line on how the plan can be executed.
  unfoldable verdict_lines : RebasePlan → List Text
  unfolding unsupported_line show_number
  verdict_lines plan =
      let bad = plan.topology.unsupported_merges in
      if not plan.topology.supported
      then (codes "unsupported   "
          ++ show_number (length bad)
          ++ codes " merge commit"
          ++ plural (map (λ m. m.commit) bad)
          ++ codes " of an unsupported shape; this plan cannot be executed")
        ∷ map unsupported_line bad
      else if plan.candidate_decision_required
      then codes "review        heuristic candidates require explicit acceptance" ∷ []
      else codes "execution     no candidate decision is required" ∷ []

  -- `formatRebasePlan`, with the references that the plan was asked for.
  unfoldable pub format_rebase_plan : Text → Text → Text → Text → RebasePlan → Text
  unfolding title show_reason rebase_change_lines merge_lines range_lines excluded_lines
      quarantined_lines verdict_lines show_number join_lines
  format_rebase_plan onto_ref source_ref base_ref fingerprint plan =
      let counts = plan.counts in
      join_lines (
        title plan.mode
        ∷ (codes "onto          " ++ onto_ref ++ codes " (" ++ take 12 plan.onto_head ++ codes ")")
        ∷ (codes "source        "
            ++ source_ref
            ++ codes " ("
            ++ take 12 plan.source_head
            ++ codes ")")
        ∷ (codes "physical base " ++ take 12 plan.physical_base)
        ∷ (codes "effective base "
            ++ take 12 plan.effective_base.commit
            ++ codes " ("
            ++ show_reason plan.effective_base.reason
            ++ codes ")")
        ∷ (codes "same state    "
            ++ (if plan.exact_state_equality then codes "yes" else codes "no"))
        ∷ (codes "fingerprint   " ++ fingerprint)
        ∷ []
        ∷ (rebase_change_lines plan.changes
            ++ []
              ∷ (codes "summary       "
                  ++ show_number counts.covered_count
                  ++ codes " omitted, "
                  ++ show_number counts.candidate_count
                  ++ codes " review, "
                  ++ show_number counts.new_count
                  ++ codes " replay")
              ∷ (codes "replay queue  " ++ show_number (length plan.replay_queue))
              ∷ (merge_lines plan.recreated_merges
                  ++ range_lines base_ref plan.range
                  ++ excluded_lines plan.excluded
                  ++ quarantined_lines plan.quarantined_facts
                  ++ verdict_lines plan
                  ++ []
                    ∷ codes "The current HEAD, index, and working files were not changed."
                    ∷ [])))

-- ===== src/RebaseProgram/Examples.antt =====
-- The program of the rebase of RebasePlan/Examples, by `rebaseProgram` of src/forecasts.js.
use vcs_lab.Trailers.{extract_change_id}
use vcs_lab.Records.{accepted_causal_records}
use vcs_lab.MergePlan.{classify}
use vcs_lab.RebasePlan.{build_rebase_plan}
use vcs_lab.Prelude.{
  ◌≡◌, refl, List, [], ◌∷◌, map, Text, codes, All, ◌==◌, text_lt, contains, add_all, lookup, insert,
}
use vcs_lab.Errors.{ok, err}
use vcs_lab.RebasePlan.Examples.{run, plan}
use vcs_lab.RebaseProgram.{ProgramStep, run_merge, run_pick, run_omit, rebase_program}
use vcs_lab.RebaseProgram.Follows.{step_of_program, StepFollows, rebase_program-StepFollows}

-- A step, by its commit and the commits that it melds in.
abbrev shown : ProgramStep → List Text
shown (run_merge s m) = codes "merge" ∷ s.commit ∷ []
shown (run_pick s c absorbs) = codes "pick" ∷ s.commit ∷ map (λ a. a.item.commit) absorbs
shown (run_omit s) = codes "omit" ∷ s.commit ∷ []

program-steps :
    (elim run [ ok p ↦ map shown (rebase_program p) | err c ↦ [] ])
    ≡ (codes "pick" ∷ codes "s1" ∷ codes "s3" ∷ [])
      ∷ (codes "omit" ∷ codes "s2" ∷ [])
      ∷ (codes "omit" ∷ codes "s3" ∷ [])
      ∷ (codes "pick" ∷ codes "s4" ∷ [])
      ∷ (codes "merge" ∷ codes "s5" ∷ [])
      ∷ (codes "omit" ∷ codes "s6" ∷ [])
      ∷ []
unfolding rebase_program build_rebase_plan ◌==◌ text_lt contains add_all classify
    accepted_causal_records extract_change_id lookup insert
program-steps = refl

rebase_program-StepFollows_example :
    (map step_of_program (rebase_program plan) ≡ plan.topology.steps)
    × All (StepFollows plan) (rebase_program plan)
rebase_program-StepFollows_example = rebase_program-StepFollows plan

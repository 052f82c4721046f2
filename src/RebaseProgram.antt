-- ===== src/RebaseProgram.antt =====
-- `rebaseProgram` of src/forecasts.js: the steps that a rebase runs, from the plan's topology, changes and
-- declared actions.
pub mod Follows
pub mod Examples
use vcs_lab.Prelude.{
  Bool, true, false, ◌&&◌, Option, none, some, List, [], ◌∷◌, ◌++◌, map, if◌then◌else◌, Text, codes,
  ◌==◌, take, Dict, lookup, insert, get_or_else, find,
}
use vcs_lab.Interactive.{is_absorbing, is_surviving, ResolvedAction}
use vcs_lab.RebaseLists.{RebaseChange, RecreatedMerge}
use vcs_lab.RebasePlan.{RebasePlan}
use vcs_lab.Topology.{StepKind, pick, recreate_merge, Step}

-- `replayed`: the surviving changes by commit.
unfoldable pub replayed : Dict RebaseChange → List RebaseChange → Dict RebaseChange
unfolding is_surviving
replayed m [] = m
replayed m (c ∷ cs) = replayed (if is_surviving c.action then insert m c.change.commit c else m) cs

-- A declared action with the change that it absorbs, `{ ...item, change }`.
pub record AbsorbedItem : Type 0 where
  pub item : ResolvedAction
  pub change : Option RebaseChange

unfoldable pub absorbed_item : List RebaseChange → ResolvedAction → AbsorbedItem
absorbed_item changes a = record {
  item = a;
  change = find (λ c. c.change.commit == a.commit) changes;
}

-- One round of the loop over the declared actions. No step has an absent commit, so a group under an
-- absent target would never be read.
unfoldable pub absorb_under :
    Dict (List AbsorbedItem) → AbsorbedItem → Option Text → Dict (List AbsorbedItem)
absorb_under groups item none = groups
absorb_under groups item (some target) =
    insert groups target (get_or_else (lookup groups target) [] ++ item ∷ [])

unfoldable pub absorb_all :
    List RebaseChange → Dict (List AbsorbedItem) → List ResolvedAction → Dict (List AbsorbedItem)
unfolding absorbed_item absorb_under is_absorbing
absorb_all changes groups [] = groups
absorb_all changes groups (a ∷ rest) =
    absorb_all changes
      (if is_absorbing a.action
        then absorb_under groups (absorbed_item changes a) a.target
        else groups)
      rest

unfoldable pub merges_by_commit : Dict RecreatedMerge → List RecreatedMerge → Dict RecreatedMerge
merges_by_commit m [] = m
merges_by_commit m (r ∷ rs) = merges_by_commit (insert m r.commit r) rs

-- What a recreation says of the original merge.
pub record MergeChange : Type 0 where
  pub commit : Text
  pub short_commit : Text
  pub change_id : Text
  pub subject : Text

unfoldable pub merge_change : Step → Option RecreatedMerge → MergeChange
merge_change step none = record {
  commit = step.commit;
  short_commit = take 12 step.commit;
  change_id = codes "git:" ++ step.commit;
  subject = [];
}
merge_change step (some m) = record {
  commit = step.commit;
  short_commit = m.short_commit;
  change_id = m.origin_change_id;
  subject = m.subject;
}

pub data ProgramStep : Type 0 where
  run_merge : Step → MergeChange → ProgramStep
  run_pick : Step → RebaseChange → List AbsorbedItem → ProgramStep
  run_omit : Step → ProgramStep

-- The end of the step's function: a pick where the commit is replayed, else an omission.
unfoldable pub pick_or_omit : Step → List AbsorbedItem → Option RebaseChange → ProgramStep
pick_or_omit step absorbs none = run_omit step
pick_or_omit step absorbs (some c) = run_pick step c absorbs

unfoldable pub run_step :
    Dict RebaseChange
    → Dict (List AbsorbedItem)
    → Dict RecreatedMerge
    → StepKind
    → Step
    → ProgramStep
unfolding merge_change pick_or_omit
run_step changes groups merges recreate_merge step =
    run_merge step (merge_change step (lookup merges step.commit))
run_step changes groups merges pick step =
    pick_or_omit step (get_or_else (lookup groups step.commit) []) (lookup changes step.commit)

unfoldable pub rebase_program : RebasePlan → List ProgramStep
unfolding replayed absorb_all merges_by_commit run_step
rebase_program plan =
    map
      (λ s.
        run_step (replayed [] plan.changes) (absorb_all plan.changes [] plan.interactive)
          (merges_by_commit [] plan.recreated_merges) s.kind s)
      plan.topology.steps

-- ===== src/RebaseProgram/Follows.antt =====
-- How the program of `rebaseProgram` in src/forecasts.js follows the plan.
use vcs_lab.Prelude.{
  ◌≡◌, refl, sym, ◌∙◌, ap, arith, inl, inr, Bool, true, false, ◌&&◌, ◌||◌, Option, none, some, List,
  [], ◌∷◌, ◌++◌, map, if◌then◌else◌, Text, ◌==◌, ==_iff, Dict, lookup, insert, lookup-insert,
  get_or_else, is_some, any, filter, All, Bool-cases,
}
use mathlib.Core.List.{append-nil, append_assoc}
use vcs_lab.Interactive.{is_absorbing, is_surviving, ResolvedAction}
use vcs_lab.Interactive.Groups.{aims_at}
use vcs_lab.RebaseLists.{RebaseChange, RecreatedMerge}
use vcs_lab.RebasePlan.{RebasePlan}
use vcs_lab.Topology.{StepKind, pick, recreate_merge, Step}
use vcs_lab.RebaseProgram.{
  replayed, AbsorbedItem, absorbed_item, absorb_under, absorb_all, merges_by_commit, merge_change,
  ProgramStep, run_merge, run_pick, run_omit, pick_or_omit, run_step, rebase_program,
}

-- A surviving change of this commit.
abbrev pub survives_as : Text → RebaseChange → Bool
survives_as commit c = c.change.commit == commit && is_surviving c.action

abbrev is_kept : Text → Option RebaseChange → Bool
is_kept commit none = true
is_kept commit (some c) = survives_as commit c

replayed-keys :
    (m : Dict RebaseChange) (cs : List RebaseChange) (k : Text)
    → is_some (lookup (replayed m cs) k) ≡ (is_some (lookup m k) || any (survives_as k) cs)
unfolding replayed
replayed-keys m [] k = ground arith
replayed-keys m (c ∷ cs) k = elim (Bool-cases (is_surviving c.action)) [
  | inl kept ↦ rw kept (
      replayed-keys (insert m c.change.commit c) cs k
      ∙ rw (lookup-insert m c.change.commit k c) (ground arith))
  | inr dropped ↦ rw dropped (replayed-keys m cs k ∙ ground arith)
]

replayed-values :
    (m : Dict RebaseChange) (cs : List RebaseChange)
    → ((k : Text) → is_kept k (lookup m k) ≡ true)
    → (k : Text) → is_kept k (lookup (replayed m cs) k) ≡ true
unfolding replayed
replayed-values m [] h k = h k
replayed-values m (c ∷ cs) h k = elim (Bool-cases (is_surviving c.action)) [
  | inl kept ↦ rw kept (
      replayed-values (insert m c.change.commit c) cs
        (λ j. rw (lookup-insert m c.change.commit j c) (ground (arith, h j, kept))) k)
  | inr dropped ↦ rw dropped (replayed-values m cs h k)
]

abbrev items : Dict (List AbsorbedItem) → Text → List AbsorbedItem
items groups target = get_or_else (lookup groups target) []

-- An action that melds its commit into this one.
abbrev pub melds_into : Text → ResolvedAction → Bool
melds_into commit a = is_absorbing a.action && aims_at commit a.target

absorb_under_lem :
    (groups : Dict (List AbsorbedItem)) (item : AbsorbedItem) (aim : Option Text) (target : Text)
    → items (absorb_under groups item aim) target
      ≡ (if aims_at target aim then items groups target ++ item ∷ [] else items groups target)
unfolding absorb_under
absorb_under_lem groups item none target = refl
absorb_under_lem groups item (some aim) target =
    ground
      (arith, ==_iff aim target, lookup-insert groups aim target (items groups aim ++ item ∷ []))

absorb_all_lem :
    (changes : List RebaseChange) (groups : Dict (List AbsorbedItem))
    (actions : List ResolvedAction) (target : Text)
    → items (absorb_all changes groups actions) target
      ≡ items groups target ++ map (absorbed_item changes) (filter (melds_into target) actions)
unfolding absorb_all
absorb_all_lem changes groups [] target = sym (append-nil (items groups target))
absorb_all_lem changes groups (a ∷ rest) target = elim (Bool-cases (is_absorbing a.action)) [
  | inl melds ↦ rw melds (
      absorb_all_lem changes (absorb_under groups (absorbed_item changes a) a.target) rest target
      ∙ rw (absorb_under_lem groups (absorbed_item changes a) a.target target)
          (elim (Bool-cases (aims_at target a.target)) [
            | inl hit ↦ rw hit (append_assoc (items groups target) (absorbed_item changes a ∷ []) _)
            | inr miss ↦ rw miss refl
          ]))
  | inr other ↦ rw other (absorb_all_lem changes groups rest target)
]

-- What a step of the program says of the plan: a recreation is of a merge; a pick runs a surviving change
-- of a commit that is no merge, and melds in the changes that the declared program absorbs into it, in
-- their order; an omission is of a commit that is no merge and has no surviving change.
abbrev pub StepFollows : RebasePlan → ProgramStep → Type 0
StepFollows plan (run_merge s m) = (s.kind ≡ recreate_merge) × (m.commit ≡ s.commit)
StepFollows plan (run_pick s c absorbs) =
    (s.kind ≡ pick)
    × (survives_as s.commit c ≡ true)
    × (any (survives_as s.commit) plan.changes ≡ true)
    × (absorbs ≡ map (absorbed_item plan.changes) (filter (melds_into s.commit) plan.interactive))
StepFollows plan (run_omit s) = (s.kind ≡ pick) × (any (survives_as s.commit) plan.changes ≡ false)

abbrev pub step_of_program : ProgramStep → Step
step_of_program (run_merge s m) = s
step_of_program (run_pick s c absorbs) = s
step_of_program (run_omit s) = s

step-pick_or_omit :
    (s : Step) (absorbs : List AbsorbedItem) (o : Option RebaseChange)
    → step_of_program (pick_or_omit s absorbs o) ≡ s
unfolding pick_or_omit
step-pick_or_omit s absorbs none = refl
step-pick_or_omit s absorbs (some c) = refl

step-run_step :
    (changes : Dict RebaseChange) (groups : Dict (List AbsorbedItem)) (merges : Dict RecreatedMerge)
    (kind : StepKind) (s : Step)
    → step_of_program (run_step changes groups merges kind s) ≡ s
unfolding run_step
step-run_step changes groups merges recreate_merge s = refl
step-run_step changes groups merges pick s =
    step-pick_or_omit s (items groups s.commit) (lookup changes s.commit)

commit-merge_change : (s : Step) (o : Option RecreatedMerge) → (merge_change s o).commit ≡ s.commit
unfolding merge_change
commit-merge_change s none = refl
commit-merge_change s (some m) = refl

pick_or_omit-StepFollows :
    (plan : RebasePlan) (s : Step) (absorbs : List AbsorbedItem) (o : Option RebaseChange)
    → s.kind ≡ pick
    → is_kept s.commit o ≡ true
    → is_some o ≡ any (survives_as s.commit) plan.changes
    → absorbs ≡ map (absorbed_item plan.changes) (filter (melds_into s.commit) plan.interactive)
    → StepFollows plan (pick_or_omit s absorbs o)
unfolding pick_or_omit
pick_or_omit-StepFollows plan s absorbs none p k e a = (p, sym e)
pick_or_omit-StepFollows plan s absorbs (some c) p k e a = (p, k, sym e, a)

module _ (plan : RebasePlan) where
  abbrev run : StepKind → Step → ProgramStep
  run =
      run_step (replayed [] plan.changes) (absorb_all plan.changes [] plan.interactive)
        (merges_by_commit [] plan.recreated_merges)

  run-StepFollows : (kind : StepKind) (s : Step) → s.kind ≡ kind → StepFollows plan (run kind s)
  unfolding run_step lookup
  run-StepFollows recreate_merge s e =
      (e, commit-merge_change s (lookup (merges_by_commit [] plan.recreated_merges) s.commit))
  run-StepFollows pick s e =
      pick_or_omit-StepFollows plan s (items (absorb_all plan.changes [] plan.interactive) s.commit)
        (lookup (replayed [] plan.changes) s.commit) e
        (replayed-values [] plan.changes (λ k. refl) s.commit)
        (replayed-keys [] plan.changes s.commit)
        (absorb_all_lem plan.changes [] plan.interactive s.commit)

  steps-run : (steps : List Step) → map step_of_program (map (λ s. run s.kind s) steps) ≡ steps
  steps-run [] = refl
  steps-run (s ∷ ss) =
      rw
        (step-run_step (replayed [] plan.changes) (absorb_all plan.changes [] plan.interactive)
          (merges_by_commit [] plan.recreated_merges) s.kind s)
        (ap (◌∷◌ s) (steps-run ss))

  All-run : (steps : List Step) → All (StepFollows plan) (map (λ s. run s.kind s) steps)
  All-run [] = tt
  All-run (s ∷ ss) = (run-StepFollows s.kind s refl, All-run ss)

  -- The program of a plan has one step for each step of its topology, in that order. A merge is
  -- recreated, and never omitted. A commit that is no merge is picked when the plan has a surviving
  -- change of it, and the pick runs such a change and melds in exactly the changes that the declared
  -- program absorbs into it, in their order; without a surviving change the commit is omitted.
  pub rebase_program-StepFollows :
      (map step_of_program (rebase_program plan) ≡ plan.topology.steps)
      × All (StepFollows plan) (rebase_program plan)
  unfolding rebase_program
  rebase_program-StepFollows = (steps-run plan.topology.steps, All-run plan.topology.steps)

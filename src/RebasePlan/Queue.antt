-- ===== src/RebasePlan/Queue.antt =====
-- Theorems on the whole plan of src/rebase-plan.js: each change is omitted, queued, absorbed or left to
-- review by its classification, and the counts say so.
use vcs_lab.Prelude.{
  ◌≡◌, refl, sym, ◌∙◌, ap, arith, ◌+◌, Bool, true, false, not, ◌&&◌, ◌||◌, Option, List, [], ◌∷◌,
  map, Text, contains, IsNodup, Dict, filter, length, length-map, length-filter, eqb, count_if, All,
}
use vcs_lab.Errors.{ok}
use vcs_lab.Interactive.{
  Action, is_absorbing, is_surviving, InteractiveOptions, replayable_commits, ResolvedAction,
  Program,
}
use vcs_lab.MergePlan.{
  StatusCounts, Change, HistoryItem, Status, PlanInput, classify_item, plan_changes,
  build_merge_plan, plan_change,
}
use vcs_lab.MergePlan.Counts.{is_new, is_candidate, with_status, count_changes_lem}
use vcs_lab.MergePlan.Coverage.{is_covered}
use mathlib.Core.Path.{subst}
use vcs_lab.Repository.{Repository}
use vcs_lab.Records.{CausalRecord}
use vcs_lab.Topology.{Topology, analyze_rebase_topology}
use vcs_lab.RebasePlan.{RebasePlan, assemble, build_rebase_plan, is_nil}
use vcs_lab.RebaseLists.{
  RebaseChange, undeclared_changes, plan_changes_of, declare_actions, replay_queue_of, omitted_of,
  candidates_of, is_omit, is_review,
}
use vcs_lab.RebaseRange.{Range, CausalPlan}
use vcs_lab.RebasePlan.Declared.{IsDeclaring}
use vcs_lab.RebasePlan.Actions.{
  agrees, Agrees, commits_of, replayable_of, replayable-is_new, declare_actions-Agrees,
  IsNodup-commits-filter,
}
use vcs_lab.RebasePlan.Built.{build_rebase_plan-IsBuilt}

commits-plan_changes :
    (structurally_valid references_exist : CausalRecord → Bool) (input : PlanInput)
    (items : List HistoryItem)
    → commits_of (map (classify_item structurally_valid references_exist input) items)
      ≡ map (λ h. h.commit) items
unfolding classify_item plan_change
commits-plan_changes sv re input [] = refl
commits-plan_changes sv re input (h ∷ hs) = ap (◌∷◌ h.commit) (commits-plan_changes sv re input hs)

-- How a classification shows in the action.
agrees_lem :
    (s : Status) (a : Action)
    → agrees s a ≡ true
    → (is_omit a ≡ is_covered s)
      × (is_review a ≡ is_candidate s)
      × ((is_surviving a || is_absorbing a) ≡ is_new s)
      × ((is_surviving a && is_absorbing a) ≡ false)
unfolding is_surviving is_absorbing
agrees_lem s a h = ground arith

agreed_counts :
    (changes : List RebaseChange)
    → All Agrees changes
    → (count_if (λ c. is_omit c.action) changes
        ≡ with_status is_covered (map (λ c. c.change) changes))
      × (count_if (λ c. is_review c.action) changes
          ≡ with_status is_candidate (map (λ c. c.change) changes))
      × (count_if (λ c. is_surviving c.action) changes
            + count_if (λ c. is_absorbing c.action) changes
          ≡ with_status is_new (map (λ c. c.change) changes))
agreed_counts [] h = (refl, refl, omega arith)
agreed_counts (c ∷ cs) h =
    ground (arith, agreed_counts cs h.1, agrees_lem c.change.status c.action h.0)

length-omitted_of :
    (changes : List RebaseChange)
    → length (omitted_of changes) ≡ count_if (λ c. is_omit c.action) changes
unfolding omitted_of
length-omitted_of changes =
    length-map _ (filter (λ c. is_omit c.action) changes) ∙ length-filter _ changes

length-candidates_of :
    (changes : List RebaseChange)
    → length (candidates_of changes) ≡ count_if (λ c. is_review c.action) changes
unfolding candidates_of
length-candidates_of changes =
    length-map _ (filter (λ c. is_review c.action) changes) ∙ length-filter _ changes

length-replay_queue_of :
    (changes : List RebaseChange)
    → length (replay_queue_of changes) ≡ count_if (λ c. is_surviving c.action) changes
unfolding replay_queue_of
length-replay_queue_of changes =
    length-map _ (filter (λ c. is_surviving c.action) changes) ∙ length-filter _ changes

is_nil-length {ℓ} : {A : Type ℓ} (xs : List A) → is_nil xs ≡ eqb (length xs) 0
is_nil-length [] = refl
is_nil-length (x ∷ xs) = ground arith

-- The sizes of the lists of a plan, against its counts.
abbrev pub CountsMatch : RebasePlan → Type 0
CountsMatch plan =
    (length plan.omitted ≡ plan.counts.covered_count)
    × (length plan.candidates ≡ plan.counts.candidate_count)
    × (length plan.replay_queue + count_if (λ c. is_absorbing c.action) plan.changes
        ≡ plan.counts.new_count)
    × (plan.executable_without_review
        ≡ (plan.topology.supported && eqb plan.counts.candidate_count 0))

assemble-CountsMatch :
    (repository : Repository) (range : Range) (causal : CausalPlan) (topology : Topology)
    (program : Program) (changes : List RebaseChange)
    → All Agrees changes
    → CountsMatch (assemble repository range causal topology program changes)
unfolding assemble
assemble-CountsMatch repository range causal topology program changes h =
    let zeros : StatusCounts = record { covered_count = 0; candidate_count = 0; new_count = 0 } in
    ground (
      arith,
      agreed_counts changes h,
      count_changes_lem zeros (map (λ c. c.change) changes),
      length-omitted_of changes,
      length-candidates_of changes,
      length-replay_queue_of changes,
      is_nil-length (candidates_of changes),
    )

module _ (repository : Repository) where
  abbrev pub history_commits : Text → Text → List Text
  history_commits base head = map (λ h. h.commit) (repository.range_history base head)

  -- A causal plan lists the commits of its range.
  causal_commits :
      (causal : CausalPlan)
      → (causal.plan
          ≡ build_merge_plan repository.is_ancestor repository.structurally_valid
              repository.references_exist causal.input)
      → (causal.input.source_history
          ≡ repository.range_history causal.range_base causal.input.source_head)
      → commits_of causal.plan.changes ≡ history_commits causal.range_base causal.input.source_head
  unfolding build_merge_plan plan_changes
  causal_commits causal e1 e2 =
      ap (λ p. commits_of p.changes) e1
      ∙ commits-plan_changes repository.structurally_valid repository.references_exist causal.input
          causal.input.source_history
      ∙ ap (map (λ h. h.commit)) e2

  declared_changes-Agrees :
      (merges : List Text) (changes : List Change) (by_commit : Dict ResolvedAction)
      → IsDeclaring
          (replayable_commits (plan_changes_of (undeclared_changes merges changes)))
          by_commit
      → IsNodup (commits_of changes)
      → All Agrees (declare_actions by_commit (undeclared_changes merges changes))
  unfolding undeclared_changes
  declared_changes-Agrees merges changes by_commit d n =
      let kept = filter (λ c. not (contains merges c.commit)) changes in
      declare_actions-Agrees by_commit (contains (replayable_of kept)) kept d (
        replayable-is_new (contains (replayable_of kept)) kept
          (IsNodup-commits-filter (λ c. not (contains merges c.commit)) changes n)
          (λ commit inside. refl))

module _ (repository : Repository) (onto : Text) (requested from : Option Text)
    (options : InteractiveOptions) (plan : RebasePlan)
    (built : build_rebase_plan repository onto requested from options ≡ ok plan)
    (distinct : IsNodup (history_commits repository plan.range_base plan.source_head)) where
  -- Where the history of the range lists each commit once, every change of a plan has an action that its
  -- classification admits: a covered change is omitted, a heuristic candidate is left to review, and
  -- a new change is replayed, reworded, edited, squashed or fixed up, whatever was declared.
  pub plan_actions_agree : All Agrees plan.changes
  unfolding assemble
  plan_actions_agree =
      let (range, causal, program, e1, e2, (d, e3)) =
        build_rebase_plan-IsBuilt repository onto requested from options plan built in
      let topology =
        analyze_rebase_topology repository.is_ancestor causal.target_head
          (repository.commit_topology causal.range_base causal.input.source_head) in
      rw e3 (
        declared_changes-Agrees repository topology.merge_commits causal.plan.changes
          program.by_commit d
          (subst IsNodup (sym (causal_commits repository causal e1 e2)) (
            subst (λ p. IsNodup (history_commits repository p.range_base p.source_head)) e3
              distinct)))

  -- Where the history of the range lists each commit once, a plan omits as many changes as it counts covered, leaves as many to
  -- review as it counts candidates, and replays or absorbs as many as it counts new; and it runs
  -- without review exactly when its topology is supported and it counts no candidate.
  pub queues-CountsMatch : CountsMatch plan
  unfolding assemble
  queues-CountsMatch =
      let (range, causal, program, e1, e2, (d, e3)) =
        build_rebase_plan-IsBuilt repository onto requested from options plan built in
      let topology =
        analyze_rebase_topology repository.is_ancestor causal.target_head
          (repository.commit_topology causal.range_base causal.input.source_head) in
      rw e3 (
        assemble-CountsMatch repository range causal topology program
          (declare_actions program.by_commit
            (undeclared_changes topology.merge_commits causal.plan.changes))
          (subst (λ p. All Agrees p.changes) e3 plan_actions_agree))

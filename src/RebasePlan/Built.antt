-- ===== src/RebasePlan/Built.antt =====
-- `buildRebasePlanInSession` of src/rebase-plan.js, opened up: the causal plan, the topology and the
-- declared program that a plan stands on.
use vcs_lab.Prelude.{◌≡◌, refl, sym, Option, ◌++◌, Text, codes}
use vcs_lab.Errors.{ok, bind-eq-ok, ok-injective}
use vcs_lab.Interactive.{
  InteractiveOptions, declared_interactive_actions, replayable_commits, Program,
  resolve_interactive_program,
}
use vcs_lab.MergePlan.{build_merge_plan}
use vcs_lab.Repository.{Repository}
use vcs_lab.Topology.{analyze_rebase_topology}
use vcs_lab.RebasePlan.{RebasePlan, assemble, resolved_or_none, build_rebase_plan}
use vcs_lab.RebaseLists.{undeclared_changes, plan_changes_of, declare_actions}
use vcs_lab.RebaseRange.{
  Range, CausalPlan, build_merge_plan_between, resolve_range, source_or_branch, peel,
}
use vcs_lab.RebasePlan.Declared.{declared_interactive_actions_lem, IsDeclaring, program-IsDeclaring}

-- A plan, opened up: the causal plan it stands on, and the program declared for it.
abbrev pub IsBuilt : Repository → RebasePlan → Type 0
IsBuilt repository plan =
    (range : Range) × (causal : CausalPlan) × (program : Program) × (causal.plan
      ≡ build_merge_plan repository.is_ancestor repository.structurally_valid
          repository.references_exist causal.input)
    × (causal.input.source_history
        ≡ repository.range_history causal.range_base causal.input.source_head)
    × (let topology =
          analyze_rebase_topology repository.is_ancestor causal.target_head
            (repository.commit_topology causal.range_base causal.input.source_head) in
        let changes = undeclared_changes topology.merge_commits causal.plan.changes in
        IsDeclaring (replayable_commits (plan_changes_of changes)) program.by_commit
        × (plan
            ≡ assemble repository range causal topology program
                (declare_actions program.by_commit changes)))

module _ (repository : Repository) where
  build_merge_plan_between_lem :
      (target source : Text) (base : Option Text) (causal : CausalPlan)
      → build_merge_plan_between repository target source base ≡ ok causal
      → (causal.plan
          ≡ build_merge_plan repository.is_ancestor repository.structurally_valid
              repository.references_exist causal.input)
        × (causal.input.source_history
            ≡ repository.range_history causal.range_base causal.input.source_head)
  unfolding build_merge_plan_between
  build_merge_plan_between_lem target source base causal h =
      let (target_head, e1, h1) = bind-eq-ok (repository.resolve (peel target)) _ h in
      let (source_head, e2, h2) = bind-eq-ok (repository.resolve (peel source)) _ h1 in
      let (physical_base, e3, h3) =
        bind-eq-ok (repository.merge_base target_head source_head) _ h2 in
      let (target_tree, e4, h4) =
        bind-eq-ok (repository.resolve (target_head ++ codes "^{tree}")) _ h3 in
      let (source_tree, e5, h5) =
        bind-eq-ok (repository.resolve (source_head ++ codes "^{tree}")) _ h4 in
      rw (sym (ok-injective h5)) (refl, refl)

  pub build_rebase_plan-IsBuilt :
      (onto : Text) (requested from : Option Text) (options : InteractiveOptions)
      (plan : RebasePlan)
      → build_rebase_plan repository onto requested from options ≡ ok plan
      → IsBuilt repository plan
  unfolding build_rebase_plan
  build_rebase_plan-IsBuilt onto requested from options plan h =
      let (source, e1, h1) =
        bind-eq-ok (source_or_branch repository requested repository.head_branch) _ h in
      let (range, e2, h2) = bind-eq-ok (resolve_range repository source from) _ h1 in
      let (causal, e3, h3) =
        bind-eq-ok (build_merge_plan_between repository onto source range.base) _ h2 in
      let topology =
        analyze_rebase_topology repository.is_ancestor causal.target_head
          (repository.commit_topology causal.range_base causal.input.source_head) in
      let changes = undeclared_changes topology.merge_commits causal.plan.changes in
      let (declared, e4, h4) = bind-eq-ok (declared_interactive_actions options) _ h3 in
      let (program, e5, h5) =
        bind-eq-ok
          (resolve_interactive_program
            (λ expression. resolved_or_none (repository.resolve (peel expression)))
            (plan_changes_of changes) topology.merge_commits declared)
          _ h4 in
      let causal_facts = build_merge_plan_between_lem onto source range.base causal e3 in
      (
        range,
        causal,
        program,
        causal_facts.0,
        causal_facts.1,
        (
          program-IsDeclaring
              (λ expression. resolved_or_none (repository.resolve (peel expression)))
              (plan_changes_of changes) topology.merge_commits declared program
              (declared_interactive_actions_lem options declared e4) e5,
          sym (ok-injective h5),
        ),
      )

-- ===== src/Interactive/Resolved.antt =====
-- What the resolution of an interactive program in src/rebase-interactive.js guarantees.
use vcs_lab.Prelude.{
  ◌≡◌, refl, ◌∙◌, sym, arith, ℕ, Bool, true, false, Option, none, some, List, [], ◌∷◌, map, Text,
  IsNodup, Dict, any, any-sort_by, count_if, count_if-sort_by, All, All-map, All-sort_by,
  IsNodup-map-sort_by, sort_by, IsSorted, IsSorted-sort_by,
}
use vcs_lab.Errors.{ok, throw_if, bind-eq-ok, ok-injective, throw_if-eq-ok}
use vcs_lab.Interactive.{
  Action, Declaration, PlanChange, replayable_commits, range_order, ResolvedAction, Program,
  Resolving, resolve_all, chains, reject_chains, group_absorbed, before_in,
  resolve_interactive_program,
}
use vcs_lab.Interactive.Rounds.{
  absorbs, action_fits, target_survives, IsResolving, IsResolving-nil, resolve_all-IsResolving,
  resolve_all-counts,
}

reject_chains_lem :
    (by_commit : Dict ResolvedAction) (actions : List ResolvedAction) (u : Unit {0})
    → reject_chains by_commit actions ≡ ok u
    → All (λ a. chains by_commit a.target ≡ false) actions
unfolding reject_chains
reject_chains_lem by_commit [] u h = tt
reject_chains_lem by_commit (a ∷ rest) u h =
    let (v, e, k) = bind-eq-ok (throw_if (chains by_commit a.target) _) _ h in
    (throw_if-eq-ok (chains by_commit a.target) _ v e, reject_chains_lem by_commit rest u k)

survives_lem :
    (by_commit : Dict ResolvedAction) (actions : List ResolvedAction)
    → ((commit : Text) → any (absorbs commit) actions ≡ chains by_commit (some commit))
    → (target : Option Text) → chains by_commit target ≡ false
    → target_survives actions target ≡ true
survives_lem by_commit actions same none h = refl
survives_lem by_commit actions same (some target) h = ground (arith, same target)

before_in-total :
    (order : Dict ℕ) (a b : ResolvedAction)
    → before_in order a b ≡ false
    → before_in order b a ≡ true
before_in-total order a b h = ground arith

target_survives-sort_by :
    (order : Dict ℕ) (actions : List ResolvedAction) (target : Option Text)
    → target_survives actions target ≡ true
    → target_survives (sort_by (before_in order) actions) target ≡ true
target_survives-sort_by order actions none h = refl
target_survives-sort_by order actions (some target) h =
    ground (arith, any-sort_by (before_in order) (absorbs target) actions)

-- What `admitted` says of a program, with the range order in force.
abbrev pub IsAdmitted : List PlanChange → List Text → Program → Type 0
IsAdmitted changes merge_commits program =
    let order = range_order [] 0 changes in
    IsNodup (map (λ a. a.commit) program.actions)
    × All (λ a. action_fits merge_commits (replayable_commits changes) order a ≡ true)
        program.actions
    × All (λ a. target_survives program.actions a.target ≡ true) program.actions
    × IsSorted (before_in order) program.actions

module _ (changes : List PlanChange) (merge_commits : List Text) where
  finished_lem :
      (resolved : Resolving) (u : Unit {0}) (groups : Dict (List ResolvedAction))
      → IsResolving merge_commits (replayable_commits changes) (range_order [] 0 changes) resolved
      → reject_chains resolved.by_commit resolved.actions ≡ ok u
      → IsAdmitted changes merge_commits (record {
        actions = sort_by (before_in (range_order [] 0 changes)) resolved.actions;
        by_commit = resolved.by_commit;
        absorbed_into = groups;
      })
  finished_lem resolved u groups inv e =
      let order = range_order [] 0 changes in
      (
        IsNodup-map-sort_by (before_in order) (λ a. a.commit) resolved.actions inv.distinct,
        All-sort_by (before_in order) _ resolved.actions inv.fits,
        All-sort_by (before_in order) _ resolved.actions (
            All-map _ _ resolved.actions
              (λ a h.
                target_survives-sort_by order resolved.actions a.target
                  (survives_lem resolved.by_commit resolved.actions inv.absorbing a.target h))
              (reject_chains_lem resolved.by_commit resolved.actions u e)),
        IsSorted-sort_by (before_in order) (before_in-total order) resolved.actions,
      )

-- Whatever the declarations, a program that resolves names every commit in at most one action; each
-- subject is a replayed commit and no merge, and so is each target, which is another commit and not
-- after its subject in the range; no target is itself squashed or fixed up; and the actions stand
-- in range order.
pub resolved_program-IsAdmitted :
    (resolve : Text → Option Text) (changes : List PlanChange) (merge_commits : List Text)
    (declarations : List Declaration) (program : Program)
    → resolve_interactive_program resolve changes merge_commits declarations ≡ ok program
    → IsAdmitted changes merge_commits program
unfolding resolve_interactive_program
resolved_program-IsAdmitted resolve changes merge_commits [] program h =
    rw (sym (ok-injective h)) (tt, tt, tt, tt)
resolved_program-IsAdmitted resolve changes merge_commits (d ∷ ds) program h =
    let replayable = replayable_commits changes in
    let order = range_order [] 0 changes in
    let (resolved, e, k) =
      bind-eq-ok
        (resolve_all resolve merge_commits replayable order
          (record { actions = []; by_commit = [] }) (d ∷ ds))
        _ h in
    let (u, e2, k2) = bind-eq-ok (reject_chains resolved.by_commit resolved.actions) _ k in
    rw (sym (ok-injective k2)) (
      finished_lem changes merge_commits resolved u
        (group_absorbed [] (sort_by (before_in order) resolved.actions))
        (resolve_all-IsResolving resolve merge_commits replayable order _ (d ∷ ds) resolved e
          (IsResolving-nil merge_commits replayable order))
        e2)

-- A program that resolves has, of every kind of action, as many as were declared: no declaration is
-- dropped and none is added.
pub resolved_program_counts :
    (resolve : Text → Option Text) (changes : List PlanChange) (merge_commits : List Text)
    (declarations : List Declaration) (program : Program) (p : Action → Bool)
    → resolve_interactive_program resolve changes merge_commits declarations ≡ ok program
    → count_if (λ a. p a.action) program.actions ≡ count_if (λ d. p d.action) declarations
unfolding resolve_interactive_program
resolved_program_counts resolve changes merge_commits [] program p h =
    rw (sym (ok-injective h)) refl
resolved_program_counts resolve changes merge_commits (d ∷ ds) program p h =
    let replayable = replayable_commits changes in
    let order = range_order [] 0 changes in
    let (resolved, e, k) =
      bind-eq-ok
        (resolve_all resolve merge_commits replayable order
          (record { actions = []; by_commit = [] }) (d ∷ ds))
        _ h in
    let (u, e2, k2) = bind-eq-ok (reject_chains resolved.by_commit resolved.actions) _ k in
    rw (sym (ok-injective k2)) (
      count_if-sort_by (before_in order) (λ a. p a.action) resolved.actions
      ∙ resolve_all-counts resolve merge_commits replayable order p
          (record { actions = []; by_commit = [] }) (d ∷ ds) resolved e
      ∙ omega arith)

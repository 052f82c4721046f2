-- ===== src/Interactive/Groups.antt =====
-- The map `absorbedInto` of src/rebase-interactive.js: what each survivor absorbs, and in what order.
use vcs_lab.Prelude.{
  ◌≡◌, refl, ◌∙◌, sym, arith, inl, inr, Bool, false, Option, none, some, List, [], ◌∷◌, ◌++◌,
  if◌then◌else◌, Text, ◌==◌, ==_iff, Dict, lookup, lookup-insert, get_or_else, filter, sort_by,
  Bool-cases,
}
use mathlib.Core.List.{append-nil, append_assoc}
use vcs_lab.Errors.{ok, bind-eq-ok, ok-injective}
use vcs_lab.Interactive.{
  PlanChange, range_order, replayable_commits, Declaration, ResolvedAction, Program, resolve_all,
  reject_chains, group_one, group_absorbed, before_in, resolve_interactive_program,
}

-- Whether an action melds its commit into `target`.
abbrev pub aims_at : Text → Option Text → Bool
aims_at target none = false
aims_at target (some t) = t == target

abbrev items : Dict (List ResolvedAction) → Text → List ResolvedAction
items groups target = get_or_else (lookup groups target) []

group_one_lem :
    (groups : Dict (List ResolvedAction)) (a : ResolvedAction) (aim : Option Text) (target : Text)
    → items (group_one groups a aim) target
      ≡ (if aims_at target aim then items groups target ++ a ∷ [] else items groups target)
unfolding group_one
group_one_lem groups a none target = refl
group_one_lem groups a (some aim) target =
    ground (arith, ==_iff aim target, lookup-insert groups aim target (items groups aim ++ a ∷ []))

group_absorbed_lem :
    (groups : Dict (List ResolvedAction)) (actions : List ResolvedAction) (target : Text)
    → items (group_absorbed groups actions) target
      ≡ items groups target ++ filter (λ a. aims_at target a.target) actions
unfolding group_absorbed
group_absorbed_lem groups [] target = sym (append-nil (items groups target))
group_absorbed_lem groups (a ∷ rest) target =
    group_absorbed_lem (group_one groups a a.target) rest target
    ∙ rw (group_one_lem groups a a.target target) (elim (Bool-cases (aims_at target a.target)) [
      | inl hit ↦ rw hit (append_assoc (items groups target) (a ∷ []) _)
      | inr miss ↦ rw miss refl
    ])

-- In a program that resolves, the actions absorbed into a commit are exactly the program's actions
-- that have it as their target, each once and in the order of the program.
pub absorbed_into_exact :
    (resolve : Text → Option Text) (changes : List PlanChange) (merge_commits : List Text)
    (declarations : List Declaration) (program : Program) (target : Text)
    → resolve_interactive_program resolve changes merge_commits declarations ≡ ok program
    → get_or_else (lookup program.absorbed_into target) []
      ≡ filter (λ a. aims_at target a.target) program.actions
unfolding resolve_interactive_program lookup
absorbed_into_exact resolve changes merge_commits [] program target h =
    rw (sym (ok-injective h)) refl
absorbed_into_exact resolve changes merge_commits (d ∷ ds) program target h =
    let replayable = replayable_commits changes in
    let order = range_order [] 0 changes in
    let (resolved, e, k) =
      bind-eq-ok
        (resolve_all resolve merge_commits replayable order
          (record { actions = []; by_commit = [] }) (d ∷ ds))
        _ h in
    let (u, e2, k2) = bind-eq-ok (reject_chains resolved.by_commit resolved.actions) _ k in
    rw (sym (ok-injective k2))
      (group_absorbed_lem [] (sort_by (before_in order) resolved.actions) target)

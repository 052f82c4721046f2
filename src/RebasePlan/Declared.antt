-- ===== src/RebasePlan/Declared.antt =====
-- The declared actions that reach the plan of src/rebase-plan.js: each is one of the four, on a commit
-- that the rebase replays.
use vcs_lab.Prelude.{
  ◌≡◌, refl, sym, ◌∙◌, ap, arith, ℕ, Bool, true, false, ◌&&◌, Option, none, some, List, [], ◌∷◌,
  Text, ==_iff, contains, Dict, lookup, lookup-insert, All, All-append, has,
}
use vcs_lab.Errors.{ok, throw_if, bind-eq-ok, ok-injective}
use vcs_lab.Interactive.{
  Action, reword, edit, squash, fixup, Declaration, InteractiveOptions, parse_pair, parse_trimmed,
  split_at_equals, parse_declaration, parse_values, declared_interactive_actions, PlanChange,
  replayable_commits, range_order, ResolvedAction, Program, Resolving, named, named_target,
  resolve_one, resolve_all, reject_chains, resolve_interactive_program,
}
use vcs_lab.Interactive.Rounds.{named_lem}
use vcs_lab.Trailers.{trim}

-- The four actions that a caller can declare.
abbrev pub is_declared : Action → Bool
is_declared reword = true
is_declared edit = true
is_declared squash = true
is_declared fixup = true
is_declared _ = false

parse_pair_lem :
    (action : Action) (halves : Option (Text × Text)) (d : Declaration)
    → parse_pair action halves ≡ ok d
    → d.action ≡ action
unfolding parse_pair
parse_pair_lem action none d h = cc h
parse_pair_lem action (some ([], after)) d h = cc h
parse_pair_lem action (some (c ∷ cs, [])) d h = cc h
parse_pair_lem action (some (c ∷ cs, e ∷ es)) d h = rw (sym (ok-injective h)) refl

parse_trimmed_lem :
    (action : Action) (text : Text) (d : Declaration)
    → parse_trimmed action text ≡ ok d
    → d.action ≡ action
unfolding parse_trimmed
parse_trimmed_lem action [] d h = cc h
parse_trimmed_lem action (c ∷ cs) d h =
    ground (arith, parse_pair_lem action (split_at_equals (c ∷ cs)) d)

parse_values_lem :
    (action : Action) (values : List Text) (ds : List Declaration)
    → is_declared action ≡ true
    → parse_values action values ≡ ok ds
    → All (λ d. is_declared d.action ≡ true) ds
unfolding parse_values parse_declaration
parse_values_lem action [] ds k h = rw (sym (ok-injective h)) tt
parse_values_lem action (v ∷ vs) ds k h =
    let (d, e, h1) = bind-eq-ok (parse_trimmed action (trim v)) _ h in
    let (rest, e2, h2) = bind-eq-ok (parse_values action vs) _ h1 in
    rw (sym (ok-injective h2)) (
      ap is_declared (parse_trimmed_lem action (trim v) d e) ∙ k,
      parse_values_lem action vs rest k e2,
    )

pub declared_interactive_actions_lem :
    (options : InteractiveOptions) (ds : List Declaration)
    → declared_interactive_actions options ≡ ok ds
    → All (λ d. is_declared d.action ≡ true) ds
unfolding declared_interactive_actions
declared_interactive_actions_lem options ds h =
    let (rewords, e1, h1) = bind-eq-ok (parse_values reword options.reword_values) _ h in
    let (edits, e2, h2) = bind-eq-ok (parse_values edit options.edit_values) _ h1 in
    let (squashes, e3, h3) = bind-eq-ok (parse_values squash options.squash_values) _ h2 in
    let (fixups, e4, h4) = bind-eq-ok (parse_values fixup options.fixup_values) _ h3 in
    rw (sym (ok-injective h4)) (
      All-append _ rewords _ (parse_values_lem reword options.reword_values rewords refl e1) (
        All-append _ edits _ (parse_values_lem edit options.edit_values edits refl e2) (
          All-append _ squashes fixups
            (parse_values_lem squash options.squash_values squashes refl e3)
            (parse_values_lem fixup options.fixup_values fixups refl e4))))

-- Each entry of the map is a declared action on a commit that is replayed.
abbrev pub IsDeclaring : List Text → Dict ResolvedAction → Type 0
IsDeclaring replayable by_commit =
    (commit : Text)
    → (elim (lookup by_commit commit) [
      | none ↦ true
      | some a ↦ contains replayable commit && is_declared a.action
    ])
      ≡ true

module _ (resolve : Text → Option Text) (merge_commits replayable : List Text)
    (order : Dict ℕ) where
  resolve_one-IsDeclaring :
      (state : Resolving) (d : Declaration) (next : Resolving)
      → is_declared d.action ≡ true
      → resolve_one resolve merge_commits replayable order state d ≡ ok next
      → IsDeclaring replayable state.by_commit
      → IsDeclaring replayable next.by_commit
  unfolding resolve_one
  resolve_one-IsDeclaring state d next k h inv =
      let (subject, e1, k1) =
        bind-eq-ok (named resolve merge_commits replayable order d.subject) _ h in
      let (_, e2, k2) = bind-eq-ok (throw_if (has state.by_commit subject) _) _ k1 in
      let (target, e3, k3) =
        bind-eq-ok (named_target resolve merge_commits replayable order subject d.target) _ k2 in
      let resolved : ResolvedAction = record {
        action = d.action;
        commit = subject;
        target = target;
      } in
      rw (sym (ok-injective k3)) (λ commit. ground (
        arith,
        lookup-insert state.by_commit subject commit resolved,
        inv commit,
        k,
        ==_iff subject commit,
        named_lem resolve merge_commits replayable order d.subject subject e1,
      ))

  resolve_all-IsDeclaring :
      (state : Resolving) (ds : List Declaration) (final : Resolving)
      → All (λ d. is_declared d.action ≡ true) ds
      → resolve_all resolve merge_commits replayable order state ds ≡ ok final
      → IsDeclaring replayable state.by_commit
      → IsDeclaring replayable final.by_commit
  unfolding resolve_all
  resolve_all-IsDeclaring state [] final k h inv = rw (sym (ok-injective h)) inv
  resolve_all-IsDeclaring state (d ∷ ds) final k h inv =
      let (next, e, k1) =
        bind-eq-ok (resolve_one resolve merge_commits replayable order state d) _ h in
      resolve_all-IsDeclaring next ds final k.1 k1 (resolve_one-IsDeclaring state d next k.0 e inv)

pub program-IsDeclaring :
    (resolve : Text → Option Text) (changes : List PlanChange) (merge_commits : List Text)
    (declarations : List Declaration) (program : Program)
    → All (λ d. is_declared d.action ≡ true) declarations
    → resolve_interactive_program resolve changes merge_commits declarations ≡ ok program
    → IsDeclaring (replayable_commits changes) program.by_commit
unfolding resolve_interactive_program lookup
program-IsDeclaring resolve changes merge_commits [] program k h =
    rw (sym (ok-injective h)) (λ commit. refl)
program-IsDeclaring resolve changes merge_commits (d ∷ ds) program k h =
    let replayable = replayable_commits changes in
    let order = range_order [] 0 changes in
    let (resolved, e, h1) =
      bind-eq-ok
        (resolve_all resolve merge_commits replayable order
          (record { actions = []; by_commit = [] }) (d ∷ ds))
        _ h in
    let (u, e2, h2) = bind-eq-ok (reject_chains resolved.by_commit resolved.actions) _ h1 in
    rw (sym (ok-injective h2)) (
      resolve_all-IsDeclaring resolve merge_commits replayable order
        (record { actions = []; by_commit = [] }) (d ∷ ds) resolved k e (λ commit. refl))

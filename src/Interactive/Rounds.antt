-- ===== src/Interactive/Rounds.antt =====
-- The loop over the declarations in `resolveInteractiveProgram` of src/rebase-interactive.js: what
-- holds of the actions and the map after each round.
use vcs_lab.Prelude.{
  ◌≡◌, refl, ◌∙◌, sym, ap, arith, inl, inr, ℕ, Bool, true, false, not, ◌&&◌, Option, none, some,
  List, [], ◌∷◌, ◌++◌, map, leb, Text, ◌==◌, ==_iff, contains, contains-concat, IsNodup,
  IsNodup-concat, Dict, lookup, insert, has, lookup-insert, any, any-append, count_if,
  count_if-append, ◌+◌, All, All-append, if◌then◌else◌, Bool-cases, get_or_else,
}
use vcs_lab.Errors.{ok, throw_if, bind-eq-ok, ok-injective, throw_if-eq-ok}
use vcs_lab.Interactive.{
  Action, is_absorbing, Declaration, ResolvedAction, Resolving, named, named_target, resolve_one,
  resolve_all, chains,
}

-- Whether `actions` absorb the commit.
abbrev pub absorbs : Text → ResolvedAction → Bool
absorbs commit a = a.commit == commit && is_absorbing a.action

module _ (merge_commits replayable : List Text) (order : Dict ℕ) where
  -- A replayed commit of the range that is no merge.
  abbrev pub nameable : Text → Bool
  nameable commit = contains replayable commit && not (contains merge_commits commit)

  -- A target other than the subject, and not after it in the range.
  abbrev pub target_fits : Text → Option Text → Bool
  target_fits subject none = true
  target_fits subject (some target) =
      nameable target
      && not (target == subject)
      && leb (get_or_else (lookup order target) 0) (get_or_else (lookup order subject) 0)

  abbrev pub action_fits : ResolvedAction → Bool
  action_fits a = nameable a.commit && target_fits a.commit a.target

-- The target is not absorbed by another action.
abbrev pub target_survives : List ResolvedAction → Option Text → Bool
target_survives actions none = true
target_survives actions (some target) = not (any (absorbs target) actions)

module _ (resolve : Text → Option Text) (merge_commits replayable : List Text)
    (order : Dict ℕ) where
  pub named_lem :
      (expression commit : Text)
      → named resolve merge_commits replayable order expression ≡ ok commit
      → nameable merge_commits replayable order commit ≡ true
  unfolding named
  named_lem expression commit h = ground arith

  named_target_lem :
      (subject : Text) (target : Option Text) (found : Option Text)
      → named_target resolve merge_commits replayable order subject target ≡ ok found
      → target_fits merge_commits replayable order subject found ≡ true
  unfolding named_target
  named_target_lem subject none found h = ground arith
  named_target_lem subject (some expression) found h =
      let (t, e, k) = bind-eq-ok (named resolve merge_commits replayable order expression) _ h in
      ground (arith, named_lem expression t e)

-- What holds of the actions and the map after each round.
pub record IsResolving (merge_commits replayable : List Text) (order : Dict ℕ) (state : Resolving)
    : Type 0 where
  pub distinct : IsNodup (map (λ a. a.commit) state.actions)
  pub fits : All (λ a. action_fits merge_commits replayable order a ≡ true) state.actions
  pub known :
      (commit : Text)
      → contains (map (λ a. a.commit) state.actions) commit ≡ has state.by_commit commit
  pub absorbing :
      (commit : Text) → any (absorbs commit) state.actions ≡ chains state.by_commit (some commit)

map-commit-concat :
    (xs : List ResolvedAction) (a : ResolvedAction)
    → map (λ a. a.commit) (xs ++ a ∷ []) ≡ map (λ a. a.commit) xs ++ a.commit ∷ []
map-commit-concat [] a = refl
map-commit-concat (x ∷ xs) a = ap (λ ids. x.commit ∷ ids) (map-commit-concat xs a)

chains-insert :
    (m : Dict ResolvedAction) (a : ResolvedAction) (commit : Text)
    → chains (insert m a.commit a) (some commit)
      ≡ (if a.commit == commit then is_absorbing a.action else chains m (some commit))
unfolding chains
chains-insert m a commit = ground (arith, lookup-insert m a.commit commit a)

chains-fresh :
    (m : Dict ResolvedAction) (commit : Text)
    → has m commit ≡ false
    → chains m (some commit) ≡ false
unfolding chains
chains-fresh m commit h = ground arith

module _ (resolve : Text → Option Text) (merge_commits replayable : List Text)
    (order : Dict ℕ) where
  -- Adding an action on a new commit.
  IsResolving-append :
      (state : Resolving) (a : ResolvedAction)
      → IsResolving merge_commits replayable order state
      → has state.by_commit a.commit ≡ false
      → action_fits merge_commits replayable order a ≡ true
      → IsResolving merge_commits replayable order (record {
        actions = state.actions ++ a ∷ [];
        by_commit = insert state.by_commit a.commit a;
      })
  IsResolving-append state a inv new ok_action = record {
    distinct =
        rw map-commit-concat (IsNodup-concat _ a.commit inv.distinct (inv.known a.commit ∙ new));
    fits = All-append _ state.actions (a ∷ []) inv.fits (ok_action, tt);
    known = λ commit. ground (
      arith,
      map-commit-concat state.actions a,
      contains-concat (map (λ a. a.commit) state.actions) a.commit commit,
      inv.known commit,
      lookup-insert state.by_commit a.commit commit a,
    );
    absorbing = λ commit. elim (Bool-cases (a.commit == commit)) [
      | inl same ↦
          let e = (==_iff a.commit commit).0 same in
          ground (
            arith,
            any-append (absorbs commit) state.actions (a ∷ []),
            inv.absorbing commit,
            chains-insert state.by_commit a commit,
            chains-fresh state.by_commit a.commit new,
            e,
          )
      | inr other ↦ ground (
        arith,
        any-append (absorbs commit) state.actions (a ∷ []),
        inv.absorbing commit,
        chains-insert state.by_commit a commit,
      )
    ];
  }

  resolve_one-IsResolving :
      (state : Resolving) (d : Declaration) (next : Resolving)
      → resolve_one resolve merge_commits replayable order state d ≡ ok next
      → IsResolving merge_commits replayable order state
      → IsResolving merge_commits replayable order next
  unfolding resolve_one
  resolve_one-IsResolving state d next h inv =
      let (subject, e1, k1) =
        bind-eq-ok (named resolve merge_commits replayable order d.subject) _ h in
      let (_, e2, k2) = bind-eq-ok (throw_if (has state.by_commit subject) _) _ k1 in
      let (target, e3, k3) =
        bind-eq-ok (named_target resolve merge_commits replayable order subject d.target) _ k2 in
      rw (sym (ok-injective k3)) (
        IsResolving-append state (record { action = d.action; commit = subject; target = target })
          inv (throw_if-eq-ok (has state.by_commit subject) _ _ e2)
          (ground (
            arith,
            named_lem resolve merge_commits replayable order d.subject subject e1,
            named_target_lem resolve merge_commits replayable order subject d.target target e3,
          )))

  pub resolve_all-IsResolving :
      (state : Resolving) (ds : List Declaration) (final : Resolving)
      → resolve_all resolve merge_commits replayable order state ds ≡ ok final
      → IsResolving merge_commits replayable order state
      → IsResolving merge_commits replayable order final
  unfolding resolve_all
  resolve_all-IsResolving state [] final h inv = rw (sym (ok-injective h)) inv
  resolve_all-IsResolving state (d ∷ ds) final h inv =
      let (next, e, k) =
        bind-eq-ok (resolve_one resolve merge_commits replayable order state d) _ h in
      resolve_all-IsResolving next ds final k (resolve_one-IsResolving state d next e inv)

  -- A round adds one action of the kind declared.
  resolve_one-counts :
      (p : Action → Bool) (state : Resolving) (d : Declaration) (next : Resolving)
      → resolve_one resolve merge_commits replayable order state d ≡ ok next
      → count_if (λ a. p a.action) next.actions
        ≡ count_if (λ a. p a.action) state.actions + (if p d.action then 1 else 0)
  unfolding resolve_one
  resolve_one-counts p state d next h =
      let (subject, e1, k1) =
        bind-eq-ok (named resolve merge_commits replayable order d.subject) _ h in
      let (_, e2, k2) = bind-eq-ok (throw_if (has state.by_commit subject) _) _ k1 in
      let (target, e3, k3) =
        bind-eq-ok (named_target resolve merge_commits replayable order subject d.target) _ k2 in
      rw (sym (ok-injective k3)) (count_if-append _ state.actions _ ∙ omega arith)

  pub resolve_all-counts :
      (p : Action → Bool) (state : Resolving) (ds : List Declaration) (final : Resolving)
      → resolve_all resolve merge_commits replayable order state ds ≡ ok final
      → count_if (λ a. p a.action) final.actions
        ≡ count_if (λ a. p a.action) state.actions + count_if (λ d. p d.action) ds
  unfolding resolve_all
  resolve_all-counts p state [] final h = rw (sym (ok-injective h)) (omega arith)
  resolve_all-counts p state (d ∷ ds) final h =
      let (next, e, k) =
        bind-eq-ok (resolve_one resolve merge_commits replayable order state d) _ h in
      omega (arith, resolve_all-counts p next ds final k, resolve_one-counts p state d next e)

pub IsResolving-nil :
    (merge_commits replayable : List Text) (order : Dict ℕ)
    → IsResolving merge_commits replayable order (record { actions = []; by_commit = [] })
unfolding chains contains lookup
IsResolving-nil merge_commits replayable order = record {
  distinct = tt;
  fits = tt;
  known = λ commit. refl;
  absorbing = λ commit. refl;
}

-- ===== src/Topology/Resolution.antt =====
-- Proofs about `resolveStepParents` of src/rebase-topology.js: run in the order of the analysis, no
-- step names a parent that has not been rewritten.
use vcs_lab.Prelude.{
  ◌≡◌, refl, sym, ◌∙◌, ap, inl, inr, Bool, true, Option, none, some, List, [], ◌∷◌, ◌++◌, map,
  arith, Text, ◌==◌, ==_iff, contains, to_set, All, All-map, Bool-cases, Dict, lookup,
}
use mathlib.Core.Path.{subst}
use mathlib.Core.List.{append-nil, append_assoc}
use vcs_lab.Errors.{ok}
use vcs_lab.Topology.{
  CommitNode, ParentSource, rewritten, new_base, ParentOrigin, parent_origin, Step, step_parents,
  step_of, ResolvedParent, resolve_parent, resolve_parents, resolve_step_parents,
  analyze_rebase_topology,
}
use vcs_lab.Topology.Shapes.{commits_of, steps_of_supported}

-- The order of `git rev-list --topo-order --reverse`: a parent inside the range stands before the
-- commits that name it; `seen` holds the commits so far.
abbrev pub IsTopological : List Text → List Text → List CommitNode → Type 0
IsTopological range seen [] = Unit
IsTopological range seen (n ∷ ns) =
    All (λ p. contains range p ≡ true → contains seen p ≡ true) n.parents
    × IsTopological range (seen ++ n.commit ∷ []) ns

-- The commit that a mapping has for an original, if it has one that is not empty.
abbrev pub replacement : Dict Text → Text → Option Text
replacement mapping commit = elim (lookup mapping commit) [
  | none ↦ none
  | some [] ↦ none
  | some (c ∷ cs) ↦ some (c ∷ cs)
]

-- What an original parent becomes: the new base, or the replacement of its origin.
abbrev pub parent_target : Text → Dict Text → ParentSource → Option Text → Option Text
parent_target onto_head mapping new_base origin = some onto_head
parent_target onto_head mapping rewritten none = none
parent_target onto_head mapping rewritten (some origin) = replacement mapping origin

abbrev pub target_of : Text → Dict Text → ParentOrigin → Option Text
target_of onto_head mapping p = parent_target onto_head mapping p.source p.origin

-- Each resolved parent keeps the source and origin of the step's, and its commit is the target.
abbrev pub Resolved : Text → Dict Text → List ParentOrigin → List ResolvedParent → Type 0
Resolved onto_head mapping [] [] = Unit
Resolved onto_head mapping (p ∷ ps) (r ∷ rs) =
    ((r.source ≡ p.source)
      × (r.origin ≡ p.origin)
      × (some r.commit ≡ target_of onto_head mapping p))
    × Resolved onto_head mapping ps rs
Resolved onto_head mapping _ _ = ⊥

abbrev pub IsSome : Option Text → Type 0
IsSome o = (c : Text) × (o ≡ some c)

module _ (onto_head : Text) (mapping : Dict Text) where
  resolve_parent-ready :
      (source : ParentSource) (origin : Option Text)
      → IsSome (parent_target onto_head mapping source origin)
      → (r : ResolvedParent) × (resolve_parent onto_head mapping
            (record { source = source; origin = origin })
          ≡ ok r)
        × (r.source ≡ source)
        × (r.origin ≡ origin)
        × (some r.commit ≡ parent_target onto_head mapping source origin)
  unfolding resolve_parent
  resolve_parent-ready new_base origin h =
      (record { source = new_base; origin = origin; commit = onto_head }, refl, refl, refl, refl)
  resolve_parent-ready rewritten none h = absurd (cc h.1)
  resolve_parent-ready rewritten (some origin) h = (
    record { source = rewritten; origin = some origin; commit = h.0 },
    ground arith,
    refl,
    refl,
    ground arith,
  )

  resolve_parents-ready :
      (ps : List ParentOrigin)
      → All (λ p. IsSome (target_of onto_head mapping p)) ps
      → (rs : List ResolvedParent) × (resolve_parents onto_head mapping ps ≡ ok rs)
        × Resolved onto_head mapping ps rs
  unfolding resolve_parents
  resolve_parents-ready [] h = ([], refl, tt)
  resolve_parents-ready (p ∷ ps) h =
      let first = resolve_parent-ready p.source p.origin h.0 in
      let (rs, later, kept) = resolve_parents-ready ps h.1 in
      (first.0 ∷ rs, ground (arith, first.1, later), ((first.2, first.3, first.4), kept))

-- The steps of a list of nodes, split at one of them.
map-split {ℓ κ} :
    {A : Type ℓ} {B : Type κ} (f : A → B) (xs : List A) (before after : List B) (b : B)
    → map f xs ≡ before ++ b ∷ after
    → (ys : List A) × (a : A) × (zs : List A) × (xs ≡ ys ++ a ∷ zs)
      × (before ≡ map f ys)
      × (b ≡ f a)
map-split f [] [] after b h = absurd (cc h)
map-split f [] (c ∷ cs) after b h = absurd (cc h)
map-split f (x ∷ xs) [] after b h = ([], x, xs, refl, refl, cc h)
map-split f (x ∷ xs) (c ∷ cs) after b h =
    let (ys, a, zs, e, before_is, b_is) = map-split f xs cs after b (cc h) in
    (x ∷ ys, a, zs, ap (◌∷◌ x) e, cc (h, before_is), b_is)

IsTopological-at :
    (range seen : List Text) (xs zs : List CommitNode) (n : CommitNode)
    → IsTopological range seen (xs ++ n ∷ zs)
    → All (λ p. contains range p ≡ true → contains (seen ++ commits_of xs) p ≡ true) n.parents
IsTopological-at range seen [] zs n h = rw append-nil h.0
IsTopological-at range seen (x ∷ xs) zs n h =
    rw append_assoc at (IsTopological-at range (seen ++ x.commit ∷ []) xs zs n h.1)

module _ (onto_head : Text) (mapping : Dict Text) where
  mapped_of_seen :
      (range : List Text) (xs : List CommitNode) (q : Text)
      → All (λ (s : Step). IsSome (replacement mapping s.commit)) (map (step_of range) xs)
      → contains (commits_of xs) q ≡ true
      → IsSome (replacement mapping q)
  unfolding contains step_of
  mapped_of_seen range [] q h c = absurd (cc c)
  mapped_of_seen range (x ∷ xs) q h c = elim (Bool-cases (x.commit == q)) [
    | inl same ↦ rw (← (==_iff x.commit q).0 same) h.0
    | inr other ↦ mapped_of_seen range xs q h.1 (ground arith)
  ]

  parent_origin-ready :
      (range : List Text) (q : Text)
      → (contains range q ≡ true → IsSome (replacement mapping q))
      → IsSome (target_of onto_head mapping (parent_origin range q))
  unfolding parent_origin
  parent_origin-ready range q h = elim (Bool-cases (contains range q)) [
    | inl inside ↦ rw inside (h inside)
    | inr outside ↦ rw outside (onto_head, refl)
  ]

  parents-ready :
      (range ps : List Text)
      → All (λ q. contains range q ≡ true → IsSome (replacement mapping q)) ps
      → All (λ p. IsSome (target_of onto_head mapping p)) (map (parent_origin range) ps)
  parents-ready range [] h = tt
  parents-ready range (p ∷ ps) h = (parent_origin-ready range p h.0, parents-ready range ps h.1)

  step_parents-ready :
      (range ps : List Text)
      → All (λ q. contains range q ≡ true → IsSome (replacement mapping q)) ps
      → All (λ p. IsSome (target_of onto_head mapping p)) (step_parents range ps)
  unfolding step_parents
  step_parents-ready range [] h = ((onto_head, refl), tt)
  step_parents-ready range (p ∷ ps) h = parents-ready range (p ∷ ps) h

  node_resolves :
      (range : List Text) (xs zs : List CommitNode) (n : CommitNode)
      → IsTopological range [] (xs ++ n ∷ zs)
      → All (λ (s : Step). IsSome (replacement mapping s.commit)) (map (step_of range) xs)
      → (rs : List ResolvedParent) × (resolve_step_parents (step_of range n) onto_head mapping
          ≡ ok rs)
        × Resolved onto_head mapping (step_of range n).parents rs
  unfolding resolve_step_parents step_of
  node_resolves range xs zs n order mapped =
      resolve_parents-ready onto_head mapping (step_parents range n.parents) (
        step_parents-ready range n.parents (
          All-map _ _ n.parents (λ q seen inside. mapped_of_seen range xs q mapped (seen inside))
            (IsTopological-at range [] xs zs n order)))

  module _ (is_ancestor : Text → Text → Bool) (nodes : List CommitNode) where
    -- In a supported range that Git lists in topological order, a step whose predecessors are all
    -- mapped resolves: each of its parents becomes the new base, or the replacement of the
    -- original parent inside the range. The error of the code is never raised.
    pub steps_resolve :
        IsTopological (to_set (commits_of nodes)) [] nodes
        → (analyze_rebase_topology is_ancestor onto_head nodes).supported ≡ true
        → (before after : List Step) (step : Step)
        → (analyze_rebase_topology is_ancestor onto_head nodes).steps ≡ before ++ step ∷ after
        → All (λ (s : Step). IsSome (replacement mapping s.commit)) before
        → (rs : List ResolvedParent) × (resolve_step_parents step onto_head mapping ≡ ok rs)
          × Resolved onto_head mapping step.parents rs
    steps_resolve order sup before after step split mapped =
        let range = to_set (commits_of nodes) in
        let (xs, n, zs, e, before_is, step_is) =
          map-split (step_of range) nodes before after step
            (sym (steps_of_supported is_ancestor onto_head nodes sup) ∙ split) in
        rw step_is (
          node_resolves range xs zs n (subst (IsTopological range []) e order)
            (subst (All (λ (s : Step). IsSome (replacement mapping s.commit))) before_is mapped))

-- ===== src/Topology/Shapes.antt =====
-- Proofs about `analyzeRebaseTopology` of src/rebase-topology.js: which ranges are supported, and
-- which steps a supported range has.
use vcs_lab.Prelude.{
  ◌≡◌, refl, sym, ◌∙◌, ap, Bool, true, false, not, ◌&&◌, ◌||◌, Option, none, some, List, [], ◌∷◌,
  ◌++◌, map, arith, leb, Text, contains, contains-to_set, to_set, length, all, all-ext,
}
use mathlib.Core.List.{append-nil, append_assoc}
use vcs_lab.Topology.{
  CommitNode, UnsupportedMerge, Step, Topology, is_empty, is_merge, step_of, has_outside_parent,
  unsupported_shape, Found, visit, visit_merge, visit_all, analyze_rebase_topology,
}

-- The commits of a range.
abbrev pub commits_of : List CommitNode → List Text
commits_of nodes = map (λ n. n.commit) nodes

-- The shapes of ADR-0034, read off one commit: at most two parents, each of them in the range or an
-- ancestor of the new base. A commit that is no merge has no condition.
abbrev pub recreatable : (Text → Text → Bool) → Text → List Text → CommitNode → Bool
recreatable is_ancestor onto_head range node =
    not (is_merge node)
    || leb (length node.parents) 2
      && all (λ p. contains range p || is_ancestor p onto_head) node.parents

is_empty-concat {ℓ} : {A : Type ℓ} (xs : List A) (x : A) → is_empty (xs ++ x ∷ []) ≡ false
is_empty-concat [] x = refl
is_empty-concat (y ∷ ys) x = refl

steps-visit_merge :
    (range : List Text) (n : CommitNode) (o : Option UnsupportedMerge) (found : Found)
    → is_empty (visit_merge range n o found).unsupported ≡ true
    → (visit_merge range n o found).steps ≡ found.steps ++ step_of range n ∷ []
unfolding visit_merge
steps-visit_merge range n none found h = refl
steps-visit_merge range n (some bad) found h = cc (is_empty-concat found.unsupported bad)

module _ (is_ancestor : Text → Text → Bool) (onto_head : Text) where
  pub has_outside_parent-all :
      (range ps : List Text)
      → has_outside_parent is_ancestor onto_head range ps
        ≡ not (all (λ p. contains range p || is_ancestor p onto_head) ps)
  unfolding has_outside_parent
  has_outside_parent-all range [] = refl
  has_outside_parent-all range (p ∷ ps) = ground (arith, has_outside_parent-all range ps)

  unsupported-visit :
      (range : List Text) (found : Found) (n : CommitNode)
      → is_empty (visit is_ancestor onto_head range found n).unsupported
        ≡ (is_empty found.unsupported && recreatable is_ancestor onto_head range n)
  unfolding visit visit_merge unsupported_shape
  unsupported-visit range found n = ground (
    arith,
    has_outside_parent-all range n.parents,
    λ (u : UnsupportedMerge). is_empty-concat found.unsupported u,
  )

  unsupported-visit_all :
      (range : List Text) (found : Found) (nodes : List CommitNode)
      → is_empty (visit_all is_ancestor onto_head range found nodes).unsupported
        ≡ (is_empty found.unsupported && all (recreatable is_ancestor onto_head range) nodes)
  unfolding visit_all
  unsupported-visit_all range found [] = ground arith
  unsupported-visit_all range found (n ∷ ns) =
      let next = visit is_ancestor onto_head range found n in
      ground (arith, unsupported-visit range found n, unsupported-visit_all range next ns)

  steps-visit :
      (range : List Text) (found : Found) (n : CommitNode)
      → is_empty (visit is_ancestor onto_head range found n).unsupported ≡ true
      → (visit is_ancestor onto_head range found n).steps ≡ found.steps ++ step_of range n ∷ []
  unfolding visit
  steps-visit range found n h =
      ground
        (arith, steps-visit_merge range n (unsupported_shape is_ancestor onto_head range n) found)

  steps-visit_all :
      (range : List Text) (found : Found) (nodes : List CommitNode)
      → is_empty (visit_all is_ancestor onto_head range found nodes).unsupported ≡ true
      → (visit_all is_ancestor onto_head range found nodes).steps
        ≡ found.steps ++ map (step_of range) nodes
  unfolding visit_all
  steps-visit_all range found [] h = sym (append-nil found.steps)
  steps-visit_all range found (n ∷ ns) h =
      let next = visit is_ancestor onto_head range found n in
      let empty : is_empty next.unsupported ≡ true =
        ground (arith, unsupported-visit_all range next ns) in
      steps-visit_all range next ns h
      ∙ ap (λ (l : List Step). l ++ map (step_of range) ns) (steps-visit range found n empty)
      ∙ append_assoc found.steps (step_of range n ∷ []) (map (step_of range) ns)

  abbrev pub analysis : List CommitNode → Topology
  analysis = analyze_rebase_topology is_ancestor onto_head

  pub recreatable-to_set :
      (nodes : List CommitNode) (n : CommitNode)
      → recreatable is_ancestor onto_head (to_set (commits_of nodes)) n
        ≡ recreatable is_ancestor onto_head (commits_of nodes) n
  recreatable-to_set nodes n = ground (
    arith,
    all-ext (λ p. contains (to_set (commits_of nodes)) p || is_ancestor p onto_head)
        (λ p. contains (commits_of nodes) p || is_ancestor p onto_head) n.parents
        (λ p. rw contains-to_set),
  )

  -- A range is supported exactly when each of its merges has at most two parents, all of them in
  -- the range or ancestors of the new base.
  pub supported_iff :
      (nodes : List CommitNode)
      → (analysis nodes).supported
        ≡ all (recreatable is_ancestor onto_head (commits_of nodes)) nodes
  unfolding analyze_rebase_topology
  supported_iff nodes =
      let start : Found = record { merges = []; unsupported = []; steps = [] } in
      unsupported-visit_all (to_set (commits_of nodes)) start nodes
      ∙ all-ext _ _ nodes (recreatable-to_set nodes)

  pub steps_of_supported :
      (nodes : List CommitNode)
      → (analysis nodes).supported ≡ true
      → (analysis nodes).steps ≡ map (step_of (to_set (commits_of nodes))) nodes
  unfolding analyze_rebase_topology
  steps_of_supported nodes h =
      steps-visit_all (to_set (commits_of nodes))
        (record { merges = []; unsupported = []; steps = [] }) nodes h

-- ===== src/Topology/Accounted.antt =====
-- Proofs about `analyzeRebaseTopology` of src/rebase-topology.js: which commits of a range are steps and
-- which are refused.
use vcs_lab.Prelude.{
  if◌then◌else◌, ◌≡◌, sym, ◌∙◌, ap, inl, inr, Bool, true, not, Option, none, some, List, [], ◌∷◌,
  ◌++◌, map, arith, Text, to_set, filter, filter-ext, All, All-append, Bool-cases,
}
use mathlib.Core.List.{append-nil, append_assoc, map-append}
use vcs_lab.Topology.{
  StepKind, pick, recreate_merge, CommitNode, UnsupportedMerge, Step, is_merge, step_of,
  unsupported_shape, Found, visit, visit_merge, visit_all, analyze_rebase_topology,
  unsupported_topology_error,
}
use vcs_lab.Topology.Shapes.{
  commits_of, recreatable, has_outside_parent-all, analysis, recreatable-to_set,
}

abbrev refused : Option UnsupportedMerge → List Text
refused none = []
refused (some u) = u.commit ∷ []

refusals-visit_merge :
    (range : List Text) (n : CommitNode) (o : Option UnsupportedMerge) (found : Found)
    → map (λ u. u.commit) (visit_merge range n o found).unsupported
      ≡ map (λ u. u.commit) found.unsupported ++ refused o
unfolding visit_merge
refusals-visit_merge range n none found = sym (append-nil _)
refusals-visit_merge range n (some u) found = map-append (λ v. v.commit) found.unsupported (u ∷ [])

-- The code that a refusal of this merge would carry is the one recorded with it.
abbrev pub CodeAgrees : UnsupportedMerge → Type 0
CodeAgrees u = unsupported_topology_error u ≡ u.code

abbrev ShapeAgrees : Option UnsupportedMerge → Type 0
ShapeAgrees none = Unit
ShapeAgrees (some u) = CodeAgrees u

codes-visit_merge :
    (range : List Text) (n : CommitNode) (o : Option UnsupportedMerge) (found : Found)
    → ShapeAgrees o
    → All CodeAgrees found.unsupported
    → All CodeAgrees (visit_merge range n o found).unsupported
unfolding visit_merge
codes-visit_merge range n none found k h = h
codes-visit_merge range n (some u) found k h =
    All-append CodeAgrees found.unsupported (u ∷ []) h (k, tt)

-- What a step says: its commit and its kind.
abbrev pub listed_step : Step → Text × StepKind
listed_step s = (s.commit, s.kind)

-- The commits of a range, each with the kind of step that rewrites it.
abbrev pub listed_of : List CommitNode → List (Text × StepKind)
listed_of nodes = map (λ n. (n.commit, if is_merge n then recreate_merge else pick)) nodes

module _ (is_ancestor : Text → Text → Bool) (onto_head : Text) where
  merges-visit :
      (range : List Text) (found : Found) (n : CommitNode)
      → (visit is_ancestor onto_head range found n).merges
        ≡ found.merges ++ commits_of (filter is_merge (n ∷ []))
  unfolding visit visit_merge
  merges-visit range found n = ground (arith, append-nil found.merges)

  merges-visit_all :
      (range : List Text) (found : Found) (nodes : List CommitNode)
      → (visit_all is_ancestor onto_head range found nodes).merges
        ≡ found.merges ++ commits_of (filter is_merge nodes)
  unfolding visit_all
  merges-visit_all range found [] = sym (append-nil found.merges)
  merges-visit_all range found (n ∷ ns) =
      merges-visit_all range (visit is_ancestor onto_head range found n) ns
      ∙ ap (λ (l : List Text). l ++ commits_of (filter is_merge ns)) (merges-visit range found n)
      ∙ append_assoc found.merges (commits_of (filter is_merge (n ∷ [])))
          (commits_of (filter is_merge ns))
      ∙ ground arith

  steps_of-visit :
      (range : List Text) (found : Found) (n : CommitNode)
      → map listed_step (visit is_ancestor onto_head range found n).steps
        ≡ map listed_step found.steps
          ++ listed_of (filter (recreatable is_ancestor onto_head range) (n ∷ []))
  unfolding visit visit_merge unsupported_shape step_of
  steps_of-visit range found n = ground (
    arith,
    has_outside_parent-all is_ancestor onto_head range n.parents,
    map-append listed_step found.steps (step_of range n ∷ []),
    append-nil (map listed_step found.steps),
  )

  steps_of-visit_all :
      (range : List Text) (found : Found) (nodes : List CommitNode)
      → map listed_step (visit_all is_ancestor onto_head range found nodes).steps
        ≡ map listed_step found.steps
          ++ listed_of (filter (recreatable is_ancestor onto_head range) nodes)
  unfolding visit_all
  steps_of-visit_all range found [] = sym (append-nil _)
  steps_of-visit_all range found (n ∷ ns) =
      let keep = recreatable is_ancestor onto_head range in
      steps_of-visit_all range (visit is_ancestor onto_head range found n) ns
      ∙ ap (λ (l : List (Text × StepKind)). l ++ listed_of (filter keep ns))
          (steps_of-visit range found n)
      ∙ append_assoc (map listed_step found.steps) (listed_of (filter keep (n ∷ [])))
          (listed_of (filter keep ns))
      ∙ ground arith

  refused-shape :
      (range : List Text) (n : CommitNode)
      → is_merge n ≡ true
      → refused (unsupported_shape is_ancestor onto_head range n)
        ≡ commits_of (filter (λ m. not (recreatable is_ancestor onto_head range m)) (n ∷ []))
  unfolding unsupported_shape
  refused-shape range n h =
      ground (arith, has_outside_parent-all is_ancestor onto_head range n.parents)

  refusals_of-visit :
      (range : List Text) (found : Found) (n : CommitNode)
      → map (λ u. u.commit) (visit is_ancestor onto_head range found n).unsupported
        ≡ map (λ u. u.commit) found.unsupported
          ++ commits_of (filter (λ m. not (recreatable is_ancestor onto_head range m)) (n ∷ []))
  unfolding visit
  refusals_of-visit range found n = elim (Bool-cases (is_merge n)) [
    | inl merge ↦
        rw (merge, visit)
          (refusals-visit_merge range n (unsupported_shape is_ancestor onto_head range n) found
            ∙ ap (λ (l : List Text). map (λ u. u.commit) found.unsupported ++ l)
                (ground (arith, refused-shape range n merge, merge)))
    | inr plain ↦ rw plain (sym (append-nil (map (λ u. u.commit) found.unsupported)))
  ]

  refusals_of-visit_all :
      (range : List Text) (found : Found) (nodes : List CommitNode)
      → map (λ u. u.commit) (visit_all is_ancestor onto_head range found nodes).unsupported
        ≡ map (λ u. u.commit) found.unsupported
          ++ commits_of (filter (λ m. not (recreatable is_ancestor onto_head range m)) nodes)
  unfolding visit_all
  refusals_of-visit_all range found [] = sym (append-nil _)
  refusals_of-visit_all range found (n ∷ ns) =
      let refuse = λ (m : CommitNode). not (recreatable is_ancestor onto_head range m) in
      refusals_of-visit_all range (visit is_ancestor onto_head range found n) ns
      ∙ ap (λ (l : List Text). l ++ commits_of (filter refuse ns)) (refusals_of-visit range found n)
      ∙ append_assoc (map (λ u. u.commit) found.unsupported) (commits_of (filter refuse (n ∷ [])))
          (commits_of (filter refuse ns))
      ∙ ground arith

  shape-CodeAgrees :
      (range : List Text) (n : CommitNode)
      → ShapeAgrees (unsupported_shape is_ancestor onto_head range n)
  unfolding unsupported_shape unsupported_topology_error
  shape-CodeAgrees range n = ground arith

  codes-visit :
      (range : List Text) (found : Found) (n : CommitNode)
      → All CodeAgrees found.unsupported
      → All CodeAgrees (visit is_ancestor onto_head range found n).unsupported
  unfolding visit
  codes-visit range found n h = elim (Bool-cases (is_merge n)) [
    | inl merge ↦ rw merge (
        codes-visit_merge range n (unsupported_shape is_ancestor onto_head range n) found
          (shape-CodeAgrees range n) h)
    | inr plain ↦ rw plain h
  ]

  codes-visit_all :
      (range : List Text) (found : Found) (nodes : List CommitNode)
      → All CodeAgrees found.unsupported
      → All CodeAgrees (visit_all is_ancestor onto_head range found nodes).unsupported
  unfolding visit_all
  codes-visit_all range found [] h = h
  codes-visit_all range found (n ∷ ns) h =
      codes-visit_all range (visit is_ancestor onto_head range found n) ns
        (codes-visit range found n h)

  -- The steps are of exactly the commits of the range that are no merge or a merge that can be
  -- recreated, each with its kind, and the refusals of exactly the other merges, both in the order of
  -- the range; the merges are reported in that order; and each refusal carries the code that the
  -- error for it has.
  pub range_accounted :
      (nodes : List CommitNode)
      → (map listed_step (analysis is_ancestor onto_head nodes).steps
          ≡ listed_of (filter (recreatable is_ancestor onto_head (commits_of nodes)) nodes))
        × (map (λ u. u.commit) (analysis is_ancestor onto_head nodes).unsupported_merges
            ≡ commits_of
                (filter (λ n. not (recreatable is_ancestor onto_head (commits_of nodes) n)) nodes))
        × ((analysis is_ancestor onto_head nodes).merge_commits
            ≡ commits_of (filter is_merge nodes))
        × All CodeAgrees (analysis is_ancestor onto_head nodes).unsupported_merges
  unfolding analyze_rebase_topology
  range_accounted nodes =
      let start : Found = record { merges = []; unsupported = []; steps = [] } in
      let range = to_set (commits_of nodes) in
      let same = recreatable-to_set is_ancestor onto_head nodes in
      (
        steps_of-visit_all range start nodes ∙ ap listed_of (filter-ext _ _ nodes same),
        refusals_of-visit_all range start nodes
            ∙ ap commits_of (filter-ext _ _ nodes (λ n. ap not (same n))),
        merges-visit_all range start nodes,
        codes-visit_all range start nodes tt,
      )

-- ===== src/Topology/Examples.antt =====
-- Runs of the topology analysis of src/rebase-topology.js: a range with one merge.
use vcs_lab.Prelude.{
  not, ◌≡◌, refl, Bool, true, false, some, List, [], ◌∷◌, map, String, Text, codes, ◌==◌, to_set,
  filter, all, All, Dict, lookup, contains, add_all, contains, add_all, lookup,
}
use vcs_lab.Errors.{ok, err, internal_invariant}
use vcs_lab.Topology.{
  CommitNode, rewritten, new_base, Step, pick, recreate_merge, is_merge, step_of,
  analyze_rebase_topology, ResolvedParent, resolve_step_parents,
}
use vcs_lab.Topology.Shapes.{commits_of, recreatable, supported_iff}
use vcs_lab.Topology.Accounted.{listed_step, listed_of, CodeAgrees, range_accounted}
use vcs_lab.Topology.Resolution.{IsTopological, replacement, IsSome, Resolved, steps_resolve}

abbrev node : String → List Text → CommitNode
node commit parents = record { commit = codes commit; parents = parents }

-- `b` and `c` both stand on `a`; `m` merges them; `x` merges a commit outside the range.
abbrev nodes : List CommitNode
nodes =
    node "a" (codes "old" ∷ [])
    ∷ node "b" (codes "a" ∷ [])
    ∷ node "c" (codes "a" ∷ [])
    ∷ node "m" (codes "b" ∷ codes "c" ∷ [])
    ∷ []

abbrev bad_nodes : List CommitNode
bad_nodes =
    node "a" []
    ∷ node "x" (codes "a" ∷ codes "out" ∷ [])
    ∷ node "o" (codes "a" ∷ codes "x" ∷ codes "a" ∷ [])
    ∷ []

abbrev is_ancestor : Text → Text → Bool
is_ancestor a b = a == b

abbrev onto : Text
onto = codes "new"

abbrev mapping : Dict Text
mapping = (codes "a", codes "a2") ∷ (codes "b", codes "b2") ∷ (codes "c", codes "c2") ∷ []

abbrev range : List Text
range = to_set (commits_of nodes)

analysis-nodes :
    let t = analyze_rebase_topology is_ancestor onto nodes in
    (t.supported ≡ true)
    × (t.merge_commits ≡ codes "m" ∷ [])
    × (map (λ s. s.kind) t.steps ≡ pick ∷ pick ∷ pick ∷ recreate_merge ∷ [])
unfolding analyze_rebase_topology contains add_all ◌==◌
analysis-nodes = (refl, refl, refl)

analysis-bad_nodes :
    let t = analyze_rebase_topology is_ancestor onto bad_nodes in
    (t.supported ≡ false)
    × (map (λ u. u.commit) t.unsupported_merges ≡ codes "x" ∷ codes "o" ∷ [])
    × (map (λ s. s.commit) t.steps ≡ codes "a" ∷ [])
unfolding analyze_rebase_topology contains add_all ◌==◌
analysis-bad_nodes = (refl, refl, refl)

unmapped-step :
    resolve_step_parents (step_of range (node "m" (codes "b" ∷ codes "c" ∷ []))) onto []
    ≡ err internal_invariant
unfolding resolve_step_parents step_of contains add_all ◌==◌ lookup
unmapped-step = refl

supported_iff_example :
    (analyze_rebase_topology is_ancestor onto bad_nodes).supported
    ≡ all (recreatable is_ancestor onto (commits_of bad_nodes)) bad_nodes
supported_iff_example = supported_iff is_ancestor onto bad_nodes

range_accounted_example :
    let t = analyze_rebase_topology is_ancestor onto bad_nodes in
    (map listed_step t.steps
      ≡ listed_of (filter (recreatable is_ancestor onto (commits_of bad_nodes)) bad_nodes))
    × (map (λ u. u.commit) t.unsupported_merges
        ≡ commits_of
            (filter (λ n. not (recreatable is_ancestor onto (commits_of bad_nodes) n)) bad_nodes))
    × (t.merge_commits ≡ commits_of (filter is_merge bad_nodes))
    × All CodeAgrees t.unsupported_merges
range_accounted_example = range_accounted is_ancestor onto bad_nodes

abbrev merge_step : Step
merge_step = record {
  kind = recreate_merge;
  commit = codes "m";
  parents =
      record { source = rewritten; origin = some (codes "b") }
      ∷ record { source = rewritten; origin = some (codes "c") }
      ∷ [];
}

abbrev steps_before : List Step
steps_before =
    record {
      kind = pick;
      commit = codes "a";
      parents = record { source = new_base; origin = some (codes "old") } ∷ [];
    }
    ∷ record {
      kind = pick;
      commit = codes "b";
      parents = record { source = rewritten; origin = some (codes "a") } ∷ [];
    }
    ∷ record {
      kind = pick;
      commit = codes "c";
      parents = record { source = rewritten; origin = some (codes "a") } ∷ [];
    }
    ∷ []

nodes-IsTopological : IsTopological range [] nodes
unfolding contains add_all ◌==◌
nodes-IsTopological =
    ((λ h. cc h, tt), ((λ h. refl, tt), ((λ h. refl, tt), ((λ h. refl, (λ h. refl, tt)), tt))))

before-mapped : All (λ (s : Step). IsSome (replacement mapping s.commit)) steps_before
unfolding lookup ◌==◌
before-mapped = ((codes "a2", refl), ((codes "b2", refl), ((codes "c2", refl), tt)))

steps_resolve_example :
    (rs : List ResolvedParent) × (resolve_step_parents merge_step onto mapping ≡ ok rs)
    × Resolved onto mapping merge_step.parents rs
unfolding analyze_rebase_topology contains add_all ◌==◌
steps_resolve_example =
    steps_resolve onto mapping is_ancestor nodes nodes-IsTopological analysis-nodes.0 steps_before
      [] merge_step refl before-mapped

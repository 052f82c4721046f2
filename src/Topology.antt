-- ===== src/Topology.antt =====
-- src/rebase-topology.js: which merges a rebase recreates, in what order the range is rewritten, and
-- where each step's new parents come from. Git's ancestry and the commit graph are parameters.
pub mod Shapes
pub mod Accounted
pub mod Resolution
pub mod Examples
use vcs_lab.Prelude.{
  ℕ, suc, Bool, true, false, not, ◌&&◌, ◌||◌, Option, none, some, List, [], ◌∷◌, ◌++◌, map,
  if◌then◌else◌, ltb, Text, codes, ◌==◌, take, contains, add_all, to_set, Dict, lookup, length,
  get_or_else, is_some,
}
use vcs_lab.Errors.{
  ErrorCode, unsupported_repository_shape, unsupported_range, internal_invariant, Result, ok, err,
  ◌>>=◌,
}
use vcs_lab.Trailers.{trim}

-- A node of `commitTopology`.
pub record CommitNode : Type 0 where
  pub commit : Text
  pub parents : List Text

pub data ParentSource : Type 0 where
  rewritten new_base : ParentSource

-- `origin` is null for the absent parent of a root commit.
pub record ParentOrigin : Type 0 where
  pub source : ParentSource
  pub origin : Option Text

unfoldable pub parent_origin : List Text → Text → ParentOrigin
parent_origin in_range parent =
    if contains in_range parent
    then record { source = rewritten; origin = some parent }
    else record { source = new_base; origin = some parent }

pub data ShapeReason : Type 0 where
  octopus_merge parent_outside_range : ShapeReason

pub record UnsupportedMerge : Type 0 where
  pub commit : Text
  pub parents : List Text
  pub reason : ShapeReason
  pub code : ErrorCode

pub data StepKind : Type 0 where
  pick recreate_merge : StepKind

pub record Step : Type 0 where
  pub kind : StepKind
  pub commit : Text
  pub parents : List ParentOrigin

pub record Topology : Type 0 where
  pub merge_commits : List Text
  pub unsupported_merges : List UnsupportedMerge
  pub steps : List Step
  pub linear_history : Bool
  pub supported : Bool

abbrev pub is_empty {ℓ} : {A : Type ℓ} → List A → Bool
is_empty [] = true
is_empty (x ∷ xs) = false

abbrev pub is_merge : CommitNode → Bool
is_merge node = ltb 1 (length node.parents)

-- `(node.parents.length ? node.parents : [null]).map(...)`.
unfoldable pub step_parents : List Text → List Text → List ParentOrigin
unfolding parent_origin
step_parents in_range [] = (record { source = new_base; origin = none }) ∷ []
step_parents in_range (p ∷ ps) = map (parent_origin in_range) (p ∷ ps)

unfoldable pub step_of : List Text → CommitNode → Step
unfolding step_parents
step_of in_range node = record {
  kind = if is_merge node then recreate_merge else pick;
  commit = node.commit;
  parents = step_parents in_range node.parents;
}

-- The three lists that the loop of `analyzeRebaseTopology` appends to.
pub record Found : Type 0 where
  pub merges : List Text
  pub unsupported : List UnsupportedMerge
  pub steps : List Step

-- The body of `if (isMerge)`, on the refusal found.
unfoldable pub visit_merge : List Text → CommitNode → Option UnsupportedMerge → Found → Found
unfolding step_of
visit_merge in_range node none found = record found {
  merges = found.merges ++ node.commit ∷ [];
  steps = found.steps ++ step_of in_range node ∷ [];
}
visit_merge in_range node (some bad) found = record found {
  merges = found.merges ++ node.commit ∷ [];
  unsupported = found.unsupported ++ bad ∷ [];
}

module _ (is_ancestor : Text → Text → Bool) (onto_head : Text) where
  -- The loop over the parents: is there one that no line of the rewrite can map?
  unfoldable pub has_outside_parent : List Text → List Text → Bool
  has_outside_parent in_range [] = false
  has_outside_parent in_range (p ∷ ps) =
      not (contains in_range p || is_ancestor p onto_head) || has_outside_parent in_range ps

  unfoldable pub unsupported_shape : List Text → CommitNode → Option UnsupportedMerge
  unfolding has_outside_parent
  unsupported_shape in_range node =
      if ltb 2 (length node.parents)
      then some (record {
        commit = node.commit;
        parents = node.parents;
        reason = octopus_merge;
        code = unsupported_repository_shape;
      })
      else if has_outside_parent in_range node.parents
      then some (record {
        commit = node.commit;
        parents = node.parents;
        reason = parent_outside_range;
        code = unsupported_range;
      })
      else none

  -- One round of the loop.
  unfoldable pub visit : List Text → Found → CommitNode → Found
  unfolding visit_merge unsupported_shape
  visit in_range found node =
      if is_merge node
      then visit_merge in_range node (unsupported_shape in_range node) found
      else record found { steps = found.steps ++ step_of in_range node ∷ [] }

  unfoldable pub visit_all : List Text → Found → List CommitNode → Found
  unfolding visit
  visit_all in_range found [] = found
  visit_all in_range found (n ∷ ns) = visit_all in_range (visit in_range found n) ns

  unfoldable pub analyze_rebase_topology : List CommitNode → Topology
  unfolding visit_all
  analyze_rebase_topology nodes =
      let in_range = to_set (map (λ n. n.commit) nodes) in
      let found = visit_all in_range (record { merges = []; unsupported = []; steps = [] }) nodes in
      record {
        merge_commits = found.merges;
        unsupported_merges = found.unsupported;
        steps = found.steps;
        linear_history = is_empty found.merges;
        supported = is_empty found.unsupported;
      }

-- `topologyFingerprintInput`: the merge steps with their parent mapping.
unfoldable pub topology_fingerprint_input :
    List Step → List (Text × List (ParentSource × Option Text))
topology_fingerprint_input [] = []
topology_fingerprint_input (s ∷ ss) =
    let rest = topology_fingerprint_input ss in
    elim s.kind [
      | recreate_merge ↦ (s.commit, map (λ p. (p.source, p.origin)) s.parents) ∷ rest
      | pick ↦ rest
    ]

-- A parent with the commit that stands for it.
pub record ResolvedParent : Type 0 where
  pub source : ParentSource
  pub origin : Option Text
  pub commit : Text

-- `rewritten.get(parent.origin)`, refused when it is absent or empty.
unfoldable pub mapped_commit : Dict Text → Option Text → Result Text
mapped_commit mapping none = err internal_invariant
mapped_commit mapping (some origin) = elim (lookup mapping origin) [
  | none ↦ err internal_invariant
  | some [] ↦ err internal_invariant
  | some (c ∷ cs) ↦ ok (c ∷ cs)
]

unfoldable pub resolve_parent : Text → Dict Text → ParentOrigin → Result ResolvedParent
unfolding mapped_commit
resolve_parent onto_head mapping parent = elim parent.source [
  | new_base ↦ ok (record { source = new_base; origin = parent.origin; commit = onto_head })
  | rewritten ↦ do
    commit ← mapped_commit mapping parent.origin
    ok (record { source = rewritten; origin = parent.origin; commit = commit })
]

unfoldable pub resolve_parents : Text → Dict Text → List ParentOrigin → Result (List ResolvedParent)
unfolding resolve_parent
resolve_parents onto_head mapping [] = ok []
resolve_parents onto_head mapping (p ∷ ps) = do
  resolved ← resolve_parent onto_head mapping p
  rest ← resolve_parents onto_head mapping ps
  ok (resolved ∷ rest)

-- `resolveStepParents`.
unfoldable pub resolve_step_parents : Step → Text → Dict Text → Result (List ResolvedParent)
unfolding resolve_parents
resolve_step_parents step onto_head mapping = resolve_parents onto_head mapping step.parents

-- The code of `unsupportedTopologyError`, which is called on a topology with an unsupported merge.
unfoldable pub unsupported_topology_error : UnsupportedMerge → ErrorCode
unsupported_topology_error first = elim first.reason [
  | octopus_merge ↦ unsupported_repository_shape
  | parent_outside_range ↦ unsupported_range
]

abbrev or_text : Text → Text → Text
or_text [] d = d
or_text (c ∷ cs) d = c ∷ cs

-- `recreatedMergeMessage`; an absent subject is empty.
unfoldable pub recreated_merge_message : Text → Text → Option Text → Text → Text
unfolding trim
recreated_merge_message subject change_id origin_change_id origin_commit =
    or_text (trim subject) (codes "Merge " ++ take 12 origin_commit)
    ++ codes "\n\nChange-Id: "
    ++ change_id
    ++ codes "\nDerived-From: "
    ++ get_or_else origin_change_id (codes "git:" ++ origin_commit)
    ++ codes "\nOrigin-Commit: "
    ++ origin_commit
    ++ codes "\n"

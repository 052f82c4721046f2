-- ===== src/RebaseJournal/Recording.antt =====
-- What a finished step leaves in the journal: `applicationRecord`, `anchorRewritten`,
-- `recordSuccessfulApplication` and `recordRecreatedMerge`.
use vcs_lab.Prelude.{
  suc, Bool, true, false, not, ◌&&◌, Option, none, some, List, [], ◌∷◌, ◌++◌, map, Text, codes,
  ◌==◌, take, insert, keys,
}
use vcs_lab.Errors.{identity_not_preserved}
use vcs_lab.RebasePlan.{Mode, linear, merge_preserving}
use vcs_lab.RebaseJournal.{
  running, identity_mismatch, Relation, contextual_fork, Absorption, MergeParent, AppliedChange,
  AbsorptionRecord, change_of,
}
use vcs_lab.RebaseJournal.Host.{update_ref, delete_ref, Host}
use vcs_lab.RebaseJournal.Session.{
  M, ◌>>=◌, ◌>>◌, pure, gets, modify, asks, perform, throw, when, write_state, set_state, join_of,
  current_item, the_current, run_git, try_git, each,
}
use vcs_lab.RebaseProgram.{MergeChange}

-- `changeId.startsWith("git:")`.
unfoldable pub is_fallback : Text → Bool
is_fallback change_id = take 4 change_id == codes "git:"

abbrev pub is_fork : Relation → Bool
is_fork contextual_fork = true
is_fork _ = false

abbrev pub is_merge_preserving : Mode → Bool
is_merge_preserving merge_preserving = true
is_merge_preserving linear = false

-- `anchorRoot` with the names of this build, and the ref of one commit.
unfoldable pub anchor_ref : Text → Text → Text → Text
anchor_ref root id commit = root ++ codes "/" ++ id ++ codes "/" ++ commit

-- Its change must have kept its identity, unless it is a fork or has none of its own.
unfoldable pub loses_identity : Relation → Text → Text → Bool
loses_identity relation origin actual =
    not (is_fork relation) && not (is_fallback origin) && not (actual == origin)

module _ {World : Type 0} (host : Host World) where
  unfoldable pub refuse_identity : Bool → M World (Unit {0})
  refuse_identity lost =
      when lost do set_state identity_mismatch; write_state; throw identity_not_preserved

  -- `applicationRecord`.
  unfoldable pub application_record : MergeChange → Relation → M World AppliedChange
  unfolding refuse_identity
  application_record change relation = do
    applied_commit ← asks host.head
    source_tree ← asks (host.tree_of change.commit)
    result_tree ← asks (host.tree_of applied_commit)
    actual ← asks (host.change_id_of applied_commit)
    refuse_identity (loses_identity relation change.change_id actual)
    id ← perform (host.new_id (codes "rebase_apply"))
    current ← the_current
    pure (record {
      id = id;
      origin_commit = change.commit;
      origin_change_id = change.change_id;
      applied_commit = applied_commit;
      applied_change_id = actual;
      target_before = current.target_before;
      target_before_tree = current.target_before_tree;
      source_tree = source_tree;
      result_tree = result_tree;
      relation = relation;
      conflicted_paths = current.conflicted_paths;
      resolutions = current.resolution_outcomes;
      semantic_merges = current.semantic_merges;
    })

  -- `anchorRewritten`.
  unfoldable pub anchor_rewritten : Text → Text → M World (Unit {0})
  unfolding run_git anchor_ref
  anchor_rewritten origin new_commit = do
    modify (λ o. record o { rewritten = insert o.rewritten origin new_commit })
    operation ← gets (λ o. o)
    root ← asks host.transient_root
    when (is_merge_preserving operation.plan.mode)
        (run_git host (update_ref (anchor_ref root operation.id origin) new_commit))

  -- `releaseAnchors`: failures are allowed.
  unfoldable pub release_anchor : Text → M World (Unit {0})
  unfolding anchor_ref
  release_anchor origin = do
    operation ← gets (λ o. o)
    root ← asks host.transient_root
    done ← try_git host (delete_ref (anchor_ref root operation.id origin))
    pure tt

  unfoldable pub release_anchors : M World (Unit {0})
  unfolding release_anchor each
  release_anchors = do
    operation ← gets (λ o. o)
    when (is_merge_preserving operation.plan.mode) (each release_anchor (keys operation.rewritten))

  -- The application with what an absorption added to it, and the record of the absorption.
  unfoldable pub with_absorption : Option Absorption → AppliedChange → AppliedChange
  with_absorption none a = a
  with_absorption (some absorption) a = record a {
    resolutions = a.resolutions ++ absorption.resolutions;
  }

  unfoldable pub absorption_records :
      Option Absorption → Text → AppliedChange → List AbsorptionRecord
  absorption_records none id a = []
  absorption_records (some absorption) id a =
      (record {
        id = id;
        action = absorption.action;
        surviving_commit = a.applied_commit;
        surviving_change_id = a.applied_change_id;
        absorbed_commits = map (λ i. i.commit) absorption.items;
        absorbed_changes = map (λ i. i.change_id) absorption.items;
      })
      ∷ []

  -- `newId("absorb")`, where there is an absorption.
  unfoldable pub absorption_id : Option Absorption → M World Text
  absorption_id none = pure []
  absorption_id (some absorption) = perform (host.new_id (codes "absorb"))

  -- The end of both: the journal goes on to the next step.
  unfoldable pub advance : M World (Unit {0})
  unfolding write_state
  advance = do
    modify (λ o. record o {
      next_index = suc o.next_index;
      executed_count = suc o.executed_count;
      current = none;
      state = running;
    })
    write_state

  -- `recordSuccessfulApplication`.
  unfoldable pub record_successful_application : Relation → M World (Unit {0})
  unfolding application_record absorption_id with_absorption absorption_records anchor_rewritten
      advance
  record_successful_application relation = do
    item ← current_item
    let change = change_of item
    application ← application_record change relation
    current ← the_current
    id ← absorption_id current.absorption
    modify (λ o. record o {
      applied = o.applied ++ with_absorption current.absorption application ∷ [];
      absorptions = o.absorptions ++ absorption_records current.absorption id application;
    })
    anchor_rewritten change.commit application.applied_commit
    advance

  -- `recordRecreatedMerge`.
  unfoldable pub record_recreated_merge : MergeChange → List MergeParent → Bool → M World (Unit {0})
  unfolding anchor_rewritten advance
  record_recreated_merge change parents clean_join = do
    result_commit ← asks host.head
    current ← the_current
    join ← join_of current
    modify (λ o. record o {
      recreated_merges =
          o.recreated_merges
          ++ (record {
            origin_commit = change.commit;
            origin_change_id = change.change_id;
            result_commit = result_commit;
            change_id = join.change_id;
            clean_join = clean_join;
            parents = parents;
            resolutions = current.resolution_outcomes;
            semantic_merges = current.semantic_merges;
            conflicted_paths = current.conflicted_paths;
          })
            ∷ [];
    })
    anchor_rewritten change.commit result_commit
    advance

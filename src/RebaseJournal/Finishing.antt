-- ===== src/RebaseJournal/Finishing.antt =====
-- `finalizeRebase` and `runRebaseQueue`: the receipt, the checks that it must pass first, and the order
-- in which the records are published.
use vcs_lab.Prelude.{
  Bool, true, false, not, ◌&&◌, ◌||◌, Option, none, some, List, [], ◌∷◌, map, if◌then◌else◌, length,
  Text, codes, ◌==◌, contains, add_all, filter,
}
use vcs_lab.Errors.{Result}
use vcs_lab.RebaseLists.{RebaseChange, CandidateItem, is_review}
use vcs_lab.RebaseJournal.{
  AppliedChange, RecreatedEntry, Amendment, AbsorptionRecord, ResolutionOutcome, ForecastApproval,
  Operation, Receipt,
}
use vcs_lab.RebaseJournal.Host.{Host}
use vcs_lab.RebaseJournal.Session.{
  M, ◌>>=◌, ◌>>◌, pure, gets, modify, asks, perform, call, when, write_state, clear_state, each,
  catch,
}
use vcs_lab.RebaseJournal.Recording.{is_fork, release_anchors}
use vcs_lab.RebaseJournal.Approval.{mark_mismatch}
use vcs_lab.RebaseJournal.Stepping.{finish_phase, leave, run_rounds}

-- A prediction, absent or empty where there is none, that the result does not meet.
unfoldable pub misses : Option Text → Text → Bool
misses none tree = false
misses (some []) tree = false
misses (some (c ∷ cs)) tree = not ((c ∷ cs) == tree)

abbrev pub predicted_tree : Option ForecastApproval → Option Text
predicted_tree none = none
predicted_tree (some approval) = approval.predicted_result_tree

abbrev pub predicted_overlay : Option ForecastApproval → Option Text
predicted_overlay none = none
predicted_overlay (some approval) = approval.predicted_overlay_tree

abbrev approved_id : Option ForecastApproval → Option Text
approved_id none = none
approved_id (some approval) = some approval.id

-- `forkedOrigins`.
unfoldable pub forked_origins : List AppliedChange → List Text
unfolding add_all
forked_origins applied =
    add_all [] (map (λ a. a.origin_commit) (filter (λ a. is_fork a.relation) applied))

-- `absorbed`: the changes that the receipt claims.
unfoldable pub absorbed_changes_of : Operation → List RebaseChange
unfolding forked_origins
absorbed_changes_of o =
    filter
      (λ c.
        not (contains (forked_origins o.applied) c.change.commit)
        && (not (is_review c.action) || o.accept_candidates))
      o.plan.changes

-- `candidatePolicy`, which startOperation decides from the plan and the option.
abbrev pub candidate_policy_of : List CandidateItem → Bool → Text
candidate_policy_of [] accept = codes "none"
candidate_policy_of (c ∷ cs) accept = if accept then codes "accepted" else codes "review-required"

unfoldable pub final_receipt : Operation → Text → Text → Text → Receipt
unfolding forked_origins absorbed_changes_of
final_receipt o id commit tree = record {
  id = id;
  operation_id = o.id;
  forecast_id = approved_id o.forecast_approval;
  source_ref = o.source_ref;
  source_head = o.source_head;
  onto_ref = o.onto_ref;
  onto_head = o.onto_head;
  physical_base = o.plan.physical_base;
  effective_base = o.plan.effective_base;
  quarantined_facts = o.plan.quarantined_facts;
  range = o.plan.range;
  excluded_by_range = o.plan.excluded;
  candidate_policy = candidate_policy_of o.plan.candidates o.accept_candidates;
  interactive = o.plan.interactive;
  accept_candidates = o.accept_candidates;
  omitted = o.plan.omitted;
  accepted_candidates = if o.accept_candidates then o.plan.candidates else [];
  applications = o.applied;
  recreated_merges = o.recreated_merges;
  amendments = o.amendments;
  absorptions = o.absorptions;
  forked_source_commits = forked_origins o.applied;
  absorbed_commits = map (λ c. c.change.commit) (absorbed_changes_of o);
  absorbed_changes = map (λ c. c.change.change_id) (absorbed_changes_of o);
  result_commit = commit;
  source_tree = o.plan.source_tree;
  onto_tree = o.plan.onto_tree;
  result_tree = tree;
  exact_state_equality_after = tree == o.plan.source_tree;
}

module _ {World : Type 0} (host : Host World) where
  -- The overlay as it merged with the result, or its conflict.
  unfoldable pub overlay_restored : Option Text → M World (Unit {0})
  unfolding mark_mismatch write_state misses
  overlay_restored none = mark_mismatch
  overlay_restored (some tree) = do
    modify (λ o. record o { overlay_rematerialized = true })
    write_state
    o ← gets (λ o. o)
    when (misses (predicted_overlay o.forecast_approval) tree) mark_mismatch

  -- `if (operation.targetOverlay)`.
  unfoldable pub restore_draft : Option Text → Text → Text → M World (Unit {0})
  unfolding overlay_restored
  restore_draft none base tree = pure tt
  restore_draft (some overlay) base tree = do
    restored ← call (host.materialize_overlay overlay base tree)
    overlay_restored restored

  unfoldable pub publish_application : AppliedChange → M World (Unit {0})
  unfolding each
  publish_application a = do
    each (λ (r : ResolutionOutcome). call (host.publish_resolution r a.id)) a.resolutions
    call (host.note_application a)

  unfoldable pub publish_join : RecreatedEntry → M World (Unit {0})
  unfolding each
  publish_join m =
      each (λ (r : ResolutionOutcome). call (host.publish_resolution r m.change_id)) m.resolutions

  -- Everything that the receipt names, and then the receipt.
  unfoldable pub publish : Receipt → M World (Unit {0})
  unfolding publish_application publish_join each
  publish r = do
    each publish_application r.applications
    call (host.carry_provenance r.applications)
    each publish_join r.recreated_merges
    each (λ (a : Amendment). call (host.note_amendment a)) r.amendments
    each (λ (a : AbsorptionRecord). call (host.note_absorption a)) r.absorptions
    call (host.note_receipt r.result_commit r)

  -- `finalizeRebase`.
  unfoldable pub finalize_rebase : M World Receipt
  unfolding mark_mismatch misses restore_draft final_receipt publish release_anchors clear_state
  finalize_rebase = do
    commit ← asks host.head
    tree ← asks (host.tree_of commit)
    before ← gets (λ o. o)
    when (misses (predicted_tree before.forecast_approval) tree) mark_mismatch
    restore_draft before.target_overlay before.plan.source_tree tree
    o ← gets (λ o. o)
    id ← perform (host.new_id (codes "rebase"))
    publish (final_receipt o id commit tree)
    release_anchors host
    clear_state
    pure (final_receipt o id commit tree)

  -- The end of the loop; the fuel never runs out.
  unfoldable pub finish_queue : Bool → M World (Option Receipt)
  unfolding finalize_rebase
  finish_queue false = pure none
  finish_queue true = do finish_phase; receipt ← finalize_rebase; pure (some receipt)

  abbrev begin_phase : M World (Unit {0})
  begin_phase s = (Result.ok tt, record s { recorded = false })

  -- `runRebaseQueue`.
  unfoldable pub run_rebase_queue : M World (Option Receipt)
  unfolding run_rounds finish_queue leave
  run_rebase_queue = do
    begin_phase
    o ← gets (λ o. o)
    catch (run_rounds host (length o.queue) >>= finish_queue) leave

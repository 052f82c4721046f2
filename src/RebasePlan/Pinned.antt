-- ===== src/RebasePlan/Pinned.antt =====
-- What the fingerprint of src/rebase-plan.js pins: two plans that agree on what it covers execute alike.
use vcs_lab.Prelude.{
  ◌≡◌, refl, sym, ◌∙◌, ap, arith, inl, inr, Option, List, [], ◌∷◌, map, Text, Dict, filter,
  Bool-cases, lookup,
}
use vcs_lab.Errors.{ok}
use vcs_lab.Interactive.{Action, is_surviving, InteractiveOptions, ResolvedAction, Program}
use vcs_lab.MergePlan.{Change, Status, Proof}
use mathlib.Core.Path.{subst}
use vcs_lab.Repository.{Repository}
use vcs_lab.Topology.{ParentSource, Step, Topology, topology_fingerprint_input}
use vcs_lab.RebasePlan.{RebasePlan, assemble, build_rebase_plan, fingerprint_input}
use vcs_lab.RebaseLists.{
  change_subjects, RebaseChange, QueueItem, OmittedItem, CandidateItem, RecreatedMerge,
  replay_queue_of, omitted_of, candidates_of, is_omit, is_review, recreated_merge,
  recreated_merges_of,
}
use vcs_lab.RebaseRange.{Range, CausalPlan}
use vcs_lab.RebasePlan.Built.{build_rebase_plan-IsBuilt}

-- A change as the fingerprint covers it.
abbrev Key : Type 0
Key = Text × Text × Status × Option Proof × Action

abbrev key : RebaseChange → Key
key c = (c.change.commit, c.change.change_id, c.change.status, c.change.proof, c.action)

abbrev key_action : Key → Action
key_action k = k.4

-- The lists of a plan, from the keys of its changes.
abbrev queued : List Key → List (Text × Text × Action)
queued keys = map (λ k. (k.0, k.1, k.4)) (filter (λ k. is_surviving k.4) keys)

abbrev omissions : List Key → List OmittedItem
omissions keys =
    map (λ k. record { commit = k.0; change_id = k.1; proof = k.3 })
      (filter (λ k. is_omit k.4) keys)

abbrev reviews : List Key → List (Text × Text × Option Proof)
reviews keys = map (λ k. (k.0, k.1, k.3)) (filter (λ k. is_review k.4) keys)

abbrev pub queue_keys : List QueueItem → List (Text × Text × Action)
queue_keys items = map (λ i. (i.commit, i.change_id, i.action)) items

abbrev pub candidate_keys : List CandidateItem → List (Text × Text × Option Proof)
candidate_keys items = map (λ i. (i.commit, i.change_id, i.proof)) items

abbrev pub merge_keys : List RecreatedMerge → List (Text × List (ParentSource × Option Text))
merge_keys merges = map (λ m. (m.commit, map (λ p. (p.source, p.origin)) m.parents)) merges

queued_lem :
    (changes : List RebaseChange) → queue_keys (replay_queue_of changes) ≡ queued (map key changes)
unfolding replay_queue_of
queued_lem [] = refl
queued_lem (c ∷ cs) = elim (Bool-cases (is_surviving c.action)) [
  | inl kept ↦ rw kept (ap (◌∷◌ (c.change.commit, c.change.change_id, c.action)) (queued_lem cs))
  | inr dropped ↦ rw dropped (queued_lem cs)
]

omissions_lem : (changes : List RebaseChange) → omitted_of changes ≡ omissions (map key changes)
unfolding omitted_of
omissions_lem [] = refl
omissions_lem (c ∷ cs) = elim (Bool-cases (is_omit c.action)) [
  | inl kept ↦ rw kept (
      ap
        (◌∷◌ (record {
          commit = c.change.commit;
          change_id = c.change.change_id;
          proof = c.change.proof;
        }))
        (omissions_lem cs))
  | inr dropped ↦ rw dropped (omissions_lem cs)
]

reviews_lem :
    (changes : List RebaseChange)
    → candidate_keys (candidates_of changes) ≡ reviews (map key changes)
unfolding candidates_of
reviews_lem [] = refl
reviews_lem (c ∷ cs) = elim (Bool-cases (is_review c.action)) [
  | inl kept ↦
      rw kept (ap (◌∷◌ (c.change.commit, c.change.change_id, c.change.proof)) (reviews_lem cs))
  | inr dropped ↦ rw dropped (reviews_lem cs)
]

recreated_merge_lem :
    (o : Option Change) (s : Step)
    → ((recreated_merge o s).commit ≡ s.commit) × ((recreated_merge o s).parents ≡ s.parents)
unfolding recreated_merge
recreated_merge_lem o s = (ground arith, ground arith)

merge_keys_lem :
    (subjects : Dict Change) (steps : List Step)
    → merge_keys (recreated_merges_of subjects steps) ≡ topology_fingerprint_input steps
unfolding recreated_merges_of topology_fingerprint_input
merge_keys_lem subjects [] = refl
merge_keys_lem subjects (s ∷ ss) =
    ground (arith, merge_keys_lem subjects ss, recreated_merge_lem (lookup subjects s.commit) s)

-- What of a plan the rewrite carries out: the ends and the base of the range, the queue, the program,
-- the omissions, the candidates and the merges to recreate.
abbrev pub IsSameRun : RebasePlan → RebasePlan → Type 0
IsSameRun p q =
    (p.onto_head ≡ q.onto_head)
    × (p.source_head ≡ q.source_head)
    × (p.range_base ≡ q.range_base)
    × (queue_keys p.replay_queue ≡ queue_keys q.replay_queue)
    × (p.omitted ≡ q.omitted)
    × (candidate_keys p.candidates ≡ candidate_keys q.candidates)
    × (p.interactive ≡ q.interactive)
    × (merge_keys p.recreated_merges ≡ merge_keys q.recreated_merges)

-- The lists of a plan follow from what its fingerprint covers.
abbrev IsKeyed : RebasePlan → Type 0
IsKeyed p =
    (queue_keys p.replay_queue ≡ queued (map key p.changes))
    × (p.omitted ≡ omissions (map key p.changes))
    × (candidate_keys p.candidates ≡ reviews (map key p.changes))
    × (merge_keys p.recreated_merges ≡ topology_fingerprint_input p.topology.steps)

assemble-IsKeyed :
    (repository : Repository) (range : Range) (causal : CausalPlan) (topology : Topology)
    (program : Program) (changes : List RebaseChange)
    → IsKeyed (assemble repository range causal topology program changes)
unfolding assemble
assemble-IsKeyed repository range causal topology program changes = (
  queued_lem changes,
  omissions_lem changes,
  reviews_lem changes,
  merge_keys_lem (change_subjects [] causal.plan.changes) topology.steps,
)

build_rebase_plan-IsKeyed :
    (repository : Repository) (onto : Text) (requested from : Option Text)
    (options : InteractiveOptions) (plan : RebasePlan)
    → build_rebase_plan repository onto requested from options ≡ ok plan
    → IsKeyed plan
build_rebase_plan-IsKeyed repository onto requested from options plan built =
    let (range, causal, program, e1, e2, (d, e3)) =
      build_rebase_plan-IsBuilt repository onto requested from options plan built in
    subst IsKeyed (sym e3) (assemble-IsKeyed repository range causal _ program _)

abbrev action_key : ResolvedAction → Action × Text × Option Text
action_key a = (a.action, a.commit, a.target)

abbrev of_key : Action × Text × Option Text → ResolvedAction
of_key k = record { action = k.0; commit = k.1; target = k.2 }

of_key_lem : (xs : List ResolvedAction) → map of_key (map action_key xs) ≡ xs
of_key_lem [] = refl
of_key_lem (x ∷ xs) = ap (◌∷◌ x) (of_key_lem xs)

-- Two plans, of any two requests and repositories, whose fingerprints cover the same run alike: the same
-- ends and base of the range, the same queue of commits with their identities and actions, the same
-- declared program, omissions and candidates, and the same merges with their parents.
pub fingerprint-IsSameRun :
    (repository other : Repository) (onto onto_other : Text)
    (requested requested_other from from_other : Option Text)
    (options options_other : InteractiveOptions) (p q : RebasePlan)
    → build_rebase_plan repository onto requested from options ≡ ok p
    → build_rebase_plan other onto_other requested_other from_other options_other ≡ ok q
    → fingerprint_input p ≡ fingerprint_input q
    → IsSameRun p q
unfolding fingerprint_input
fingerprint-IsSameRun repository other onto onto_other requested requested_other from from_other
      options options_other p q bp bq e =
    let kp = build_rebase_plan-IsKeyed repository onto requested from options p bp in
    let kq =
      build_rebase_plan-IsKeyed other onto_other requested_other from_other options_other q bq in
    let same = ap (λ f. f.changes) e in
    (
      ap (λ f. f.heads.0) e,
      ap (λ f. f.heads.1) e,
      ap (λ f. f.heads.2) e,
      kp.0 ∙ ap queued same ∙ sym kq.0,
      kp.1 ∙ ap omissions same ∙ sym kq.1,
      kp.2 ∙ ap reviews same ∙ sym kq.2,
      sym (of_key_lem p.interactive)
          ∙ ap (λ f. map of_key f.interactive) e
          ∙ of_key_lem q.interactive,
      kp.3 ∙ ap (λ f. f.topology) e ∙ sym kq.3,
    )

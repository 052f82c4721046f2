-- ===== src/SpecPlan/Correct.antt =====
-- Proofs about the plan of src/specs.js for a document.
use vcs_lab.Prelude.{
  ◌≡◌, refl, ap, inl, inr, true, false, ◌||◌, Option, none, some, List, [], ◌∷◌, ◌++◌, map, arith,
  if◌then◌else◌, Text, ◌==◌, ==_iff, contains, contains-append, contains-to_set, IsNodup,
  Bool-cases, Dict, lookup, lookup-insert, keys, contains-keys, has, is_some,
}
use vcs_lab.SpecMerge.{Block, Stage, Outcome, conflict, Decision, content_decision}
use vcs_lab.SpecOrder.{Ordering, OrderConflict, OrderDecision, merge_order}
use vcs_lab.SpecMerge.Decide.{content_of, merge3, is_conflict, content_decision-merge3}
use vcs_lab.SpecOrder.Exact.{merge_order_exact}
use vcs_lab.SpecPlan.{
  PlanConflict, order_issue, evaluated, choose, choose_block, outcome_conflicts, block_conflicts,
  is_nil, base_by_id, ours_by_id, theirs_by_id, all_ids, decision_on, plan_document, plan_artifacts,
  plan_spec_merge,
}

abbrev pub or_old : Option Block → Option Block → Option Block
or_old none old = old
or_old (some b) old = some b

lookup-choose_block :
    (m : Dict Block) (x : Text) (o : Option Block) (id : Text)
    → lookup (choose_block m x o) id ≡ (if x == id then or_old o (lookup m id) else lookup m id)
unfolding choose_block
lookup-choose_block m x none id = ground arith
lookup-choose_block m x (some b) id = lookup-insert m x id b

-- The block that a list of decisions leaves in the map for `id`.
pub lookup-choose :
    (f : Text → Decision) (m : Dict Block) (ids : List Text) (id : Text)
    → ((a : Text) → (f a).id ≡ a)
    → lookup (choose m (map f ids)) id
      ≡ (if contains ids id then or_old (f id).block (lookup m id) else lookup m id)
unfolding choose contains
lookup-choose f m [] id h = refl
lookup-choose f m (x ∷ xs) id h =
    let next = choose_block m (f x).id (f x).block in
    elim (Bool-cases (x == id)) [
      | inl here ↦
          let e = (==_iff x id).0 here in
          ground (
            arith,
            lookup-choose f next xs id h,
            lookup-choose_block m (f x).id (f x).block id,
            h x,
            ap (λ (a : Text). (f a).block) e,
          )
      | inr elsewhere ↦
          ground (
            arith,
            lookup-choose f next xs id h,
            lookup-choose_block m (f x).id (f x).block id,
            h x,
          )
    ]

pub append-eq-nil {ℓ} : {A : Type ℓ} (xs ys : List A) → xs ++ ys ≡ [] → (xs ≡ []) × (ys ≡ [])
append-eq-nil [] ys h = (refl, h)
append-eq-nil (x ∷ xs) ys h = absurd (cc h)

outcome_settles : (id : Text) (o : Outcome) → outcome_conflicts id o ≡ [] → is_conflict o ≡ false
unfolding outcome_conflicts
outcome_settles id (conflict c) h = absurd (cc h)
outcome_settles id _ h = refl

no_conflict :
    (f : Text → Decision) (ids : List Text) (id : Text)
    → block_conflicts (map f ids) ≡ []
    → contains ids id ≡ true
    → is_conflict (f id).outcome ≡ false
unfolding block_conflicts contains
no_conflict f [] id h c = absurd (cc c)
no_conflict f (x ∷ xs) id h c =
    let (first, rest) =
      append-eq-nil (outcome_conflicts (f x).id (f x).outcome) (block_conflicts (map f xs)) h in
    elim (Bool-cases (x == id)) [
      | inl here ↦ rw (← (==_iff x id).0 here) (outcome_settles (f x).id (f x).outcome first)
      | inr elsewhere ↦ no_conflict f xs id rest (ground arith)
    ]

pub map-order_issue-nil : (cs : List OrderConflict) → map order_issue cs ≡ [] → cs ≡ []
map-order_issue-nil [] h = refl
map-order_issue-nil (c ∷ cs) h = absurd (cc h)

module _ (base ours theirs : Stage) where
  abbrev pub decision : Text → Decision
  decision = decision_on base ours theirs

  -- The three-way merge of the content of one block of the document.
  abbrev pub merged_content : Text → Option (Option Text)
  merged_content id =
      merge3 (content_of (lookup (base_by_id base ours theirs) id))
        (content_of (lookup (ours_by_id base ours theirs) id))
        (content_of (lookup (theirs_by_id base ours theirs) id))

  contains-all_ids :
      (id : Text)
      → contains (all_ids base ours theirs) id ≡ (
          has (base_by_id base ours theirs) id
          || (has (ours_by_id base ours theirs) id || has (theirs_by_id base ours theirs) id))
  contains-all_ids id = simp (contains-to_set, contains-append, contains-keys)

  abbrev pub decisions : List Decision
  decisions = map decision (all_ids base ours theirs)

  -- Without a block conflict each content is settled, and the map of chosen blocks holds it.
  pub chosen_content :
      (id : Text)
      → block_conflicts decisions ≡ []
      → merged_content id ≡ some (content_of (lookup (choose [] decisions) id))
  unfolding lookup
  chosen_content id h =
      let known = contains (all_ids base ours theirs) id in
      let chosen =
        lookup-choose decision [] (all_ids base ours theirs) id
          (λ a. unfold content_decision in refl) in
      elim (Bool-cases known) [
        | inl inside ↦ ground (
          arith,
          chosen,
          no_conflict decision (all_ids base ours theirs) id h inside,
          content_decision-merge3 id (lookup (base_by_id base ours theirs) id)
              (lookup (ours_by_id base ours theirs) id) (lookup (theirs_by_id base ours theirs) id),
        )
        | inr outside ↦ ground (arith, chosen, contains-all_ids id)
      ]

  abbrev pub chosen_blocks : Dict Block
  chosen_blocks = choose [] decisions

  abbrev pub document_order : Ordering
  document_order = merge_order base.blocks ours.blocks theirs.blocks (keys chosen_blocks)

  -- What a clean plan means: its order lists once each the blocks that the three-way merge keeps,
  -- and no block's merge is a conflict.
  abbrev pub IsMergedDocument : List Text → Type 0
  IsMergedDocument order =
      IsNodup order
      × ((id : Text)
          → (c : Option Text) × (merged_content id ≡ some c) × (contains order id ≡ is_some c))

  pub document_order_correct :
      block_conflicts decisions ≡ []
      → document_order.conflicts ≡ []
      → IsMergedDocument document_order.order
  document_order_correct h k =
      let exact = merge_order_exact base.blocks ours.blocks theirs.blocks (keys chosen_blocks) k in
      (
        exact.0,
        λ id. (
          content_of (lookup chosen_blocks id),
          chosen_content id h,
          ground (arith, exact.1 id, contains-keys chosen_blocks id),
        ),
      )

  pub eq-nil_of_is_nil : (cs : List PlanConflict) → is_nil cs ≡ true → cs ≡ []
  eq-nil_of_is_nil [] h = refl
  eq-nil_of_is_nil (c ∷ cs) h = absurd (cc h)

  document_correct :
      (artifact : Text)
      → (plan_document base ours theirs artifact).clean ≡ true
      → (order : List Text) × (d : OrderDecision) × ((plan_document base ours theirs
            artifact).ordering
          ≡ evaluated d order)
        × IsMergedDocument order
  unfolding plan_document
  document_correct artifact h =
      let (blocks, issues) =
        append-eq-nil (block_conflicts decisions) (map order_issue document_order.conflicts)
          (eq-nil_of_is_nil _ h) in
      (
        document_order.order,
        document_order.decision,
        refl,
        document_order_correct blocks (map-order_issue-nil document_order.conflicts issues),
      )

  artifacts_correct :
      (artifacts : List Text)
      → (plan_artifacts base ours theirs artifacts).clean ≡ true
      → (order : List Text) × (d : OrderDecision) × ((plan_artifacts base ours theirs
            artifacts).ordering
          ≡ evaluated d order)
        × IsMergedDocument order
  unfolding plan_artifacts
  artifacts_correct [] h = absurd (cc h)
  artifacts_correct (artifact ∷ []) h = document_correct artifact h
  artifacts_correct (a ∷ b ∷ rest) h = absurd (cc h)

  -- A clean plan for a document merges every block: for each identifier the three-way merge of the
  -- three contents is no conflict, and the plan's order lists the identifier, once, exactly when
  -- that merge keeps a content.
  pub clean_plan_merges :
      (plan_spec_merge base ours theirs).clean ≡ true
      → (order : List Text) × (d : OrderDecision) × ((plan_spec_merge base ours theirs).ordering
          ≡ evaluated d order)
        × IsMergedDocument order
  unfolding plan_spec_merge
  clean_plan_merges h = artifacts_correct _ h

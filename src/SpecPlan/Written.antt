-- ===== src/SpecPlan/Written.antt =====
-- Proofs about the Markdown of a clean plan of src/specs.js: which blocks are written, in which order.
use vcs_lab.Prelude.{
  ◌≡◌, ◌∙◌, if◌then◌else◌, refl, sym, ap, ◌⊎◌, inl, inr, Bool, true, false, not, ◌||◌, ◌++◌, Option,
  some, List, [], ◌∷◌, arith, Text, ==_iff, contains, Option-cases, Dict, lookup, insert,
  lookup-insert, is_some, All,
}
use vcs_lab.SpecMerge.{Block, Stage, decide, content_decision}
use vcs_lab.SpecOrder.{ids_of, OrderDecision}
use vcs_lab.SpecMerge.Decide.{content_of}
use vcs_lab.SpecPlan.{
  evaluated, SpecPlan, by_id, ordered_blocks, MergeResult, deleted, written, join_blocks,
  render_result, base_by_id, ours_by_id, theirs_by_id, all_ids, decision_on, plan_document,
  plan_artifacts, plan_spec_merge,
}
use vcs_lab.Trailers.{trim_end}
use vcs_lab.SpecPlan.Correct.{
  lookup-choose, or_old, append-eq-nil, merged_content, chosen_blocks, document_order,
  map-order_issue-nil, eq-nil_of_is_nil, document_order_correct, chosen_content,
}

-- A map holds each block under its own identifier.
abbrev IsKeyed : Dict Block → Type 0
IsKeyed m = (id : Text) (b : Block) → lookup m id ≡ some b → b.id ≡ id

IsKeyed-by_id : (m : Dict Block) (bs : List Block) → IsKeyed m → IsKeyed (by_id m bs)
unfolding by_id
IsKeyed-by_id m [] h = h
IsKeyed-by_id m (b ∷ bs) h =
    IsKeyed-by_id (insert m b.id b) bs
      (λ id c e. ground (arith, lookup-insert m b.id id b, h id c, ==_iff b.id id))

IsKeyed-nil : IsKeyed []
unfolding lookup
IsKeyed-nil id b e = absurd (cc e)

-- A decision chooses a block of one of the two sides.
decide-of_side :
    (base ours theirs : Option Block) (b : Block)
    → (decide base ours theirs).1 ≡ some b
    → (ours ≡ some b) ⊎ (theirs ≡ some b)
unfolding decide
decide-of_side (some x) (some o) (some t) b e = ground arith
decide-of_side base ours theirs b e = ground arith

module _ (base ours theirs : Stage) where
  abbrev decided : Text → Option Block
  decided id = (decision_on base ours theirs id).block

  -- What the map of chosen blocks holds was decided.
  chosen_decided :
      (id : Text) (b : Block)
      → lookup (chosen_blocks base ours theirs) id ≡ (
          if contains (all_ids base ours theirs) id
          then or_old (decided id) (lookup [] id)
          else lookup [] id)
      → lookup (chosen_blocks base ours theirs) id ≡ some b
      → decided id ≡ some b
  unfolding lookup
  chosen_decided id b h e = ground arith

  -- The block that one of the two sides has under its identifier.
  abbrev pub OfSide : Block → Type 0
  OfSide b =
      (lookup (ours_by_id base ours theirs) b.id ≡ some b)
      ⊎ (lookup (theirs_by_id base ours theirs) b.id ≡ some b)

  decided_lem : (id : Text) (b : Block) → decided id ≡ some b → (b.id ≡ id) × OfSide b
  unfolding content_decision
  decided_lem id b e =
      elim (decide-of_side (lookup (base_by_id base ours theirs) id)
        (lookup (ours_by_id base ours theirs) id) (lookup (theirs_by_id base ours theirs) id) b e) [
          | inl o ↦
              let same = IsKeyed-by_id [] ours.blocks IsKeyed-nil id b o in
              (same, inl (ap (lookup (ours_by_id base ours theirs)) same ∙ o))
          | inr t ↦
              let same = IsKeyed-by_id [] theirs.blocks IsKeyed-nil id b t in
              (same, inr (ap (lookup (theirs_by_id base ours theirs)) same ∙ t))
        ]

  chosen_lem :
      (id : Text) (b : Block)
      → lookup (chosen_blocks base ours theirs) id ≡ some b
      → (b.id ≡ id) × OfSide b
  chosen_lem id b e = decided_lem id b (
      chosen_decided id b
        (lookup-choose (decision_on base ours theirs) [] (all_ids base ours theirs) id
          (λ a. unfold content_decision in refl))
        e)

  IsKeyed-chosen : IsKeyed (chosen_blocks base ours theirs)
  IsKeyed-chosen id b e = (chosen_lem id b e).0

-- With a block for every identifier the blocks come back in the order asked for.
ids-ordered_blocks :
    (m : Dict Block) (ids : List Text)
    → IsKeyed m
    → ((a : Text) → contains ids a ≡ true → is_some (lookup m a) ≡ true)
    → ids_of (ordered_blocks m ids) ≡ ids
unfolding ordered_blocks contains
ids-ordered_blocks m [] k h = refl
ids-ordered_blocks m (id ∷ ids) k h = elim (Option-cases (lookup m id)) [
  | inl none_here ↦ ground (arith, h id, ==_iff id id)
  | inr (b, e) ↦ ground (arith, e, k id b e, ids-ordered_blocks m ids k (λ a c. h a (ground arith)))
]

-- The paragraphs of a document: the content of each block with no white space at its end, and a blank
-- line between two of them.
pub data Paragraphs : List Block → Text → Type 0 where
  one : (b : Block) → Paragraphs (b ∷ []) (trim_end b.content)
  more :
      (b c : Block) {bs : List Block} {rest : Text}
      → Paragraphs (c ∷ bs) rest
      → Paragraphs (b ∷ c ∷ bs) (trim_end b.content ++ (10 ∷ 10 ∷ rest))

-- What is left of a document: with no block a deletion where a side had deleted it and an empty line
-- otherwise, else the blocks and their paragraphs, with one line end.
pub data Rendered : Bool → List Block → MergeResult → Type 0 where
  removed : Rendered true [] deleted
  emptied : Rendered false [] (written [] (10 ∷ []))
  paragraphs :
      (absent : Bool) (b : Block) {bs : List Block} {body : Text}
      → Paragraphs (b ∷ bs) body
      → Rendered absent (b ∷ bs) (written (b ∷ bs) (trim_end body ++ 10 ∷ []))

join_blocks-Paragraphs : (b : Block) (bs : List Block) → Paragraphs (b ∷ bs) (join_blocks (b ∷ bs))
unfolding join_blocks
join_blocks-Paragraphs b [] = one b
join_blocks-Paragraphs b (c ∷ bs) = more b c (join_blocks-Paragraphs c bs)

render_result-Rendered :
    (absent : Bool) (blocks : List Block) → Rendered absent blocks (render_result absent blocks)
unfolding render_result
render_result-Rendered true [] = removed
render_result-Rendered false [] = emptied
render_result-Rendered absent (b ∷ bs) = paragraphs absent b (join_blocks-Paragraphs b bs)

module _ (base ours theirs : Stage) where
  -- A block of one of the sides, with the content that the merge gives its identifier.
  abbrev pub IsMergedBlock : Block → Type 0
  IsMergedBlock b =
      (merged_content base ours theirs b.id ≡ some (some b.content_hash))
      × OfSide base ours theirs b

  merged-ordered_blocks :
      (ids : List Text)
      → ((id : Text)
          → merged_content base ours theirs id
            ≡ some (content_of (lookup (chosen_blocks base ours theirs) id)))
      → All IsMergedBlock (ordered_blocks (chosen_blocks base ours theirs) ids)
  unfolding ordered_blocks
  merged-ordered_blocks [] h = tt
  merged-ordered_blocks (id ∷ ids) h =
      elim (Option-cases (lookup (chosen_blocks base ours theirs) id)) [
        | inl absent ↦ rw (absent, ordered_blocks) (merged-ordered_blocks ids h)
        | inr (b, e) ↦
            rw (e, ordered_blocks)
              (
                (
                  ground (arith, IsKeyed-chosen base ours theirs id b e, h id),
                  (chosen_lem base ours theirs id b e).1,
                ),
                merged-ordered_blocks ids h,
              )
      ]

  -- What is written: the paragraphs of the merged blocks, in the order of the plan.
  abbrev pub Writes : SpecPlan → Type 0
  Writes p =
      (blocks : List Block) × (d : OrderDecision) × (result : MergeResult) × (p.result
        ≡ some result)
      × Rendered (not ours.exists || not theirs.exists) blocks result
      × (p.ordering ≡ evaluated d (ids_of blocks))
      × All IsMergedBlock blocks

  document-Writes :
      (artifact : Text)
      → (plan_document base ours theirs artifact).clean ≡ true
      → Writes (plan_document base ours theirs artifact)
  unfolding plan_document
  document-Writes artifact h =
      let chosen = chosen_blocks base ours theirs in
      let ordering = document_order base ours theirs in
      let (blocks, issues) = append-eq-nil _ _ (eq-nil_of_is_nil base ours theirs _ h) in
      let correct =
        document_order_correct base ours theirs blocks
          (map-order_issue-nil ordering.conflicts issues) in
      let ids : ids_of (ordered_blocks chosen ordering.order) ≡ ordering.order =
        ids-ordered_blocks chosen ordering.order (IsKeyed-chosen base ours theirs) (λ a c.
          ground
            (arith, (correct.1 a).1, (correct.1 a).2, chosen_content base ours theirs a blocks)) in
      (
        ordered_blocks chosen ordering.order,
        ordering.decision,
        render_result (not ours.exists || not theirs.exists) (ordered_blocks chosen ordering.order),
        rw h,
        render_result-Rendered (not ours.exists || not theirs.exists)
            (ordered_blocks chosen ordering.order),
        ap (evaluated ordering.decision) (sym ids),
        merged-ordered_blocks ordering.order (λ id. chosen_content base ours theirs id blocks),
      )

  artifacts_write :
      (artifacts : List Text)
      → (plan_artifacts base ours theirs artifacts).clean ≡ true
      → Writes (plan_artifacts base ours theirs artifacts)
  unfolding plan_artifacts
  artifacts_write [] h = absurd (cc h)
  artifacts_write (artifact ∷ []) h = document-Writes artifact h
  artifacts_write (a ∷ b ∷ rest) h = absurd (cc h)

  -- A clean plan has a result, made of blocks in the plan's order, each of them the block that one of
  -- the two sides has under its identifier, with the content that the three-way merge gives that
  -- identifier. The Markdown is the contents of these blocks without white space at their ends, a
  -- blank line between them and one line end; with no block left the document is deleted where a side
  -- had deleted it, and one empty line otherwise.
  pub clean_plan-Writes :
      (plan_spec_merge base ours theirs).clean ≡ true → Writes (plan_spec_merge base ours theirs)
  unfolding plan_spec_merge
  clean_plan-Writes h = artifacts_write _ h

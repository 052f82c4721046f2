-- ===== src/SpecOrder/Skeleton.antt =====
-- Proofs about `mergeOrder` of src/specs.js: the surviving base blocks keep the order of the side that
-- the decision names, whatever was added between them.
use vcs_lab.Prelude.{
  ◌≡◌, refl, sym, ◌∙◌, ap, ◌↔◌, ◌⊎◌, inl, inr, true, false, not, ◌&&◌, some, List, [], ◌∷◌, ◌++◌,
  arith, Text, ==_iff, contains, contains-concat, contains-append, contains-filter, IsNodup,
  IsNodup-filter, Bool-cases, filter-append, Dict, lookup, insert, lookup-insert,
}
use mathlib.Core.List.{append-nil, append_assoc}
use vcs_lab.SpecMerge.{Block}
use vcs_lab.SpecOrder.{
  ids_of, same_array, choose_skeleton, order_added, OrderDecision, items_at, append_items,
  append_group, push_new, place_skeleton, push_all, build_order, within, merge_order, start_anchor,
}
use vcs_lab.SpecOrder.Exact.{
  IsSubset, contains-append_items, choice, base_ids, skeleton_of_side, order_from-build_order,
}

-- No block of a group is a skeleton block.
abbrev IsFresh : List Text → Dict (List Text) → Type 0
IsFresh skeleton groups =
    (anchor a : Text) → contains (items_at groups anchor) a ≡ true → contains skeleton a ≡ false

IsFresh-order_added :
    (skeleton : List Text) (anchor : Text) (groups : Dict (List Text)) (blocks : List Block)
    → IsFresh skeleton groups
    → IsFresh skeleton (order_added skeleton anchor groups blocks)
unfolding order_added
IsFresh-order_added skeleton anchor groups [] h = h
IsFresh-order_added skeleton anchor groups (b ∷ bs) h = elim (Bool-cases (contains skeleton b.id)) [
  | inl known ↦ rw known (IsFresh-order_added skeleton b.id groups bs h)
  | inr new ↦
      let items = items_at groups anchor ++ b.id ∷ [] in
      rw new (
        IsFresh-order_added skeleton anchor (insert groups anchor items) bs (λ j a c. ground (
          arith,
          lookup-insert groups anchor j items,
          contains-concat (items_at groups anchor) b.id a,
          h anchor a,
          h j a,
          ==_iff b.id a,
          ==_iff anchor j,
        )))
]

module _ (skeleton chosen_ids : List Text) where
  within-append_items :
      (output ids : List Text)
      → ((a : Text) → contains ids a ≡ true → contains skeleton a ≡ false)
      → within skeleton (append_items chosen_ids output ids) ≡ within skeleton output
  unfolding append_items contains
  within-append_items output [] h = refl
  within-append_items output (id ∷ ids) h =
      elim (Bool-cases (contains chosen_ids id && not (contains output id))) [
        | inl new ↦ rw new (
            within-append_items (output ++ id ∷ []) ids (λ a c. h a (ground arith))
            ∙ filter-append (contains skeleton) output (id ∷ [])
            ∙ ground (arith, h id, ==_iff id id, append-nil (within skeleton output)))
        | inr old ↦ rw old (within-append_items output ids (λ a c. h a (ground arith)))
      ]

  within-push_all :
      (output ids : List Text)
      → IsSubset skeleton output
      → within skeleton (push_all output ids) ≡ within skeleton output
  unfolding push_all push_new
  within-push_all output [] h = refl
  within-push_all output (id ∷ ids) h = elim (Bool-cases (contains output id)) [
    | inl old ↦ rw old (within-push_all output ids h)
    | inr new ↦ rw new (
        within-push_all (output ++ id ∷ []) ids
          (λ a c. ground (arith, contains-concat output id a, h a c))
        ∙ filter-append (contains skeleton) output (id ∷ [])
        ∙ ground (arith, h id, append-nil (within skeleton output)))
  ]

module _ (skeleton chosen_ids : List Text) (ours_added theirs_added : Dict (List Text))
    (ours_fresh : IsFresh skeleton ours_added) (theirs_fresh : IsFresh skeleton theirs_added) where
  abbrev group : Text → List Text
  group anchor = items_at ours_added anchor ++ items_at theirs_added anchor

  group-fresh : (anchor a : Text) → contains (group anchor) a ≡ true → contains skeleton a ≡ false
  group-fresh anchor a c = ground (
    arith,
    contains-append (items_at ours_added anchor) (items_at theirs_added anchor) a,
    ours_fresh anchor a,
    theirs_fresh anchor a,
  )

  -- No identifier of `ids` has been placed yet.
  abbrev Unplaced : List Text → List Text → Type 0
  Unplaced output ids = (a : Text) → contains ids a ≡ true → contains output a ≡ false

  within-place_skeleton :
      (output ids : List Text)
      → IsNodup ids
      → IsSubset ids skeleton
      → Unplaced output ids
      → within skeleton (place_skeleton chosen_ids ours_added theirs_added output ids)
        ≡ within skeleton output ++ ids
  unfolding place_skeleton append_group push_new contains
  within-place_skeleton output [] n sub new = sym (append-nil (within skeleton output))
  within-place_skeleton output (id ∷ ids) n sub new =
      let here : contains (id ∷ ids) id ≡ true = ground (arith, ==_iff id id) in
      let unplaced = new id here in
      let pushed = output ++ id ∷ [] in
      let next = append_items chosen_ids pushed (group id) in
      rw unplaced (
        within-place_skeleton next ids n.1 (λ a c. sub a (ground arith))
          (λ a c. ground (
            arith,
            contains-append_items chosen_ids pushed (group id) a,
            contains-concat output id a,
            group-fresh id a,
            sub a,
            new a,
            ==_iff id a,
            n.0,
          ))
        ∙ ap (λ (l : List Text). l ++ ids)
            (within-append_items skeleton chosen_ids pushed (group id) (group-fresh id)
              ∙ filter-append (contains skeleton) output (id ∷ [])
              ∙ ap (◌++◌ (within skeleton output)) (rw (sub id here)))
        ∙ append_assoc (within skeleton output) (id ∷ []) ids)

  within-build_order :
      IsNodup skeleton
      → within skeleton (build_order chosen_ids ours_added theirs_added skeleton) ≡ skeleton
  unfolding build_order append_group contains
  within-build_order n =
      let first = append_items chosen_ids [] (group start_anchor) in
      let placed = place_skeleton chosen_ids ours_added theirs_added first skeleton in
      let kept : within skeleton placed ≡ skeleton =
        within-place_skeleton first skeleton n (λ a c. c)
          (λ a c. ground (
            arith,
            contains-append_items chosen_ids [] (group start_anchor) a,
            group-fresh start_anchor a,
          ))
        ∙ ap (λ (l : List Text). l ++ skeleton)
            (within-append_items skeleton chosen_ids [] (group start_anchor)
              (group-fresh start_anchor)) in
      within-push_all skeleton chosen_ids placed chosen_ids
        (λ a c. ground (arith, contains-filter (contains skeleton) placed a, kept))
      ∙ kept

same_array_iff : (a b : List Text) → (same_array a b ≡ true) ↔ (a ≡ b)
unfolding same_array
same_array_iff (x ∷ a) (y ∷ b) = ground (arith, same_array_iff a b, ==_iff x y)
same_array_iff _ _ = ground arith

-- The three-way merge of three orders of the same blocks: both sides have it, or one side has it and
-- the other kept the base's.
abbrev pub IsMergedOrder : List Text → List Text → List Text → List Text → Type 0
IsMergedOrder base ours theirs merged =
    (merged ≡ ours) × ((ours ≡ theirs) ⊎ (theirs ≡ base)) ⊎ (merged ≡ theirs) × (ours ≡ base)

choose_skeleton-IsMergedOrder :
    (base ours theirs : List Text) (skeleton : List Text) (d : OrderDecision)
    → choose_skeleton base ours theirs ≡ some (skeleton, d)
    → IsMergedOrder base ours theirs skeleton
unfolding choose_skeleton
choose_skeleton-IsMergedOrder base ours theirs skeleton d e = ground (
  arith,
  same_array_iff ours theirs,
  same_array_iff ours base,
  same_array_iff theirs base,
  skeleton_of_side base ours theirs skeleton d e,
)

module _ (base ours theirs : List Block) (chosen_ids : List Text) where
  abbrev pub survivors : List Block → List Text
  survivors side = within (base_ids base ours theirs chosen_ids) (ids_of side)

  -- Where no block stands twice on a side, an order without a conflict holds the surviving base
  -- blocks in the order of a side that moved them, the other side having kept the base's order or
  -- moved them alike; added blocks stand between them.
  pub merge_order_keeps_moves :
      IsNodup (ids_of ours)
      → IsNodup (ids_of theirs)
      → (merge_order base ours theirs chosen_ids).conflicts ≡ []
      → (merged : List Text) × (within merged (merge_order base ours theirs chosen_ids).order
          ≡ merged)
        × IsMergedOrder
            (base_ids base ours theirs chosen_ids)
            (survivors ours)
            (survivors theirs)
            merged
  unfolding merge_order
  merge_order_keeps_moves n m h =
      let chosen = base_ids base ours theirs chosen_ids in
      let built =
        order_from-build_order chosen_ids chosen ours theirs (choice base ours theirs chosen_ids)
          h in
      let skeleton = built.0 in
      let nodup : IsNodup skeleton =
        elim (skeleton_of_side chosen (survivors ours) (survivors theirs) skeleton built.1
          built.2) [
            | inl o ↦ rw o (IsNodup-filter (contains chosen) (ids_of ours) n)
            | inr t ↦ rw t (IsNodup-filter (contains chosen) (ids_of theirs) m)
          ] in
      let fresh = λ (blocks : List Block).
        IsFresh-order_added skeleton start_anchor [] blocks
          (λ anchor a c. unfold lookup contains in absurd (cc c)) in
      (
        skeleton,
        rw built.3 (
            within-build_order skeleton chosen_ids (order_added skeleton start_anchor [] ours)
              (order_added skeleton start_anchor [] theirs) (fresh ours) (fresh theirs) nodup),
        choose_skeleton-IsMergedOrder chosen (survivors ours) (survivors theirs) skeleton built.1
            built.2,
      )

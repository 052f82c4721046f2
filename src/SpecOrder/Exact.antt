-- ===== src/SpecOrder/Exact.antt =====
-- Proofs about `mergeOrder` of src/specs.js: the merged order holds exactly the chosen blocks, once
-- each, with the surviving base blocks in the order of the skeleton.
use vcs_lab.Prelude.{
  ◌≡◌, refl, ◌⊎◌, inl, inr, true, not, ◌&&◌, ◌||◌, Option, none, some, List, [], ◌∷◌, ◌++◌, arith,
  if◌then◌else◌, Text, ◌==◌, ==_iff, contains, contains-concat, contains-filter, IsNodup,
  IsNodup-concat, Bool-cases, Dict,
}
use vcs_lab.SpecMerge.{Block}
use vcs_lab.SpecOrder.{
  ids_of, order_added, OrderDecision, choose_skeleton, items_at, append_items, append_group,
  push_new, place_skeleton, push_all, build_order, order_on, order_from, within, merge_order,
  start_anchor,
}

module _ (chosen_ids : List Text) where
  pub contains-append_items :
      (output ids : List Text) (a : Text)
      → contains (append_items chosen_ids output ids) a
        ≡ (contains output a || contains ids a && contains chosen_ids a)
  unfolding append_items contains
  contains-append_items output [] a = ground arith
  contains-append_items output (id ∷ ids) a = ground (
    arith,
    contains-append_items
        (if contains chosen_ids id && not (contains output id) then output ++ id ∷ [] else output)
        ids a,
    contains-concat output id a,
    ==_iff id a,
  )

  IsNodup-append_items :
      (output ids : List Text) → IsNodup output → IsNodup (append_items chosen_ids output ids)
  unfolding append_items
  IsNodup-append_items output [] n = n
  IsNodup-append_items output (id ∷ ids) n =
      elim (Bool-cases (contains chosen_ids id && not (contains output id))) [
        | inl new ↦ rw new (
            IsNodup-append_items (output ++ id ∷ []) ids
              (IsNodup-concat output id n (ground arith)))
        | inr old ↦ rw old (IsNodup-append_items output ids n)
      ]

pub contains-push_new :
    (output : List Text) (id a : Text)
    → contains (push_new output id) a ≡ (contains output a || id == a)
unfolding push_new
contains-push_new output id a = ground (arith, contains-concat output id a, ==_iff id a)

IsNodup-push_new : (output : List Text) (id : Text) → IsNodup output → IsNodup (push_new output id)
unfolding push_new
IsNodup-push_new output id n = elim (Bool-cases (contains output id)) [
  | inl old ↦ rw old n
  | inr new ↦ rw new (IsNodup-concat output id n new)
]

pub contains-push_all :
    (output ids : List Text) (a : Text)
    → contains (push_all output ids) a ≡ (contains output a || contains ids a)
unfolding push_all contains
contains-push_all output [] a = ground arith
contains-push_all output (id ∷ ids) a =
    ground (arith, contains-push_all (push_new output id) ids a, contains-push_new output id a)

IsNodup-push_all : (output ids : List Text) → IsNodup output → IsNodup (push_all output ids)
unfolding push_all
IsNodup-push_all output [] n = n
IsNodup-push_all output (id ∷ ids) n =
    IsNodup-push_all (push_new output id) ids (IsNodup-push_new output id n)

-- Every identifier of `xs` is one of `ys`.
abbrev pub IsSubset : List Text → List Text → Type 0
IsSubset xs ys = (a : Text) → contains xs a ≡ true → contains ys a ≡ true

module _ (chosen_ids : List Text) (ours_added theirs_added : Dict (List Text)) where
  append_group-IsSubset :
      (output : List Text) (anchor : Text)
      → IsSubset output chosen_ids
      → IsSubset (append_group chosen_ids ours_added theirs_added output anchor) chosen_ids
  unfolding append_group
  append_group-IsSubset output anchor h a c = ground (
    arith,
    contains-append_items chosen_ids output
        (items_at ours_added anchor ++ items_at theirs_added anchor) a,
    h a,
  )

  place_skeleton-IsSubset :
      (output skeleton : List Text)
      → IsSubset output chosen_ids
      → IsSubset skeleton chosen_ids
      → IsSubset (place_skeleton chosen_ids ours_added theirs_added output skeleton) chosen_ids
  unfolding place_skeleton contains
  place_skeleton-IsSubset output [] h k = h
  place_skeleton-IsSubset output (id ∷ ids) h k =
      place_skeleton-IsSubset
        (append_group chosen_ids ours_added theirs_added (push_new output id) id) ids
        (append_group-IsSubset (push_new output id) id
          (λ a c. ground (arith, contains-push_new output id a, h a, k a)))
        (λ a c. k a (ground arith))

  IsNodup-place_skeleton :
      (output skeleton : List Text)
      → IsNodup output
      → IsNodup (place_skeleton chosen_ids ours_added theirs_added output skeleton)
  unfolding place_skeleton append_group
  IsNodup-place_skeleton output [] n = n
  IsNodup-place_skeleton output (id ∷ ids) n =
      IsNodup-place_skeleton
        (append_group chosen_ids ours_added theirs_added (push_new output id) id) ids
        (IsNodup-append_items chosen_ids (push_new output id)
          (items_at ours_added id ++ items_at theirs_added id) (IsNodup-push_new output id n))

  build_order_exact :
      (skeleton : List Text)
      → IsSubset skeleton chosen_ids
      → let order = build_order chosen_ids ours_added theirs_added skeleton in
        IsNodup order × ((a : Text) → contains order a ≡ contains chosen_ids a)
  unfolding build_order append_group contains
  build_order_exact skeleton h =
      let first =
        append_items chosen_ids []
          (items_at ours_added start_anchor ++ items_at theirs_added start_anchor) in
      let placed = place_skeleton chosen_ids ours_added theirs_added first skeleton in
      let sub : IsSubset placed chosen_ids =
        place_skeleton-IsSubset first skeleton
          (append_group-IsSubset [] start_anchor (λ a c. absurd (cc c))) h in
      (
        IsNodup-push_all placed chosen_ids (
            IsNodup-place_skeleton first skeleton (
              IsNodup-append_items chosen_ids []
                (items_at ours_added start_anchor ++ items_at theirs_added start_anchor) tt)),
        λ a. ground (arith, contains-push_all placed chosen_ids a, sub a),
      )

-- A skeleton is the surviving base blocks as one of the sides orders them.
pub skeleton_of_side :
    (base_ids ours theirs : List Text) (skeleton : List Text) (d : OrderDecision)
    → choose_skeleton base_ids ours theirs ≡ some (skeleton, d)
    → (skeleton ≡ ours) ⊎ (skeleton ≡ theirs)
unfolding choose_skeleton
skeleton_of_side base_ids ours theirs skeleton d h = ground arith

within-IsSubset : (set ids : List Text) → IsSubset (within set ids) set
within-IsSubset set ids a c = ground (arith, contains-filter (contains set) ids a)

module _ (chosen_ids base_ids : List Text) (ours theirs : List Block) where
  order_on-build_order :
      (skeleton : List Text) (d : OrderDecision)
      → (order_on chosen_ids base_ids ours theirs skeleton d).conflicts ≡ []
      → (order_on chosen_ids base_ids ours theirs skeleton d).order
        ≡ build_order chosen_ids
            (order_added skeleton start_anchor [] ours)
            (order_added skeleton start_anchor [] theirs)
            skeleton
  unfolding order_on
  order_on-build_order skeleton d h = ground arith

  pub order_from-build_order :
      (choice : Option (List Text × OrderDecision))
      → (order_from chosen_ids base_ids ours theirs choice).conflicts ≡ []
      → (skeleton : List Text) × (d : OrderDecision) × (choice ≡ some (skeleton, d))
        × ((order_from chosen_ids base_ids ours theirs choice).order
            ≡ build_order chosen_ids
                (order_added skeleton start_anchor [] ours)
                (order_added skeleton start_anchor [] theirs)
                skeleton)
  unfolding order_from
  order_from-build_order none h = absurd (cc h)
  order_from-build_order (some (skeleton, d)) h =
      (skeleton, d, refl, order_on-build_order skeleton d h)

module _ (base ours theirs : List Block) (chosen_ids : List Text) where
  abbrev pub base_ids : List Text
  base_ids = within chosen_ids (ids_of base)

  abbrev pub choice : Option (List Text × OrderDecision)
  choice =
      choose_skeleton base_ids (within base_ids (ids_of ours)) (within base_ids (ids_of theirs))

  pub choice-IsSubset :
      (skeleton : List Text) (d : OrderDecision)
      → choice ≡ some (skeleton, d)
      → IsSubset skeleton base_ids
  choice-IsSubset skeleton d e =
      elim (skeleton_of_side base_ids (within base_ids (ids_of ours))
        (within base_ids (ids_of theirs)) skeleton d e) [
          | inl o ↦ rw o (within-IsSubset base_ids (ids_of ours))
          | inr t ↦ rw t (within-IsSubset base_ids (ids_of theirs))
        ]

  -- An order without a conflict holds exactly the chosen blocks, each of them once.
  pub merge_order_exact :
      (merge_order base ours theirs chosen_ids).conflicts ≡ []
      → let order = (merge_order base ours theirs chosen_ids).order in
        IsNodup order × ((a : Text) → contains order a ≡ contains chosen_ids a)
  unfolding merge_order
  merge_order_exact h =
      let built = order_from-build_order chosen_ids base_ids ours theirs choice h in
      rw built.3 (
        build_order_exact chosen_ids (order_added built.0 start_anchor [] ours)
          (order_added built.0 start_anchor [] theirs) built.0
          (λ a c.
            within-IsSubset chosen_ids (ids_of base) a
              (choice-IsSubset built.0 built.1 built.2 a c)))

-- ===== src/SpecOrder.antt =====
-- `mergeOrder` of src/specs.js: the order of the blocks that a merge keeps, from the orders of the
-- three stages.
pub mod Exact
pub mod Skeleton
pub mod Examples
use vcs_lab.Prelude.{
  ℕ, suc, ◌+◌, Bool, true, false, not, ◌&&◌, ◌||◌, Option, none, some, List, [], ◌∷◌, ◌++◌, map,
  if◌then◌else◌, Text, codes, ◌==◌, contains, add_all, to_set, Dict, lookup, insert, keys, has,
  get_or_else, is_some, filter, find, all, head?,
}
use vcs_lab.SpecMerge.{Block}

-- `sameArray`.
unfoldable pub same_array : List Text → List Text → Bool
same_array [] [] = true
same_array (x ∷ xs) (y ∷ ys) = x == y && same_array xs ys
same_array _ _ = false

abbrev pub start_anchor : Text
start_anchor = codes "__start__"

abbrev pub ids_of : List Block → List Text
ids_of blocks = map (λ b. b.id) blocks

-- The loop of `orderAdded`: each block outside the skeleton goes to the group of the last skeleton
-- block before it.
unfoldable pub order_added : List Text → Text → Dict (List Text) → List Block → Dict (List Text)
order_added skeleton anchor groups [] = groups
order_added skeleton anchor groups (b ∷ bs) =
    let known = order_added skeleton b.id groups bs in
    let grouped =
      order_added skeleton anchor
        (insert groups anchor (get_or_else (lookup groups anchor) [] ++ b.id ∷ [])) bs in
    if contains skeleton b.id then known else grouped

unfoldable pub anchor_ids : Dict Text → Text → List Text → Dict Text
anchor_ids anchors anchor [] = anchors
anchor_ids anchors anchor (id ∷ ids) = anchor_ids (insert anchors id anchor) anchor ids

-- `addedAnchors`.
unfoldable pub added_anchors : Dict Text → Dict (List Text) → Dict Text
unfolding anchor_ids
added_anchors anchors [] = anchors
added_anchors anchors ((anchor, ids) ∷ groups) =
    added_anchors (anchor_ids anchors anchor ids) groups

pub data OrderDecision : Type 0 where
  order_unchanged same_move theirs_move ours_move order_conflict : OrderDecision

pub data OrderConflict : Type 0 where
  conflicting_block_order : OrderConflict
  concurrent_add_placement : Text → OrderConflict
  conflicting_added_block_order : Text → OrderConflict

pub record Ordering : Type 0 where
  pub order : List Text
  pub decision : OrderDecision
  pub conflicts : List OrderConflict

-- The order of the base blocks that survive: the one side that moved them wins, and both may agree.
unfoldable pub choose_skeleton :
    List Text → List Text → List Text → Option (List Text × OrderDecision)
unfolding same_array
choose_skeleton base_ids ours theirs =
    if same_array ours theirs
    then some (ours, if same_array base_ids ours then order_unchanged else same_move)
    else if same_array ours base_ids
    then some (theirs, theirs_move)
    else if same_array theirs base_ids
    then some (ours, ours_move)
    else none

-- Whether both sides added `id`, behind different anchors.
unfoldable pub misplaced : List Text → Dict Text → Dict Text → Text → Bool
misplaced base_ids ours_anchors theirs_anchors id =
    not (contains base_ids id)
    && has ours_anchors id
    && has theirs_anchors id
    && not (get_or_else (lookup ours_anchors id) [] == get_or_else (lookup theirs_anchors id) [])

abbrev pub items_at : Dict (List Text) → Text → List Text
items_at groups anchor = get_or_else (lookup groups anchor) []

-- Whether the blocks that both sides added behind `anchor` stand in different orders.
unfoldable pub disordered :
    Dict (List Text) → Dict (List Text) → Dict Text → Dict Text → Text → Bool
unfolding same_array
disordered ours_added theirs_added ours_anchors theirs_anchors anchor = not (
    same_array (filter (λ id. has theirs_anchors id) (items_at ours_added anchor))
      (filter (λ id. has ours_anchors id) (items_at theirs_added anchor)))

-- The loop of `appendGroup`.
unfoldable pub append_items : List Text → List Text → List Text → List Text
append_items chosen_ids output [] = output
append_items chosen_ids output (id ∷ ids) =
    append_items chosen_ids
      (if contains chosen_ids id && not (contains output id) then output ++ id ∷ [] else output) ids

unfoldable pub append_group :
    List Text → Dict (List Text) → Dict (List Text) → List Text → Text → List Text
unfolding append_items
append_group chosen_ids ours_added theirs_added output anchor =
    append_items chosen_ids output (items_at ours_added anchor ++ items_at theirs_added anchor)

-- `if (!order.includes(id)) order.push(id)`.
unfoldable pub push_new : List Text → Text → List Text
push_new output id = if contains output id then output else output ++ id ∷ []

unfoldable pub place_skeleton :
    List Text → Dict (List Text) → Dict (List Text) → List Text → List Text → List Text
unfolding append_group push_new
place_skeleton chosen_ids ours_added theirs_added output [] = output
place_skeleton chosen_ids ours_added theirs_added output (id ∷ ids) =
    place_skeleton chosen_ids ours_added theirs_added
      (append_group chosen_ids ours_added theirs_added (push_new output id) id) ids

unfoldable pub push_all : List Text → List Text → List Text
unfolding push_new
push_all output [] = output
push_all output (id ∷ ids) = push_all (push_new output id) ids

-- The order once no conflict was found.
unfoldable pub build_order : List Text → Dict (List Text) → Dict (List Text) → List Text → List Text
unfolding place_skeleton push_all append_group
build_order chosen_ids ours_added theirs_added skeleton =
    push_all
      (place_skeleton chosen_ids ours_added theirs_added
        (append_group chosen_ids ours_added theirs_added [] start_anchor) skeleton)
      chosen_ids

abbrev refused : OrderConflict → Ordering
refused c = record { order = []; decision = order_conflict; conflicts = c ∷ [] }

-- The rest of `mergeOrder`, once the skeleton is known.
unfoldable pub order_on :
    List Text → List Text → List Block → List Block → List Text → OrderDecision → Ordering
unfolding order_added added_anchors misplaced disordered build_order
order_on chosen_ids base_ids ours theirs skeleton decision =
    let ours_added = order_added skeleton start_anchor [] ours in
    let theirs_added = order_added skeleton start_anchor [] theirs in
    let ours_anchors = added_anchors [] ours_added in
    let theirs_anchors = added_anchors [] theirs_added in
    elim (find (misplaced base_ids ours_anchors theirs_anchors) chosen_ids) [
      | some id ↦ refused (concurrent_add_placement id)
      | none ↦
          elim (find (disordered ours_added theirs_added ours_anchors theirs_anchors)
            (to_set (keys ours_added ++ keys theirs_added))) [
              | some anchor ↦ refused (conflicting_added_block_order anchor)
              | none ↦ record {
                order = build_order chosen_ids ours_added theirs_added skeleton;
                decision = decision;
                conflicts = [];
              }
            ]
    ]

abbrev pub within : List Text → List Text → List Text
within set ids = filter (contains set) ids

unfoldable pub order_from :
    List Text → List Text → List Block → List Block → Option (List Text × OrderDecision) → Ordering
unfolding order_on
order_from chosen_ids base_ids ours theirs none = refused conflicting_block_order
order_from chosen_ids base_ids ours theirs (some (skeleton, decision)) =
    order_on chosen_ids base_ids ours theirs skeleton decision

-- `mergeOrder`, on the blocks of the stages and the chosen identifiers.
unfoldable pub merge_order : List Block → List Block → List Block → List Text → Ordering
unfolding choose_skeleton order_from
merge_order base ours theirs chosen_ids =
    let base_ids = within chosen_ids (ids_of base) in
    order_from chosen_ids base_ids ours theirs
      (choose_skeleton base_ids (within base_ids (ids_of ours)) (within base_ids (ids_of theirs)))

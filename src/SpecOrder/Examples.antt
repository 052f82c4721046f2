-- ===== src/SpecOrder/Examples.antt =====
-- Runs of the merge of block orders of src/specs.js.
use vcs_lab.Prelude.{
  ◌≡◌, refl, List, [], ◌∷◌, String, Text, codes, IsNodup, contains, ◌==◌, lookup, insert, add_all,
  keys,
}
use vcs_lab.SpecMerge.{Block}
use vcs_lab.SpecOrder.{
  within, ids_of, ours_move, conflicting_block_order, concurrent_add_placement, merge_order,
}
use vcs_lab.SpecOrder.Exact.{base_ids, merge_order_exact}
use vcs_lab.SpecOrder.Skeleton.{survivors, IsMergedOrder, merge_order_keeps_moves}

abbrev block : String → String → Block
block id content = record {
  id = codes id;
  semantic_key = codes id;
  title = codes id;
  content_hash = codes content;
  content = codes content;
}

abbrev base : List Block
base = block "a" "1" ∷ block "b" "1" ∷ block "c" "1" ∷ []

-- Ours moved `c` to the front and added `n`; theirs added `p` behind `b`.
abbrev ours : List Block
ours = block "c" "1" ∷ block "a" "1" ∷ block "n" "1" ∷ block "b" "1" ∷ []

abbrev theirs : List Block
theirs = block "a" "2" ∷ block "b" "1" ∷ block "p" "1" ∷ block "c" "1" ∷ []

abbrev chosen : List Text
chosen = codes "a" ∷ codes "b" ∷ codes "c" ∷ codes "n" ∷ codes "p" ∷ []

merged-order : merge_order base ours theirs chosen ≡ record {
  order = codes "c" ∷ codes "a" ∷ codes "n" ∷ codes "b" ∷ codes "p" ∷ [];
  decision = ours_move;
  conflicts = [];
}
unfolding merge_order contains ◌==◌ lookup insert add_all keys
merged-order = refl

both-moved :
    (merge_order base ours (block "b" "1" ∷ block "a" "1" ∷ block "c" "1" ∷ []) chosen).conflicts
    ≡ conflicting_block_order ∷ []
unfolding merge_order contains ◌==◌
both-moved = refl

added-apart :
    (merge_order base
      (block "n" "1" ∷ base)
      (block "a" "1" ∷ block "n" "1" ∷ block "b" "1" ∷ block "c" "1" ∷ [])
      (codes "a" ∷ codes "b" ∷ codes "c" ∷ codes "n" ∷ [])).conflicts
    ≡ concurrent_add_placement (codes "n") ∷ []
unfolding merge_order contains ◌==◌ lookup insert
added-apart = refl

no-conflicts : (merge_order base ours theirs chosen).conflicts ≡ []
unfolding merge_order contains ◌==◌ lookup insert add_all keys
no-conflicts = refl

ours-IsNodup : IsNodup (ids_of ours)
unfolding contains ◌==◌
ours-IsNodup = (refl, (refl, (refl, (refl, tt))))

theirs-IsNodup : IsNodup (ids_of theirs)
unfolding contains ◌==◌
theirs-IsNodup = (refl, (refl, (refl, (refl, tt))))

merge_order_exact_example :
    let order = (merge_order base ours theirs chosen).order in
    IsNodup order × ((a : Text) → contains order a ≡ contains chosen a)
merge_order_exact_example = merge_order_exact base ours theirs chosen no-conflicts

merge_order_keeps_moves_example :
    (merged : List Text) × (within merged (merge_order base ours theirs chosen).order ≡ merged)
    × IsMergedOrder
        (base_ids base ours theirs chosen)
        (survivors base ours theirs chosen ours)
        (survivors base ours theirs chosen theirs)
        merged
merge_order_keeps_moves_example =
    merge_order_keeps_moves base ours theirs chosen ours-IsNodup theirs-IsNodup no-conflicts

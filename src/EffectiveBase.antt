-- ===== src/EffectiveBase.antt =====
-- `chooseEffectiveBase` of src/merge-plan.js: the base of a plan, carried forward by the receipts.
-- Git's ancestry is a parameter.
pub mod Maximal
use vcs_lab.Prelude.{
  Bool, true, false, not, ◌&&◌, ◌||◌, Option, none, some, List, [], ◌∷◌, if◌then◌else◌, Text, ◌==◌,
}
use vcs_lab.Records.{CausalRecord}

pub data BaseReason : Type 0 where
  physical_ancestry : BaseReason
  causal_receipt : Option Text → BaseReason

pub record EffectiveBase : Type 0 where
  pub commit : Text
  pub reason : BaseReason

module _ (is_ancestor : Text → Text → Bool) where
  -- One round of the loop of `chooseEffectiveBase`.
  unfoldable pub consider_receipt : Text → EffectiveBase → CausalRecord → EffectiveBase
  consider_receipt source_head effective receipt = elim receipt.source_head [
    | none ↦ effective
    | some candidate ↦
        if candidate == [] || not (is_ancestor candidate source_head)
        then effective
        else if is_ancestor effective.commit candidate
        then record { commit = candidate; reason = causal_receipt receipt.id }
        else effective
  ]

  unfoldable pub consider_receipts : Text → EffectiveBase → List CausalRecord → EffectiveBase
  unfolding consider_receipt
  consider_receipts source_head effective [] = effective
  consider_receipts source_head effective (r ∷ rs) =
      consider_receipts source_head (consider_receipt source_head effective r) rs

  unfoldable pub choose_effective_base : Text → List CausalRecord → Text → EffectiveBase
  unfolding consider_receipts
  choose_effective_base physical_base receipts source_head =
      consider_receipts source_head (record { commit = physical_base; reason = physical_ancestry })
        receipts

-- ===== src/EffectiveBase/Maximal.antt =====
-- Proofs about `chooseEffectiveBase` of src/merge-plan.js, over Git's ancestry as an order.
use vcs_lab.Prelude.{
  ◌≡◌, refl, Bool, true, false, not, ◌&&◌, ◌||◌, none, some, List, [], ◌∷◌, arith, Text, ◌==◌,
  ==_iff, ==_refl, any, All, get_or_else,
}
use vcs_lab.Records.{CausalRecord}
use vcs_lab.EffectiveBase.{
  physical_ancestry, EffectiveBase, consider_receipt, consider_receipts, choose_effective_base,
}

-- Whether a receipt offers a base below the source head.
abbrev pub qualifies : (Text → Text → Bool) → Text → CausalRecord → Bool
qualifies is_ancestor source_head r = elim r.source_head [
  | none ↦ false
  | some candidate ↦ not (candidate == []) && is_ancestor candidate source_head
]

-- What a receipt asks of a base: it is not a strict ancestor of the receipt's own candidate.
abbrev NotBelow : (Text → Text → Bool) → Text → Text → CausalRecord → Type 0
NotBelow is_ancestor source_head base r =
    (candidate : Text)
    → r.source_head ≡ some candidate
    → qualifies is_ancestor source_head r ≡ true
    → is_ancestor base candidate ≡ true
    → is_ancestor candidate base ≡ true

-- Whether a receipt that qualifies offers a base strictly after this one.
abbrev pub strictly_later : (Text → Text → Bool) → Text → Text → CausalRecord → Bool
strictly_later is_ancestor source_head base r = elim r.source_head [
  | none ↦ false
  | some candidate ↦
      qualifies is_ancestor source_head r
      && is_ancestor base candidate
      && not (is_ancestor candidate base)
]

NotBelow-strictly_later :
    (is_ancestor : Text → Text → Bool) (source_head base : Text) (rs : List CausalRecord)
    → All (NotBelow is_ancestor source_head base) rs
    → any (strictly_later is_ancestor source_head base) rs ≡ false
NotBelow-strictly_later is_ancestor source_head base [] h = refl
NotBelow-strictly_later is_ancestor source_head base (r ∷ rs) h = ground (
  arith,
  h.0 (get_or_else r.source_head []),
  NotBelow-strictly_later is_ancestor source_head base rs h.1,
)

module _ (is_ancestor : Text → Text → Bool) (is_ancestor-refl : (a : Text) → is_ancestor a a ≡ true)
    (is_ancestor-trans : (a b c : Text)
      → is_ancestor a b ≡ true
      → is_ancestor b c ≡ true
      → is_ancestor a c ≡ true)
    (source_head : Text) where
  abbrev consider : EffectiveBase → CausalRecord → EffectiveBase
  consider = consider_receipt is_ancestor source_head

  abbrev consider_all : EffectiveBase → List CausalRecord → EffectiveBase
  consider_all = consider_receipts is_ancestor source_head

  consider-grows :
      (e : EffectiveBase) (r : CausalRecord) → is_ancestor e.commit (consider e r).commit ≡ true
  unfolding consider_receipt
  consider-grows e r = ground (arith, is_ancestor-refl e.commit)

  consider-below :
      (e : EffectiveBase) (r : CausalRecord)
      → is_ancestor e.commit source_head ≡ true
      → is_ancestor (consider e r).commit source_head ≡ true
  unfolding consider_receipt
  consider-below e r h = ground arith

  consider-NotBelow :
      (e : EffectiveBase) (r : CausalRecord)
      → NotBelow is_ancestor source_head (consider e r).commit r
  unfolding consider_receipt
  consider-NotBelow e r c s q h = ground (arith, is_ancestor-refl c)

  all-grows :
      (e : EffectiveBase) (rs : List CausalRecord)
      → is_ancestor e.commit (consider_all e rs).commit ≡ true
  unfolding consider_receipts
  all-grows e [] = is_ancestor-refl e.commit
  all-grows e (r ∷ rs) =
      is_ancestor-trans e.commit (consider e r).commit (consider_all (consider e r) rs).commit
        (consider-grows e r) (all-grows (consider e r) rs)

  all-below :
      (e : EffectiveBase) (rs : List CausalRecord)
      → is_ancestor e.commit source_head ≡ true
      → is_ancestor (consider_all e rs).commit source_head ≡ true
  unfolding consider_receipts
  all-below e [] h = h
  all-below e (r ∷ rs) h = all-below (consider e r) rs (consider-below e r h)

  All-NotBelow :
      (e : EffectiveBase) (rs : List CausalRecord)
      → All (NotBelow is_ancestor source_head (consider_all e rs).commit) rs
  unfolding consider_receipts
  All-NotBelow e [] = tt
  All-NotBelow e (r ∷ rs) =
      let next = consider e r in
      let last = consider_all next rs in
      let up = all-grows next rs in
      (
        λ c s q h.
            is_ancestor-trans c next.commit last.commit
              (consider-NotBelow e r c s q (is_ancestor-trans next.commit last.commit c up h)) up,
        All-NotBelow next rs,
      )

  -- Over an ancestry that is reflexive and transitive, and a physical base below the source head,
  -- the effective base lies between the physical base and the source head, and no receipt whose
  -- source head is below the source head offers a strictly later base.
  pub effective_base_maximal :
      (physical_base : Text) (receipts : List CausalRecord)
      → is_ancestor physical_base source_head ≡ true
      → let base = (choose_effective_base is_ancestor physical_base receipts source_head).commit in
        (is_ancestor physical_base base ≡ true)
        × (is_ancestor base source_head ≡ true)
        × (any (strictly_later is_ancestor source_head base) receipts ≡ false)
  unfolding choose_effective_base
  effective_base_maximal physical_base receipts h =
      let start : EffectiveBase = record { commit = physical_base; reason = physical_ancestry } in
      (
        all-grows start receipts,
        all-below start receipts h,
        NotBelow-strictly_later is_ancestor source_head _ receipts (All-NotBelow start receipts),
      )

-- Whether a receipt that qualifies offers just this base.
abbrev pub offers : (Text → Text → Bool) → Text → Text → CausalRecord → Bool
offers is_ancestor source_head base r =
    qualifies is_ancestor source_head r && get_or_else r.source_head [] == base

module _ (is_ancestor : Text → Text → Bool) (source_head : Text) where
  offered-consider :
      (e : EffectiveBase) (r : CausalRecord)
      → let next = (consider_receipt is_ancestor source_head e r).commit in
        (next == e.commit || offers is_ancestor source_head next r) ≡ true
  unfolding consider_receipt
  offered-consider e r = ground (arith, ==_refl e.commit, ==_refl (get_or_else r.source_head []))

  offered-consider_all :
      (e : EffectiveBase) (rs : List CausalRecord)
      → let last = (consider_receipts is_ancestor source_head e rs).commit in
        (last == e.commit || any (offers is_ancestor source_head last) rs) ≡ true
  unfolding consider_receipts
  offered-consider_all e [] = ground (arith, ==_refl e.commit)
  offered-consider_all e (r ∷ rs) =
      let next = consider_receipt is_ancestor source_head e r in
      let last = (consider_receipts is_ancestor source_head next rs).commit in
      ground (
        arith,
        offered-consider e r,
        offered-consider_all next rs,
        ==_iff last next.commit,
        ==_iff next.commit e.commit,
        ==_iff last e.commit,
      )

  -- The effective base is the physical base, or the source head of one of the receipts, itself an
  -- ancestor of the planned source head.
  pub effective_base_offered :
      (physical_base : Text) (receipts : List CausalRecord)
      → let base = (choose_effective_base is_ancestor physical_base receipts source_head).commit in
        (base == physical_base || any (offers is_ancestor source_head base) receipts) ≡ true
  unfolding choose_effective_base
  effective_base_offered physical_base receipts =
      offered-consider_all (record { commit = physical_base; reason = physical_ancestry }) receipts

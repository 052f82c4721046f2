-- ===== src/SpecMerge/Decide.antt =====
-- Proofs about `contentDecision` of src/specs.js: it is a three-way merge of optional contents, and it
-- treats both sides alike.
use vcs_lab.Prelude.{
  ◌≡◌, refl, Bool, true, false, Option, none, some, arith, if◌then◌else◌, Text, ◌==◌, ==_iff,
}
use vcs_lab.SpecMerge.{
  Block, Side, ours_side, theirs_side, delete_vs_edit, Outcome, deleted_ours, deleted_theirs,
  ours_edit, theirs_edit, ours_add, theirs_add, conflict, decide, content_decision,
}

-- The content of a block that may be absent.
abbrev pub content_of : Option Block → Option Text
content_of none = none
content_of (some b) = some b.content_hash

abbrev pub same_content : Option Text → Option Text → Bool
same_content none none = true
same_content (some a) (some b) = a == b
same_content _ _ = false

-- The textbook merge of three optional contents: `none` is a conflict.
abbrev pub merge3 : Option Text → Option Text → Option Text → Option (Option Text)
merge3 base ours theirs =
    if same_content ours theirs
    then some ours
    else if same_content base ours
    then some theirs
    else if same_content base theirs
    then some ours
    else none

abbrev pub is_conflict : Outcome → Bool
is_conflict (conflict c) = true
is_conflict _ = false

-- What a decision settles: a content, or a conflict.
abbrev pub settled : Outcome × Option Block → Option (Option Text)
settled (o, b) = if is_conflict o then none else some (content_of b)

decide-merge3 :
    (base ours theirs : Option Block)
    → settled (decide base ours theirs)
      ≡ merge3 (content_of base) (content_of ours) (content_of theirs)
unfolding decide
decide-merge3 (some b) (some o) (some t) = ground (
  arith,
  ==_iff b.content_hash o.content_hash,
  ==_iff b.content_hash t.content_hash,
  ==_iff o.content_hash t.content_hash,
)
decide-merge3 base ours theirs = ground arith

-- The decision on a block is the three-way merge of its contents: the content that both sides agree
-- on, else that of the side that differs from the base, else a conflict. Absence is a content, so
-- deletions and additions are included.
pub content_decision-merge3 :
    (id : Text) (base ours theirs : Option Block)
    → let d = content_decision id base ours theirs in
      (d.id ≡ id)
      × (settled (d.outcome, d.block)
          ≡ merge3 (content_of base) (content_of ours) (content_of theirs))
unfolding content_decision
content_decision-merge3 id base ours theirs = (refl, decide-merge3 base ours theirs)

abbrev other_side : Side → Side
other_side ours_side = theirs_side
other_side theirs_side = ours_side

-- An outcome as it reads with the two sides exchanged.
abbrev pub mirrored : Outcome → Outcome
mirrored deleted_ours = deleted_theirs
mirrored deleted_theirs = deleted_ours
mirrored ours_edit = theirs_edit
mirrored theirs_edit = ours_edit
mirrored ours_add = theirs_add
mirrored theirs_add = ours_add
mirrored (conflict (delete_vs_edit s)) = conflict (delete_vs_edit (other_side s))
mirrored o = o

-- A block that some stage has.
abbrev pub IsKnown : Option Block → Option Block → Option Block → Type 0
IsKnown none none none = ⊥
IsKnown _ _ _ = Unit

-- Exchanging the two sides of a known block mirrors the outcome, and chooses the same content.
pub content_decision_mirror :
    (id : Text) (base ours theirs : Option Block)
    → IsKnown base ours theirs
    → let d = content_decision id base ours theirs in
      let e = content_decision id base theirs ours in
      (e.outcome ≡ mirrored d.outcome) × (content_of e.block ≡ content_of d.block)
unfolding content_decision decide
content_decision_mirror id (some b) (some o) (some t) h = ground (
  arith,
  ==_iff b.content_hash o.content_hash,
  ==_iff b.content_hash t.content_hash,
  ==_iff o.content_hash t.content_hash,
  ==_iff t.content_hash o.content_hash,
)
content_decision_mirror id none (some o) (some t) h =
    ground (arith, ==_iff o.content_hash t.content_hash, ==_iff t.content_hash o.content_hash)
content_decision_mirror id base ours theirs h = ground arith

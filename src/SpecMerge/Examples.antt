-- ===== src/SpecMerge/Examples.antt =====
-- Runs of the block merge of src/specs.js.
use vcs_lab.Prelude.{◌≡◌, none, some, String, codes}
use vcs_lab.SpecMerge.{Block, content_decision}
use vcs_lab.SpecMerge.Decide.{
  content_decision-merge3, content_decision_mirror, content_of, settled, merge3, mirrored,
}

abbrev block : String → String → Block
block id content = record {
  id = codes id;
  semantic_key = codes id;
  title = codes id;
  content_hash = codes content;
  content = codes content;
}

content_decision-merge3_example :
    let d =
      content_decision
        (codes "a")
        (some (block "a" "1"))
        (some (block "a" "1"))
        (some (block "a" "2")) in
    (d.id ≡ codes "a")
    × (settled (d.outcome, d.block)
        ≡ merge3 (some (codes "1")) (some (codes "1")) (some (codes "2")))
content_decision-merge3_example =
    content_decision-merge3 (codes "a") (some (block "a" "1")) (some (block "a" "1"))
      (some (block "a" "2"))

content_decision_mirror_example :
    let d = content_decision (codes "a") (some (block "a" "1")) none (some (block "a" "2")) in
    let e = content_decision (codes "a") (some (block "a" "1")) (some (block "a" "2")) none in
    (e.outcome ≡ mirrored d.outcome) × (content_of e.block ≡ content_of d.block)
content_decision_mirror_example =
    content_decision_mirror (codes "a") (some (block "a" "1")) none (some (block "a" "2")) tt

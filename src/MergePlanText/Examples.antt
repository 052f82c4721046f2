-- ===== src/MergePlanText/Examples.antt =====
-- Runs of the formatting of src/merge-plan.js.
use vcs_lab.Prelude.{◌≡◌, refl, codes}
use vcs_lab.MergePlanText.{show_number}

numbers :
    (show_number 0 ≡ codes "0") × (show_number 109 ≡ codes "109") × (show_number 40 ≡ codes "40")
unfolding show_number
numbers = (refl, refl, refl)

-- ===== src/RebasePlanText/Examples.antt =====
-- A run of the formatting of src/rebase-plan.js, on the plan of RebasePlan/Examples.
use vcs_lab.Trailers.{extract_change_id}
use vcs_lab.Records.{accepted_causal_records}
use vcs_lab.MergePlan.{classify}
use vcs_lab.RebasePlan.{build_rebase_plan}
use vcs_lab.Prelude.{◌≡◌, refl, [], codes, take, ◌==◌, text_lt, contains, add_all, lookup, insert}
use vcs_lab.Errors.{ok, err}
use vcs_lab.RebasePlan.Examples.{run}
use vcs_lab.RebasePlanText.{format_rebase_plan}

title-of-run :
    (elim run [
      | ok p ↦
          take 66
            (format_rebase_plan (λ m. []) (codes "main") (codes "topic") (codes "s0") (codes "f") p)
      | err c ↦ []
    ])
    ≡ codes "Causal rebase plan (merge-preserving)\nonto          main (t2)\nsour"
unfolding format_rebase_plan build_rebase_plan ◌==◌ text_lt contains add_all classify
    accepted_causal_records extract_change_id lookup insert
title-of-run = refl

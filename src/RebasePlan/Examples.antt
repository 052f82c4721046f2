-- ===== src/RebasePlan/Examples.antt =====
-- Runs of the rebase planner of src/rebase-plan.js on a small repository.
use vcs_lab.Trailers.{extract_change_id}
use vcs_lab.Records.{accepted_causal_records}
use vcs_lab.Prelude.{
  ◌≡◌, refl, true, none, some, [], ◌∷◌, map, String, codes, take, IsNodup, All, text_le, contains,
  ◌==◌, text_lt, add_all, lookup, insert,
}
use vcs_lab.Errors.{Result, ok, err, unsupported_range}
use vcs_lab.Interactive.{omit, review, replay, reword, squash, InteractiveOptions}
use vcs_lab.MergePlan.{HistoryItem, classify}
use vcs_lab.Repository.{Repository}
use vcs_lab.RebasePlan.{RebasePlan, build_rebase_plan}
use vcs_lab.RebasePlan.Actions.{Agrees}
use vcs_lab.RebasePlan.Queue.{history_commits, CountsMatch, plan_actions_agree, queues-CountsMatch}
use vcs_lab.RebasePlan.Pinned.{IsSameRun, fingerprint-IsSameRun}

abbrev item : String → String → HistoryItem
item commit message = record {
  commit = codes commit;
  message = codes message;
  subject = codes message;
  changed_paths = none;
}

-- Six commits above `s0`: `s2` is in the target by its identity, `s5` merges `s3` and `s4`, and `s6` is
-- patch equivalent to some commit of the target.
abbrev pub repository : Repository
repository = record {
  head_branch = some (codes "main");
  resolve = λ expression. ok (take 2 expression);
  merge_base = λ a b. ok (codes "s0");
  is_ancestor = text_le;
  branch_tips = codes "s6" ∷ [];
  history = λ head. item "t1" "one" ∷ item "t2" "two\n\nChange-Id: chg_b" ∷ [];
  range_history = λ base head.
      item "s1" "a"
      ∷ item "s2" "b\n\nChange-Id: chg_b"
      ∷ item "s3" "c"
      ∷ item "s4" "d"
      ∷ item "s5" "e"
      ∷ item "s6" "f"
      ∷ [];
  patch_equivalent = λ a b c. codes "s6" ∷ [];
  commit_topology = λ base head.
      record { commit = codes "s1"; parents = codes "s0" ∷ [] }
      ∷ record { commit = codes "s2"; parents = codes "s1" ∷ [] }
      ∷ record { commit = codes "s3"; parents = codes "s2" ∷ [] }
      ∷ record { commit = codes "s4"; parents = codes "s2" ∷ [] }
      ∷ record { commit = codes "s5"; parents = codes "s3" ∷ codes "s4" ∷ [] }
      ∷ record { commit = codes "s6"; parents = codes "s5" ∷ [] }
      ∷ [];
  catalog = record { records = []; conflicting_ids = [] };
  structurally_valid = λ r. true;
  references_exist = λ r. true;
}

abbrev options : InteractiveOptions
options = record {
  reword_values = codes "s1" ∷ [];
  edit_values = [];
  squash_values = codes "s3=s1" ∷ [];
  fixup_values = [];
}

abbrev pub run : Result RebasePlan
run = build_rebase_plan repository (codes "t2") (some (codes "s6")) (some (codes "s0")) options

pub run-returns : (plan : RebasePlan) × (run ≡ ok plan)
unfolding build_rebase_plan ◌==◌ text_lt contains add_all classify accepted_causal_records
    extract_change_id lookup insert
run-returns = (_, refl)

abbrev pub plan : RebasePlan
plan = run-returns.0

run-actions :
    (elim run [ ok p ↦ map (λ c. c.action) p.changes | err c ↦ [] ])
    ≡ reword ∷ omit ∷ squash ∷ replay ∷ review ∷ []
unfolding build_rebase_plan ◌==◌ text_lt contains add_all classify accepted_causal_records
    extract_change_id lookup insert
run-actions = refl

refusals :
    (build_rebase_plan repository (codes "t2") (some (codes "s6")) (some (codes "s6")) options
      ≡ err unsupported_range)
    × (build_rebase_plan repository (codes "t2") (some (codes "s5")) (some (codes "s0")) options
        ≡ err unsupported_range)
unfolding build_rebase_plan ◌==◌ text_lt contains
refusals = (refl, refl)

commits-distinct : IsNodup (history_commits repository plan.range_base plan.source_head)
unfolding contains ◌==◌
commits-distinct = (refl, (refl, (refl, (refl, (refl, (refl, tt))))))

plan_actions_agree_example : All Agrees plan.changes
plan_actions_agree_example =
    plan_actions_agree repository (codes "t2") (some (codes "s6")) (some (codes "s0")) options plan
      run-returns.1 commits-distinct

queues-CountsMatch_example : CountsMatch plan
queues-CountsMatch_example =
    queues-CountsMatch repository (codes "t2") (some (codes "s6")) (some (codes "s0")) options plan
      run-returns.1 commits-distinct

fingerprint-IsSameRun_example : IsSameRun plan plan
fingerprint-IsSameRun_example =
    fingerprint-IsSameRun repository repository (codes "t2") (codes "t2") (some (codes "s6"))
      (some (codes "s6")) (some (codes "s0")) (some (codes "s0")) options options plan plan
      run-returns.1 run-returns.1 refl

-- ===== src/RebaseJournal/Sample.antt =====
-- A small repository for the runs of the rebase commands of src/rebase-operations.js.
use vcs_lab.Prelude.{
  Bool, true, false, Option, none, some, List, [], ◌∷◌, ◌++◌, map, Text, codes, ◌==◌, if◌then◌else◌,
}
use vcs_lab.Errors.{Result, ok, err, conflict_paused}
use vcs_lab.RebasePlan.Examples.{repository, plan}
use vcs_lab.RebaseJournal.{Receipt}
use vcs_lab.RebaseJournal.Host.{
  GitCommand, cherry_pick, cherry_pick_continue, cherry_pick_no_commit, cherry_pick_abort,
  merge_no_commit, commit_no_edit, reset_hard, Host,
}
use vcs_lab.RebaseJournal.Session.{Session}
use vcs_lab.RebaseJournal.Starting.{StartOptions, start_operation, start_rebase}
use vcs_lab.RebaseJournal.Continuing.{ContinueOptions}

pub record Git : Type 0 where
  pub head : Text
  pub picking : Option Text
  pub merging : Option Text
  pub unmerged : List Text
  pub melded : List Text

-- Every pick makes a commit with a prime; that of one commit conflicts in a file.
abbrev pub run_command : Text → GitCommand → Git → Bool × Git
run_command bad (cherry_pick c) g =
    if c == bad
    then (false, record g { picking = some c; unmerged = codes "file" ∷ [] })
    else (true, record g { head = c ++ codes "'" })
run_command bad cherry_pick_continue g =
    (true, record g { head = codes "resolved"; picking = none })
run_command bad (cherry_pick_no_commit c) g = (true, record g { melded = c ∷ g.melded })
run_command bad cherry_pick_abort g = (true, record g { picking = none; unmerged = [] })
run_command bad (merge_no_commit c) g = (true, record g { merging = some c })
run_command bad commit_no_edit g = (true, record g { head = codes "s5'"; merging = none })
run_command bad (reset_hard c) g = (true, record g { head = c })
run_command bad _ g = (true, g)

abbrev pub host_with : Text → Host Git
host_with bad = record {
  run = run_command bad;
  new_id = λ prefix g. (prefix, g);
  head = λ g. g.head;
  tree_of = λ c g. codes "tree " ++ c;
  change_id_of = λ c g. codes "git:" ++ c;
  message_of = λ c g. codes "message";
  head_ref = λ g. some (codes "refs/heads/s6");
  repository = λ g. repository;
  is_clean = λ g. true;
  replay_active = λ g. false;
  unmerged_paths = λ g. g.unmerged;
  cherry_pick_head = λ g. g.picking;
  pending_merge_head = λ g. g.merging;
  merge_message = λ g. codes "message";
  transient_root = λ g. codes "root";
  capture_descriptors = λ paths g. (
    ok (
        map
          (λ p. record {
            path = p;
            signature = p;
            candidates = [];
            selected = none;
            selection_method = none;
          })
          paths),
    g,
  );
  capture_outcomes = λ conflicts g. (ok [], g);
  materialize_candidate = λ conflict candidate g. (ok tt, g);
  publish_resolution = λ r id g. (ok tt, g);
  spec_plans = λ g. [];
  materialize_spec = λ p g. (ok tt, g);
  capture_spec_outcomes = λ m g. (ok m, g);
  spec_decisions_current = λ o. true;
  forecast_overlay = λ id g. ok none;
  forecast_for_plan = λ id p g. err conflict_paused;
  reconciliation_pending = λ g. false;
  note_application = λ a g. (ok tt, g);
  note_amendment = λ a g. (ok tt, g);
  note_absorption = λ a g. (ok tt, g);
  note_receipt = λ t r g. (ok tt, g);
  carry_provenance = λ a g. (ok tt, g);
  materialize_overlay = λ a b c g. (ok none, g);
  assert_overlay_current = λ t g. (ok tt, g);
  reduce_to_head = λ t g. (ok tt, g);
  restore_overlay = λ t g. (ok tt, g);
}

abbrev pub host : Host Git
host = host_with (codes "s4")

-- Nothing conflicts.
abbrev pub smooth : Host Git
smooth = host_with (codes "none")

abbrev pub options : StartOptions
options = record {
  onto = codes "t2";
  from = some (codes "s0");
  interactive = record {
    reword_values = [];
    edit_values = [];
    squash_values = [];
    fixup_values = [];
  };
  accept_candidates = true;
  forecast_id = none;
}

abbrev pub before : Session Git
before = record {
  operation = start_operation (codes "id") (codes "ref") (codes "s6") (codes "t2") plan true none;
  disk = none;
  world = record { head = codes "s6"; picking = none; merging = none; unmerged = []; melded = [] };
  recorded = false;
}

abbrev pub paused : Session Git
paused = (start_rebase host options before).1

-- The person resolved the conflict, in another process.
abbrev pub resolved : Session Git
resolved = record paused {
  world = record paused.world { unmerged = [] };
  operation = before.operation;
}

abbrev pub go_on : ContinueOptions
go_on = record { message = none; fork = false }

abbrev pub origins : Result (Option Receipt) → Option (List Text × List Text)
origins (ok (some r)) =
    some (map (λ a. a.origin_commit) r.applications, map (λ m. m.origin_commit) r.recreated_merges)
origins _ = none

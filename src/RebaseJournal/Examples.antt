-- ===== src/RebaseJournal/Examples.antt =====
-- Runs of the rebase commands on a small repository: the second of the picks conflicts.
use vcs_lab.Trailers.{extract_change_id}
use vcs_lab.Records.{accepted_causal_records}
use vcs_lab.MergePlan.{classify}
use vcs_lab.Prelude.{
  ◌≡◌, refl, Bool, true, Option, none, some, List, [], ◌∷◌, ◌+◌, length, codes, ◌==◌, text_lt,
  contains, add_all, lookup, insert, keys, is_some,
}
use mathlib.Core.Path.{subst}
use vcs_lab.Errors.{Result, ok, err, conflict_paused, conflict_blocked}
use vcs_lab.RebasePlan.{build_rebase_plan}
use vcs_lab.RebasePlan.Examples.{plan}
use vcs_lab.RebaseProgram.{rebase_program}
use vcs_lab.RebaseJournal.{AbsorptionRecord, Operation, Receipt, change_of, executable_steps}
use vcs_lab.RebaseJournal.Session.{
  Session, ◌>>=◌, asks, ◌>>◌, throw_when, pure, when, perform, modify, gets, catch, from_some, call,
  throw,
}
use vcs_lab.RebaseJournal.Starting.{StartOptions, start_operation, start_rebase}
use vcs_lab.RebaseJournal.Continuing.{continue_rebase}
use vcs_lab.RebaseJournal.Aborting.{abort_rebase}
use vcs_lab.RebaseJournal.Finishing.{run_rebase_queue}
use vcs_lab.RebaseJournal.Checks.{progress_of}
use vcs_lab.RebaseJournal.Recording.{loses_identity, is_fallback}
use vcs_lab.RebaseJournal.Ledger.{is_continuable, DiskSound, Safe, Leaves}
use vcs_lab.RebaseJournal.Between.{Ready}
use vcs_lab.RebaseJournal.Completed.{Returned, run_rebase_queue-Returned}
use vcs_lab.RebaseJournal.Checked.{Kept}
use vcs_lab.RebaseJournal.Begun.{Begun, start_rebase-Begun}
use vcs_lab.RebaseJournal.Resumed.{Continued, continue_rebase-Continued}
use vcs_lab.RebaseJournal.Aborted.{Aborted, Held, abort_rebase-Aborted}
use vcs_lab.RebaseJournal.Reached.{
  start, after, Reachable, fresh, step, Reachable-DiskSound, Pauses, Reachable-Pauses,
}
use vcs_lab.RebaseJournal.Status.{rest, progress_exact}
use vcs_lab.RebaseJournal.Sample.{
  Git, host_with, host, smooth, options, before, paused, resolved, go_on, origins,
}

start-paused : (start_rebase host options before).0 ≡ err conflict_paused
unfolding start_rebase continue_rebase abort_rebase build_rebase_plan ◌==◌ text_lt contains add_all
    classify accepted_causal_records extract_change_id lookup insert ◌>>=◌ asks ◌>>◌ throw_when pure
    when perform modify gets catch from_some change_of loses_identity is_fallback call throw keys
start-paused = refl

start-receipt :
    origins (start_rebase smooth options before).0
    ≡ some (codes "s1" ∷ codes "s3" ∷ codes "s4" ∷ [], codes "s5" ∷ [])
unfolding start_rebase continue_rebase abort_rebase build_rebase_plan ◌==◌ text_lt contains add_all
    classify accepted_causal_records extract_change_id lookup insert ◌>>=◌ asks ◌>>◌ throw_when pure
    when perform modify gets catch from_some change_of loses_identity is_fallback call throw keys
start-receipt = refl

continue-receipt :
    origins (continue_rebase host go_on resolved).0
    ≡ some (codes "s1" ∷ codes "s3" ∷ codes "s4" ∷ [], codes "s5" ∷ [])
unfolding start_rebase continue_rebase abort_rebase build_rebase_plan ◌==◌ text_lt contains add_all
    classify accepted_causal_records extract_change_id lookup insert ◌>>=◌ asks ◌>>◌ throw_when pure
    when perform modify gets catch from_some change_of loses_identity is_fallback call throw keys
continue-receipt = refl

abort-restores :
    ((abort_rebase host paused).0 ≡ ok (codes "s6")) × ((abort_rebase host paused).1.disk ≡ none)
unfolding start_rebase continue_rebase abort_rebase build_rebase_plan ◌==◌ text_lt contains add_all
    classify accepted_causal_records extract_change_id lookup insert ◌>>=◌ asks ◌>>◌ throw_when pure
    when perform modify gets catch from_some change_of loses_identity is_fallback call throw keys
abort-restores = (refl, refl)

unresolved-refused : (continue_rebase host go_on paused).0 ≡ err conflict_blocked
unfolding start_rebase continue_rebase abort_rebase build_rebase_plan ◌==◌ text_lt contains add_all
    classify accepted_causal_records extract_change_id lookup insert ◌>>=◌ asks ◌>>◌ throw_when pure
    when perform modify gets catch from_some change_of loses_identity is_fallback call throw keys
unresolved-refused = refl

-- `s3` is to be melded into `s1`, which conflicts. The resolved step is recorded, `s3` is omitted and
-- never melded, and the receipt has no absorption but claims its identity.
abbrev squashing : StartOptions
squashing = record options {
  interactive = record {
    reword_values = [];
    edit_values = [];
    squash_values = codes "s3=s1" ∷ [];
    fixup_values = [];
  };
}

abbrev squash_paused : Session Git
squash_paused = (start_rebase (host_with (codes "s1")) squashing before).1

abbrev squash_resolved : Session Git
squash_resolved = record squash_paused { world = record squash_paused.world { unmerged = [] } }

abbrev squash_result : Result (Option Receipt) × Session Git
squash_result = continue_rebase (host_with (codes "s1")) go_on squash_resolved

abbrev claims : Result (Option Receipt) → Option (List AbsorptionRecord × Bool)
claims (ok (some r)) = some (r.absorptions, contains r.absorbed_commits (codes "s3"))
claims _ = none

absorbed_commit_lost :
    (claims squash_result.0 ≡ some ([], true)) × (squash_result.1.world.melded ≡ [])
unfolding start_rebase continue_rebase abort_rebase build_rebase_plan ◌==◌ text_lt contains add_all
    classify accepted_causal_records extract_change_id lookup insert ◌>>=◌ asks ◌>>◌ throw_when pure
    when perform modify gets catch from_some change_of loses_identity is_fallback call throw keys
absorbed_commit_lost = (refl, refl)

squash_melds : (start_rebase smooth squashing before).1.world.melded ≡ codes "s3" ∷ []
unfolding start_rebase continue_rebase abort_rebase build_rebase_plan ◌==◌ text_lt contains add_all
    classify accepted_causal_records extract_change_id lookup insert ◌>>=◌ asks ◌>>◌ throw_when pure
    when perform modify gets catch from_some change_of loses_identity is_fallback call throw keys
squash_melds = refl

-- The journal of the paused rebase.
abbrev journal_of : Option Operation → Operation
journal_of none = before.operation
journal_of (some o) = o

abbrev journal : Operation
journal = journal_of paused.disk

some_journal : (d : Option Operation) → is_some d ≡ true → d ≡ some (journal_of d)
some_journal none h = absurd (cc h)
some_journal (some o) h = refl

paused_journal : is_some paused.disk ≡ true
unfolding start_rebase continue_rebase abort_rebase build_rebase_plan ◌==◌ text_lt contains add_all
    classify accepted_causal_records extract_change_id lookup insert ◌>>=◌ asks ◌>>◌ throw_when pure
    when perform modify gets catch from_some change_of loses_identity is_fallback call throw keys
paused_journal = refl

paused-Reachable : Reachable host paused.disk
unfolding after
paused-Reachable = step (start options) before fresh refl

journal-Reachable : Reachable host (some journal)
journal-Reachable =
    subst (Reachable host) (some_journal paused.disk paused_journal) paused-Reachable

journal-paused : is_continuable journal.state ≡ true
unfolding start_rebase continue_rebase abort_rebase build_rebase_plan ◌==◌ text_lt contains add_all
    classify accepted_causal_records extract_change_id lookup insert ◌>>=◌ asks ◌>>◌ throw_when pure
    when perform modify gets catch from_some change_of loses_identity is_fallback call throw keys
journal-paused = refl

Reachable-Pauses_example : Pauses journal
Reachable-Pauses_example = Reachable-Pauses host journal journal-Reachable journal-paused

start_rebase-Begun_example :
    Leaves
      (Begun smooth options before)
      Kept
      (start_rebase smooth options before).0
      (start_rebase smooth options before).1
start_rebase-Begun_example = start_rebase-Begun smooth options before tt

journal-DiskSound : DiskSound resolved.disk
journal-DiskSound = Reachable-DiskSound host paused-Reachable

continue_rebase-Continued_example :
    Leaves
      (Continued host go_on resolved.disk)
      Kept
      (continue_rebase host go_on resolved).0
      (continue_rebase host go_on resolved).1
continue_rebase-Continued_example = continue_rebase-Continued host go_on resolved journal-DiskSound

abort_rebase-Aborted_example :
    Leaves
      (Aborted host paused.disk)
      (Held host paused.disk)
      (abort_rebase host paused).0
      (abort_rebase host paused).1
abort_rebase-Aborted_example = abort_rebase-Aborted host paused

before-Ready : Ready (rebase_program plan) 0 before
unfolding start_operation executable_steps
before-Ready = record {
  tracked = record {
    executed_exact = refl;
    applied_exact = refl;
    merges_exact = refl;
    identities_kept = tt;
  };
  queue = refl;
  index = refl;
  idle = refl;
  vacant = refl;
  disk = tt;
}

run_rebase_queue-Returned_example :
    Leaves
      (Returned host (rebase_program plan))
      Safe
      (run_rebase_queue host before).0
      (run_rebase_queue host before).1
run_rebase_queue-Returned_example = run_rebase_queue-Returned host before before-Ready

progress_exact_example :
    ((progress_of journal).completed + (progress_of journal).remaining
      ≡ (progress_of journal).total)
    × ((progress_of journal).remaining
        ≡ length (executable_steps (rest journal.next_index journal.queue)))
progress_exact_example = progress_exact host journal journal-Reachable journal-paused

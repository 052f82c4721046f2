-- ===== src/SpecRead/Blocked.antt =====
-- What a clean result of `planSpecMerge` of src/specs.js rests on.
use vcs_lab.Prelude.{
  ◌≡◌, refl, Bool, true, false, ◌&&◌, Option, none, some, List, [], ◌∷◌, ◌++◌, if◌then◌else◌,
}
use vcs_lab.SpecMerge.{Stage}
use vcs_lab.SpecPlan.{StageName, base_stage, ours_stage, theirs_stage, plan_spec_merge}
use vcs_lab.SpecRead.{Stages, stage_if, migration_stages, plan_unless_migrating, plan_spec_file}

-- Whether a stage that exists has a manifest to migrate.
abbrev pub outdated : (Stage → Bool) → Stage → Bool
outdated needs_migration s = s.exists && needs_migration s

no_stages :
    (a b c : Bool)
    → stage_if a base_stage ++ (stage_if b ours_stage ++ stage_if c theirs_stage) ≡ []
    → (a ≡ false) × (b ≡ false) × (c ≡ false)
unfolding stage_if
no_stages false false false h = (refl, refl, refl)
no_stages true b c h = absurd (cc h)
no_stages false true c h = absurd (cc h)
no_stages false false true h = absurd (cc h)

plan_unless_migrating_lem :
    (needs_migration : Stage → Bool) (s : Stages) (names : List StageName)
    → (plan_unless_migrating needs_migration s names).clean ≡ true
    → (names ≡ [])
      × (plan_unless_migrating needs_migration s names ≡ plan_spec_merge s.base s.ours s.theirs)
unfolding plan_unless_migrating
plan_unless_migrating_lem needs_migration s [] h = (refl, refl)
plan_unless_migrating_lem needs_migration s (n ∷ ns) h = absurd (cc h)

if_and : (e n : Bool) → (if e then n else false) ≡ false → (e && n) ≡ false
if_and true n h = h
if_and false n h = refl

-- A clean plan for a file is the plan of three stages that were read, none of which is outdated.
pub clean_file_was_read :
    (needs_migration : Stage → Bool) (read : Option Stages)
    → (plan_spec_file needs_migration read).clean ≡ true
    → (s : Stages) × (read ≡ some s)
      × (outdated needs_migration s.base ≡ false)
      × (outdated needs_migration s.ours ≡ false)
      × (outdated needs_migration s.theirs ≡ false)
      × (plan_spec_file needs_migration read ≡ plan_spec_merge s.base s.ours s.theirs)
unfolding plan_spec_file
clean_file_was_read needs_migration none h = absurd (cc h)
clean_file_was_read needs_migration (some s) h =
    let (empty, same) =
      plan_unless_migrating_lem needs_migration s (migration_stages needs_migration s) h in
    let none_of =
      no_stages (if s.base.exists then needs_migration s.base else false)
        (if s.ours.exists then needs_migration s.ours else false)
        (if s.theirs.exists then needs_migration s.theirs else false) empty in
    (
      s,
      refl,
      if_and s.base.exists (needs_migration s.base) none_of.0,
      if_and s.ours.exists (needs_migration s.ours) none_of.1,
      if_and s.theirs.exists (needs_migration s.theirs) none_of.2,
      same,
    )

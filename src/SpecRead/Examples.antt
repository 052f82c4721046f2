-- ===== src/SpecRead/Examples.antt =====
-- A run of the start of `planSpecMerge` of src/specs.js.
use vcs_lab.Prelude.{◌≡◌, refl, true, false, none, some, [], ◌∷◌}
use vcs_lab.SpecPlan.{
  base_stage, ours_stage, theirs_stage, semantic_metadata_unavailable, parser_migration_required,
  plan_spec_merge,
}
use vcs_lab.SpecPlan.Examples.{base, ours, theirs, plan-is_clean}
use vcs_lab.SpecRead.{Stages, plan_spec_file}
use vcs_lab.SpecRead.Blocked.{outdated, clean_file_was_read}

abbrev stages : Stages
stages = record { base = base; ours = ours; theirs = theirs }

blocked_reads :
    ((plan_spec_file (λ s. false) none).conflicts ≡ semantic_metadata_unavailable ∷ [])
    × ((plan_spec_file (λ s. true) (some stages)).conflicts
        ≡ parser_migration_required (base_stage ∷ ours_stage ∷ theirs_stage ∷ []) ∷ [])
unfolding plan_spec_file
blocked_reads = (refl, refl)

stages-is_clean : (plan_spec_file (λ s. false) (some stages)).clean ≡ true
unfolding plan_spec_file
stages-is_clean = plan-is_clean

clean_file_was_read_example :
    (s : Stages) × (some stages ≡ some s)
    × (outdated (λ s. false) s.base ≡ false)
    × (outdated (λ s. false) s.ours ≡ false)
    × (outdated (λ s. false) s.theirs ≡ false)
    × (plan_spec_file (λ s. false) (some stages) ≡ plan_spec_merge s.base s.ours s.theirs)
clean_file_was_read_example = clean_file_was_read (λ s. false) (some stages) stages-is_clean

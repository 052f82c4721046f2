-- ===== src/Interactive/Examples.antt =====
-- Runs of the declared actions of src/rebase-interactive.js.
use vcs_lab.Prelude.{
  ◌≡◌, refl, Option, none, some, List, [], ◌∷◌, String, Text, codes, lookup, get_or_else, filter,
  count_if, contains, ◌==◌, insert, sort_by,
}
use vcs_lab.Errors.{ok, err, usage_missing_argument, usage_invalid_option_value, unsupported_range}
use vcs_lab.Interactive.{
  Action, omit, replay, reword, edit, squash, fixup, is_absorbing, Declaration, parse_declaration,
  PlanChange, ResolvedAction, Program, resolve_interactive_program,
}
use vcs_lab.Interactive.Resolved.{IsAdmitted, resolved_program-IsAdmitted, resolved_program_counts}
use vcs_lab.Interactive.Groups.{aims_at, absorbed_into_exact}

parsed-values :
    (parse_declaration squash (codes " b = a ")
      ≡ ok (record { action = squash; subject = codes "b"; target = some (codes "a") }))
    × (parse_declaration fixup (codes "b=a=c")
        ≡ ok (record { action = fixup; subject = codes "b"; target = some (codes "a=c") }))
    × (parse_declaration squash (codes "b=") ≡ err usage_invalid_option_value)
    × (parse_declaration reword (codes "b=a") ≡ err usage_invalid_option_value)
    × (parse_declaration edit (codes "  ") ≡ err usage_missing_argument)
unfolding parse_declaration
parsed-values = (refl, refl, refl, refl, refl)

abbrev change : String → Action → PlanChange
change commit action = record { commit = codes commit; action = action }

abbrev changes : List PlanChange
changes =
    change "a" replay
    ∷ change "z" omit
    ∷ change "b" replay
    ∷ change "c" replay
    ∷ change "m" replay
    ∷ []

abbrev merges : List Text
merges = codes "m" ∷ []

-- Every name but `gone` is its own commit.
abbrev resolve : Text → Option Text
resolve (c ∷ []) = some (c ∷ [])
resolve _ = none

abbrev pair : Action → String → String → Declaration
pair action subject target = record {
  action = action;
  subject = codes subject;
  target = some (codes target);
}

abbrev one : Action → String → Declaration
one action subject = record { action = action; subject = codes subject; target = none }

abbrev declarations : List Declaration
declarations = pair fixup "c" "a" ∷ pair squash "b" "a" ∷ one reword "a" ∷ []

abbrev program_actions : List ResolvedAction
program_actions =
    record { action = reword; commit = codes "a"; target = none }
    ∷ record { action = squash; commit = codes "b"; target = some (codes "a") }
    ∷ record { action = fixup; commit = codes "c"; target = some (codes "a") }
    ∷ []

abbrev program : Program
program = record {
  actions = program_actions;
  by_commit =
      (codes "c", record { action = fixup; commit = codes "c"; target = some (codes "a") })
      ∷ (codes "b", record { action = squash; commit = codes "b"; target = some (codes "a") })
      ∷ (codes "a", record { action = reword; commit = codes "a"; target = none })
      ∷ [];
  absorbed_into =
      (
        codes "a",
        record { action = squash; commit = codes "b"; target = some (codes "a") }
            ∷ record { action = fixup; commit = codes "c"; target = some (codes "a") }
            ∷ [],
      )
      ∷ [];
}

resolves : resolve_interactive_program resolve changes merges declarations ≡ ok program
unfolding resolve_interactive_program contains ◌==◌ lookup insert sort_by
resolves = refl

refused :
    let run = resolve_interactive_program resolve changes merges in
    (run (one edit "gone" ∷ []) ≡ err unsupported_range)
    × (run (one edit "m" ∷ []) ≡ err unsupported_range)
    × (run (one edit "z" ∷ []) ≡ err unsupported_range)
    × (run (one edit "a" ∷ one reword "a" ∷ []) ≡ err unsupported_range)
    × (run (pair squash "a" "b" ∷ []) ≡ err unsupported_range)
    × (run (pair squash "c" "b" ∷ pair squash "b" "a" ∷ []) ≡ err unsupported_range)
unfolding resolve_interactive_program contains ◌==◌ lookup insert
refused = (refl, refl, refl, refl, refl, refl)

resolved_program-IsAdmitted_example : IsAdmitted changes merges program
resolved_program-IsAdmitted_example =
    resolved_program-IsAdmitted resolve changes merges declarations program resolves

resolved_program_counts_example :
    count_if (λ a. is_absorbing a.action) program.actions
    ≡ count_if (λ d. is_absorbing d.action) declarations
resolved_program_counts_example =
    resolved_program_counts resolve changes merges declarations program is_absorbing resolves

absorbed_into_exact_example :
    get_or_else (lookup program.absorbed_into (codes "a")) []
    ≡ filter (λ a. aims_at (codes "a") a.target) program.actions
absorbed_into_exact_example =
    absorbed_into_exact resolve changes merges declarations program (codes "a") resolves

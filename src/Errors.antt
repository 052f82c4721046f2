-- ===== src/Errors.antt =====
-- src/errors.js: the closed vocabulary of error codes, and refusals as values. A `CliError` is its
-- code; the English message and details that it carries are not modelled.
use vcs_lab.Prelude.{◌≡◌, refl, ap, Bool, true, false}

-- `ERROR_CODES`.
pub data ErrorCode : Type 0 where
  usage_missing_argument usage_unknown_command usage_conflicting_options : ErrorCode
  usage_invalid_option_value : ErrorCode
  not_found already_exists no_match ambiguous_match nothing_pending : ErrorCode
  malformed_input invalid_identifier unsafe_input path_outside_repository : ErrorCode
  integrity_check_failed : ErrorCode
  unknown_schema_version wrong_record_family resource_bound_exceeded no_common_version : ErrorCode
  dirty_worktree precondition_not_met operation_in_progress notes_locked : ErrorCode
  workspace_registry_locked no_operation_pending operation_state_invalid : ErrorCode
  git_operation_active out_of_band_change repository_mismatch : ErrorCode
  stale_forecast stale_overlay stale_input stale_manifest : ErrorCode
  conflict_paused interactive_paused conflict_blocked approval_required : ErrorCode
  manual_review_required : ErrorCode
  identity_not_preserved identity_conflict : ErrorCode
  git_unavailable git_command_failed path_length_exceeded revision_not_resolved : ErrorCode
  git_response_malformed session_unavailable : ErrorCode
  unsupported_feature unsupported_repository_shape unsupported_range : ErrorCode
  internal_invariant : ErrorCode

-- A call that returns, or that throws a `CliError`.
pub data Result {ℓ} (A : Type ℓ) : Type ℓ where
  err : ErrorCode → Result A
  ok : A → Result A

-- The rest of a function runs on what the call returned; a throw leaves the function.
infixl 5 ◌>>=◌
abbrev pub ◌>>=◌ {κ ℓ} : {B : Type κ} {A : Type ℓ} → Result A → (A → Result B) → Result B
err thrown >>= rest = err thrown
ok value >>= rest = rest value

infixl 5 ◌>>◌
abbrev pub ◌>>◌ {ℓ} : {A : Type ℓ} → Result (Unit {0}) → Result A → Result A
check >> rest = check >>= λ done. rest

-- `if (test) throw new CliError(..., { code })`.
abbrev pub throw_if : Bool → ErrorCode → Result (Unit {0})
throw_if true c = err c
throw_if false c = ok tt

-- When a chain of two calls returned, both did.
pub bind-eq-ok {κ ℓ} :
    {B : Type κ} {A : Type ℓ} (call : Result A) (rest : A → Result B) {result : B}
    → (call >>= rest) ≡ ok result
    → (value : A) × (call ≡ ok value) × (rest value ≡ ok result)
bind-eq-ok (err thrown) rest returned = cc
bind-eq-ok (ok value) rest returned = (value, refl, returned)

pub ok-injective {ℓ} : {A : Type ℓ} {a b : A} → ok a ≡ ok b → a ≡ b
ok-injective {a = a} h = ap (λ r. elim r [ ok x ↦ x | err c ↦ a ]) h

pub throw_if-eq-ok :
    (test : Bool) (c : ErrorCode) (u : Unit {0}) → throw_if test c ≡ ok u → test ≡ false
throw_if-eq-ok true c u h = cc
throw_if-eq-ok false c u h = refl

-- ===== src/RebaseJournal/Session.antt =====
-- A run of a rebase command: the operation in memory, the journal on disk (src/rebase-state.js) and the
-- world. A throw keeps what was done before it.
use vcs_lab.Prelude.{Bool, true, false, not, Option, none, some, List, [], ◌∷◌}
use vcs_lab.Errors.{ErrorCode, Result, ok, err, git_command_failed, internal_invariant}
use vcs_lab.RebaseJournal.{RunState, Join, Current, Operation, get_elem?}
use vcs_lab.RebaseProgram.{ProgramStep}
use vcs_lab.RebaseJournal.Host.{GitCommand, Call, Host}

pub record Session (World : Type 0) : Type 0 where
  pub operation : Operation
  pub disk : Option Operation
  pub world : World
  -- `phaseRecorded` of `runRebaseQueue`
  pub recorded : Bool

abbrev pub M : Type 0 → Type 0 → Type 0
M World A = Session World → Result A × Session World

module _ {World : Type 0} where
  unfoldable pub pure : {A : Type 0} → A → M World A
  pure a s = (ok a, s)

  unfoldable pub throw : {A : Type 0} → ErrorCode → M World A
  throw c s = (err c, s)

  -- The rest of a function, on what a call returned.
  abbrev pub bind_result :
      {A B : Type 0} → Result A → Session World → (A → M World B) → Result B × Session World
  bind_result (ok a) s rest = rest a s
  bind_result (err c) s rest = (err c, s)

  infixl 5 ◌>>=◌ ◌>>◌
  unfoldable pub ◌>>=◌ : {A B : Type 0} → M World A → (A → M World B) → M World B
  ◌>>=◌ m rest s = let (r, s') = m s in bind_result r s' rest

  unfoldable pub ◌>>◌ : {B : Type 0} → M World (Unit {0}) → M World B → M World B
  ◌>>◌ m rest s = (m >>= λ _. rest) s

  -- `try { return m } catch (error) { ... }`: the handler gets the error, and what it leaves is thrown.
  abbrev pub catch_result :
      {A : Type 0} → Result A → Session World → (ErrorCode → M World A) → Result A × Session World
  catch_result (ok a) s handler = (ok a, s)
  catch_result (err c) s handler = handler c s

  unfoldable pub catch : {A : Type 0} → M World A → (ErrorCode → M World A) → M World A
  catch m handler s = let (r, s') = m s in catch_result r s' handler

  unfoldable pub gets : {A : Type 0} → (Operation → A) → M World A
  gets f s = (ok (f s.operation), s)

  unfoldable pub modify : (Operation → Operation) → M World (Unit {0})
  modify f s = (ok tt, record s { operation = f s.operation })

  unfoldable pub asks : {A : Type 0} → (World → A) → M World A
  asks f s = (ok (f s.world), s)

  unfoldable pub call : {A : Type 0} → Call World A → M World A
  call f s = let (r, w) = f s.world in (r, record s { world = w })

  -- A call that cannot throw.
  unfoldable pub perform : {A : Type 0} → (World → A × World) → M World A
  perform f s = let (a, w) = f s.world in (ok a, record s { world = w })

  unfoldable pub throw_when : Bool → ErrorCode → M World (Unit {0})
  throw_when true c = throw c
  throw_when false c = pure tt

  unfoldable pub when : Bool → M World (Unit {0}) → M World (Unit {0})
  when true m = m
  when false m = pure tt

  -- `writeRebaseState`.
  unfoldable pub write_state : M World (Unit {0})
  write_state s = (ok tt, record s { disk = some s.operation })

  -- `clearRebaseState`.
  unfoldable pub clear_state : M World (Unit {0})
  clear_state s = (ok tt, record s { disk = none })

  abbrev pub set_state : RunState → M World (Unit {0})
  set_state state = modify (λ o. record o { state = state })

  -- `operation.current`; reading a member of null is a `TypeError`, for which no code is published.
  unfoldable pub from_some : {A : Type 0} → Option A → M World A
  from_some none = throw internal_invariant
  from_some (some a) = pure a

  abbrev pub the_current : M World Current
  the_current = gets (λ o. o.current) >>= from_some

  -- `operation.queue[operation.nextIndex]`.
  abbrev pub current_item : M World ProgramStep
  current_item = gets (λ o. get_elem? o.queue o.next_index) >>= from_some

  abbrev pub join_of : Current → M World Join
  join_of current = from_some current.join

  abbrev pub set_current : Current → M World (Unit {0})
  set_current c = modify (λ o. record o { current = some c })

  module _ (host : Host World) where
    -- `runGit(command, { allowFailure: true })`.
    abbrev pub try_git : GitCommand → M World Bool
    try_git command = perform (host.run command)

    -- `runGit(command)`.
    unfoldable pub run_git : GitCommand → M World (Unit {0})
    run_git command = do succeeded ← try_git command; throw_when (not succeeded) git_command_failed

  -- A loop over a list that does one call for each item.
  unfoldable pub each : {A : Type 0} → (A → M World (Unit {0})) → List A → M World (Unit {0})
  each f [] = pure tt
  each f (a ∷ rest) = do f a; each f rest

-- ===== src/RebaseJournal/Reached.antt =====
-- The journals that the commands of src/rebase-operations.js leave on disk, each command in a process
-- of its own and with the repository in any state.
use vcs_lab.RebaseProgram.{ProgramStep}
use vcs_lab.Prelude.{arith, Bool, true, false, ◌&&◌, ◌≡◌, sym, List, Option, none, some, Text}
use mathlib.Core.Path.{subst}
use vcs_lab.Errors.{Result, ok, err}
use vcs_lab.RebaseJournal.{Operation, Receipt}
use vcs_lab.RebaseJournal.Host.{Host}
use vcs_lab.RebaseJournal.Session.{Session}
use vcs_lab.RebaseJournal.Starting.{StartOptions, start_rebase}
use vcs_lab.RebaseJournal.Continuing.{ContinueOptions, continue_rebase}
use vcs_lab.RebaseJournal.Aborting.{abort_rebase}
use vcs_lab.RebaseJournal.Ledger.{
  awaits, is_continuable, ledger, IsTracked, item_kind, FitsKind, Resumable, DiskSound, Leaves,
}
use vcs_lab.RebaseJournal.Checked.{Kept}
use vcs_lab.RebaseJournal.Completed.{Returned}
use vcs_lab.RebaseJournal.Begun.{Begun, start_rebase-Begun}
use vcs_lab.RebaseJournal.Resumed.{Continued, continue_rebase-Continued}
use vcs_lab.RebaseJournal.Aborted.{Aborted, Held, abort_rebase-Aborted}

-- The commands that write the journal.
pub data Command : Type 0 where
  start : StartOptions → Command
  continue : ContinueOptions → Command
  abort : Command

module _ {World : Type 0} (host : Host World) where
  -- The session that a command leaves.
  unfoldable pub after : Command → Session World → Session World
  unfolding start_rebase continue_rebase abort_rebase
  after (start options) s = (start_rebase host options s).1
  after (continue options) s = (continue_rebase host options s).1
  after abort s = (abort_rebase host s).1

  -- A journal that some sequence of commands left.
  pub data Reachable : Option Operation → Type 0 where
    fresh : Reachable none
    step :
        {d : Option Operation} (command : Command) (s : Session World)
        → Reachable d
        → s.disk ≡ d
        → Reachable (after command s).disk

  returned-Kept :
      {A : Type 0} (Q : A → Session World → Type 0) (r : Result A) (t : Session World)
      → Leaves Q Kept r t
      → ((x : A) → Q x t → t.disk ≡ none)
      → DiskSound t.disk
  returned-Kept Q (ok x) t q gone = subst DiskSound (sym (gone x q)) tt
  returned-Kept Q (err c) t kept gone = kept

  gone_of_return :
      (q : List ProgramStep) (r : Option Receipt) (t : Session World)
      → Returned host q r t
      → t.disk ≡ none
  gone_of_return q none t h = absurd h
  gone_of_return q (some r) t h = h.1

  gone_of_continue :
      (options : ContinueOptions) (d : Option Operation) (r : Option Receipt) (t : Session World)
      → Continued host options d r t
      → t.disk ≡ none
  gone_of_continue options none r t h = absurd h
  gone_of_continue options (some o) r t h = gone_of_return o.queue r t h

  after_abort :
      (d : Option Operation) (r : Result Text) (t : Session World)
      → DiskSound d
      → Leaves (Aborted host d) (Held host d) r t
      → DiskSound t.disk
  after_abort d (ok x) t sound h = subst DiskSound (sym h.1) tt
  after_abort d (err c) t sound h = subst DiskSound (sym h) sound

  after-DiskSound :
      (command : Command) (s : Session World) → DiskSound s.disk → DiskSound (after command s).disk
  unfolding after
  after-DiskSound (start options) s sound =
      returned-Kept (Begun host options s) (start_rebase host options s).0
        (start_rebase host options s).1 (start_rebase-Begun host options s sound)
        (λ r begun. gone_of_return _ r (start_rebase host options s).1 begun.returned)
  after-DiskSound (continue options) s sound =
      returned-Kept (Continued host options s.disk) (continue_rebase host options s).0
        (continue_rebase host options s).1 (continue_rebase-Continued host options s sound)
        (λ r h. gone_of_continue options s.disk r (continue_rebase host options s).1 h)
  after-DiskSound abort s sound =
      after_abort s.disk (abort_rebase host s).0 (abort_rebase host s).1 sound
        (abort_rebase-Aborted host s)

  pub Reachable-DiskSound : {d : Option Operation} → Reachable d → DiskSound d
  Reachable-DiskSound fresh = tt
  Reachable-DiskSound (step command s reached at) =
      after-DiskSound command s (subst DiskSound (sym at) (Reachable-DiskSound reached))

-- What a paused journal says: every step before the cursor is accounted for, the cursor is at a pick or a
-- merge, the step that runs is of that kind, and only a pick waits for a person's edit.
pub record Pauses (o : Operation) : Type 0 where
  pub tracked : IsTracked (ledger o)
  pub kind : Bool
  pub at_cursor : item_kind (ledger o) ≡ some kind
  pub current : FitsKind kind o.current
  pub picks_wait : (awaits o.state && kind) ≡ false

waits_false : (w k : Bool) → (w ≡ true → k ≡ false) → (w && k) ≡ false
waits_false w k h = ground arith

Resumable-Pauses : (o : Operation) → Resumable o → Pauses o
Resumable-Pauses o (tracked, (k, kind, fits, waits)) = record {
  tracked = tracked;
  kind = k;
  at_cursor = kind;
  current = fits;
  picks_wait = waits_false _ k waits;
}

module _ {World : Type 0} (host : Host World) where
  -- After any sequence of starts, continuations and aborts, each with the repository in any state,
  -- a journal on disk that can be continued has every step before its cursor accounted for, in the
  -- order of the queue and with the identities kept; its cursor is at a pick or at a merge; the
  -- step that runs is of that kind; and only a pick waits for a person's message or content, or
  -- for an absorption.
  pub Reachable-Pauses :
      (o : Operation) → Reachable host (some o) → is_continuable o.state ≡ true → Pauses o
  Reachable-Pauses o reached paused =
      Resumable-Pauses o ((Reachable-DiskSound host reached).resume paused)

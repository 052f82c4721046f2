-- ===== src/RebaseJournal/Checked.antt =====
-- The checks that `continueRebase` and `abortRebase` begin with: they read the journal and leave it.
use vcs_lab.Prelude.{◌≡◌, refl, sym, Bool, true, false, Option, none, some, Text}
use mathlib.Core.Path.{subst}
use vcs_lab.Errors.{ErrorCode}
use vcs_lab.RebaseJournal.{Operation}
use vcs_lab.RebaseJournal.Host.{Host}
use vcs_lab.RebaseJournal.Session.{Session, M, pure, throw, ◌>>=◌, ◌>>◌, gets, modify, throw_when}
use vcs_lab.RebaseJournal.Checks.{
  load_journal, from_branch, current_branch, require_operation_branch, require_pending_rebase,
}
use vcs_lab.RebaseJournal.Ledger.{DiskSound, Leaves, Leaves-same}
use vcs_lab.RebaseJournal.Between.{outcome-bind}
use vcs_lab.RebaseJournal.Quiet.{Quiet, quiets}

pub same_journal : {o p : Operation} → some o ≡ some p → o ≡ p
same_journal h = cc h

-- The journal is in memory.
abbrev pub Loaded : Option Operation → Operation → Option Operation → Type 0
Loaded d o disk = (d ≡ some o) × (disk ≡ d)

module _ {World : Type 0} where
  abbrev pub Kept : Session World → Type 0
  Kept t = DiskSound t.disk

  -- What a call that changes neither the operation nor the journal leaves.
  pub unchanged_after :
      {A : Type 0} (P : Operation → Option Operation → Type 0) (m : M World A) (s : Session World)
      → Quiet m
      → P s.operation s.disk
      → Leaves (λ _ t. P t.operation t.disk) (λ t. P t.operation t.disk) (m s).0 (m s).1
  unchanged_after P m s q h =
      Leaves-same (λ t. P t.operation t.disk) (m s).0 (m s).1
        (subst (λ o. P o (m s).1.disk) (sym (q.files s).0)
          (subst (λ d. P s.operation d) (sym (q.files s).1) h))

  pub load_journal-Loaded :
      (d : Option Operation) (s : Session World)
      → s.disk ≡ d
      → Leaves
          (λ _ t. Loaded d t.operation t.disk)
          (λ t. t.disk ≡ d)
          (load_journal d s).0
          (load_journal d s).1
  unfolding load_journal modify throw
  load_journal-Loaded none s at = at
  load_journal-Loaded (some o) s at = (refl, at)

  -- The journal is in memory, and what throws leaves it on disk.
  pub record Holds {B : Type 0} (d : Option Operation) (Q : B → Session World → Type 0)
      (m : M World B) : Type 0 where
    pub holds :
        (t : Session World)
        → Loaded d t.operation t.disk
        → Leaves Q (λ u. u.disk ≡ d) (m t).0 (m t).1

  pub Holds-bind :
      {A B : Type 0} {d : Option Operation} {Q : B → Session World → Type 0} {m : M World A}
      {f : A → M World B}
      → Quiet m
      → ((x : A) → Holds d Q (f x))
      → Holds d Q (m >>= f)
  unfolding ◌>>=◌
  Holds-bind {d = d} {Q = Q} {m = m} {f = f} quiet h = record {
    holds = λ t at.
        outcome-bind (λ _ u. Loaded d u.operation u.disk) Q (λ u. Loaded d u.operation u.disk)
          (λ u. u.disk ≡ d) (m t).0 (m t).1 f (unchanged_after (Loaded d) m t quiet at)
          (λ x u v. (h x).holds u v) (λ _ e. e.1);
  }

  pub Holds-then :
      {B : Type 0} {d : Option Operation} {Q : B → Session World → Type 0} {m : M World (Unit {0})}
      {f : M World B}
      → Quiet m
      → Holds d Q f
      → Holds d Q (m >> f)
  unfolding ◌>>◌
  Holds-then quiet h = Holds-bind quiet (λ _. h)

  -- What follows a test knows that it passed.
  pub Holds-test :
      {B : Type 0} {d : Option Operation} {Q : B → Session World → Type 0} (b : Bool)
      (c : ErrorCode) {f : M World B}
      → (b ≡ false → Holds d Q f)
      → Holds d Q (throw_when b c >> f)
  unfolding throw_when throw pure ◌>>◌ ◌>>=◌
  Holds-test true c h = record { holds = λ t at. at.1 }
  Holds-test false c h = record { holds = λ t at. (h refl).holds t at }

  pub Holds-gets :
      {B : Type 0} {d : Option Operation} {Q : B → Session World → Type 0}
      {f : Operation → M World B}
      → ((o : Operation) → d ≡ some o → Holds d Q (f o))
      → Holds d Q (gets (λ o. o) >>= f)
  unfolding ◌>>=◌ gets
  Holds-gets h = record { holds = λ t at. (h t.operation at.0).holds t at }

  -- A command that begins with `requirePendingRebase`.
  pub require_pending-outcome :
      {B : Type 0} (Q : B → Session World → Type 0) (m : M World B) (s : Session World)
      → Holds s.disk Q m
      → Leaves Q
          (λ t. t.disk ≡ s.disk)
          ((require_pending_rebase >> m) s).0
          ((require_pending_rebase >> m) s).1
  unfolding require_pending_rebase ◌>>=◌ ◌>>◌
  require_pending-outcome Q m s h =
      outcome-bind (λ _ t. Loaded s.disk t.operation t.disk) Q (λ t. t.disk ≡ s.disk)
        (λ t. t.disk ≡ s.disk) (load_journal s.disk s).0 (load_journal s.disk s).1 (λ _. m)
        (load_journal-Loaded s.disk s refl) (λ _ t loaded. h.holds t loaded) (λ _ h. h)

  module _ (host : Host World) where
    from_branch-Quiet : (ref name : Option Text) → Quiet (from_branch host ref name)
    unfolding throw pure
    from_branch-Quiet (some ref) (some name) = record { files = λ s. (refl, refl) }
    from_branch-Quiet none name = record { files = λ s. (refl, refl) }
    from_branch-Quiet (some ref) none = record { files = λ s. (refl, refl) }

    current_branch-Quiet : Quiet (current_branch host)
    unfolding current_branch
    current_branch-Quiet = search (quiets, from_branch-Quiet) depth 20

    pub require_operation_branch-Quiet : Quiet (require_operation_branch host)
    unfolding require_operation_branch
    require_operation_branch-Quiet = search (quiets, current_branch-Quiet) depth 20

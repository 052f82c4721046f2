-- ===== src/RebaseJournal/Between.antt =====
-- Between two steps of the rebase of src/rebase-operations.js; and the rules for a call and for what
-- follows it.
use vcs_lab.Prelude.{◌≡◌, refl, sym, ◌∙◌, arith, ℕ, Bool, true, false, Option, none, some, List}
use vcs_lab.Errors.{Result, ok, err}
use vcs_lab.RebaseProgram.{ProgramStep}
use vcs_lab.RebaseJournal.{RunState, applying, Operation}
use vcs_lab.RebaseJournal.Session.{Session, M, pure, throw, bind_result, from_some}
use vcs_lab.RebaseJournal.Ledger.{
  is_applying, is_continuable, Ledger, ledger, IsTracked, IsSound, DiskSound, Safe, Under, Leaves,
}

-- Between two steps.
pub record Ready {World : Type 0} (q : List ProgramStep) (n : ℕ) (s : Session World) : Type 0 where
  pub tracked : IsTracked (ledger s.operation)
  pub queue : s.operation.queue ≡ q
  pub index : s.operation.next_index ≡ n
  pub idle : is_continuable s.operation.state ≡ false
  pub vacant : s.operation.current ≡ none
  pub disk : DiskSound s.disk

pub idle_of_applying : (state : RunState) → is_applying state ≡ true → is_continuable state ≡ false
idle_of_applying applying h = refl
idle_of_applying _ h = ground arith

pub idle-IsSound : {o : Operation} → is_continuable o.state ≡ false → IsSound o
idle-IsSound h = record { resume = λ c. absurd (cc (sym h ∙ c)) }

module _ {World : Type 0} where
  -- What holds when the end of a step throws: the disk is sound, and so is memory, if the step was
  -- being applied.
  pub record Spoiled (a : Bool) (t : Session World) : Type 0 where
    pub disk : DiskSound t.disk
    pub memory : a ≡ true → IsSound t.operation

  pub Safe-Spoiled : {a : Bool} (t : Session World) → Safe t → Spoiled a t
  Safe-Spoiled t h = record { disk = h.disk; memory = λ _. h.memory }

  pub outcome-bind :
      {A B : Type 0} (P : A → Session World → Type 0) (Q : B → Session World → Type 0)
      (E F : Session World → Type 0) (r : Result A) (s : Session World) (f : A → M World B)
      → Leaves P E r s
      → ((x : A) (t : Session World) → P x t → Leaves Q F (f x t).0 (f x t).1)
      → ((t : Session World) → E t → F t)
      → Leaves Q F (bind_result r s f).0 (bind_result r s f).1
  outcome-bind P Q E F (ok x) s f p h g = h x s p
  outcome-bind P Q E F (err c) s f p h g = g s p

  pub from_some-outcome :
      {A B : Type 0} (Q : B → Session World → Type 0) (E : Session World → Type 0) (o : Option A)
      (t : Session World) (f : A → M World B)
      → E t
      → ((x : A) → o ≡ some x → Leaves Q E (f x t).0 (f x t).1)
      → Leaves Q E
          (bind_result (from_some o t).0 (from_some o t).1 f).0
          (bind_result (from_some o t).0 (from_some o t).1 f).1
  unfolding from_some throw pure
  from_some-outcome Q E none t f e h = e
  from_some-outcome Q E (some x) t f e h = h x refl

  pub Under-world :
      {l : Ledger} {k a : Bool} {s : Session World} (w : World)
      → Under l k a s
      → Under l k a (record s { world = w })
  Under-world w u = record {
    same = u.same;
    fits = u.fits;
    waits = u.waits;
    applies = u.applies;
    disk = u.disk;
  }

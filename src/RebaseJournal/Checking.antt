-- ===== src/RebaseJournal/Checking.antt =====
-- The rules for what `startRebaseInSession` of src/rebase-operations.js calls: checks that change nothing,
-- and calls between two steps.
use vcs_lab.Prelude.{◌≡◌, refl, sym, ◌∙◌, ap, ℕ, Bool, true, false, List}
use mathlib.Core.Path.{subst}
use vcs_lab.Errors.{ErrorCode, Result, ok, err}
use vcs_lab.RebaseProgram.{ProgramStep}
use vcs_lab.RebaseJournal.{RunState, Operation}
use vcs_lab.RebaseJournal.Session.{
  Session, M, pure, throw, ◌>>=◌, ◌>>◌, bind_result, modify, asks, throw_when, when, write_state,
  set_state,
}
use vcs_lab.RebaseJournal.Absorbing.{lift}
use vcs_lab.RebaseJournal.Ledger.{is_continuable, ledger, IsTracked, DiskSound, Leaves}
use vcs_lab.RebaseJournal.Between.{Ready, outcome-bind, idle-IsSound}
use vcs_lab.RebaseJournal.Quiet.{SameFiles, Quiet}
use vcs_lab.RebaseJournal.Checked.{Kept}

module _ {World : Type 0} where
  -- A check: it changes nothing at all.
  pub record Reads {A : Type 0} (m : M World A) : Type 0 where
    pub unchanged : (s : Session World) → (m s).1 ≡ s

  pub Reads-pure : {A : Type 0} (x : A) → Reads (pure {World = World} x)
  unfolding pure
  Reads-pure x = record { unchanged = λ s. refl }

  pub Reads-asks : {A : Type 0} (f : World → A) → Reads (asks f)
  unfolding asks
  Reads-asks f = record { unchanged = λ s. refl }

  pub Reads-lift : {A : Type 0} (r : Result A) → Reads (lift {World = World} r)
  Reads-lift r = record { unchanged = λ s. refl }

  pub Reads-throw_when : (b : Bool) (c : ErrorCode) → Reads (throw_when {World = World} b c)
  unfolding throw_when throw pure
  Reads-throw_when true c = record { unchanged = λ s. refl }
  Reads-throw_when false c = record { unchanged = λ s. refl }

  pub Reads-when : (b : Bool) {m : M World (Unit {0})} → Reads m → Reads (when b m)
  unfolding when
  Reads-when true h = h
  Reads-when false h = Reads-pure tt

  bind-unchanged :
      {A B : Type 0} (r : Result A) (s t : Session World) (f : A → M World B)
      → t ≡ s
      → ((x : A) → Reads (f x))
      → (bind_result r t f).1 ≡ s
  bind-unchanged (ok x) s t f h q = (q x).unchanged t ∙ h
  bind-unchanged (err c) s t f h q = h

  pub Reads-bind :
      {A B : Type 0} {m : M World A} {f : A → M World B}
      → Reads m
      → ((x : A) → Reads (f x))
      → Reads (m >>= f)
  unfolding ◌>>=◌
  Reads-bind {m = m} {f = f} hm hf = record {
    unchanged = λ s. bind-unchanged (m s).0 s (m s).1 f (hm.unchanged s) hf;
  }

  -- A check that threw leaves the session; one that passed says what it found.
  pub Reads-outcome :
      {A B : Type 0} (Q : B → Session World → Type 0) (E : Session World → Type 0) (m : M World A)
      (f : A → M World B) (s : Session World)
      → Reads m
      → E s
      → ((x : A) → (m s).0 ≡ ok x → Leaves Q E (f x s).0 (f x s).1)
      → Leaves Q E (bind_result (m s).0 (m s).1 f).0 (bind_result (m s).0 (m s).1 f).1
  Reads-outcome {A} Q E m f s reads e h = both (m s).0 (m s).1 refl (reads.unchanged s)
    where
      both :
          (r : Result A) (t : Session World)
          → (m s).0 ≡ r
          → t ≡ s
          → Leaves Q E (bind_result r t f).0 (bind_result r t f).1
      both (ok x) t at same = subst (λ v. Leaves Q E (f x v).0 (f x v).1) (sym same) (h x at)
      both (err c) t at same = subst E (sym same) e

  pub passed_test :
      (b : Bool) (c : ErrorCode) (s : Session World) → (throw_when b c s).0 ≡ ok tt → b ≡ false
  unfolding throw_when throw
  passed_test true c s h = absurd (cc h)
  passed_test false c s h = refl

  module _ (q : List ProgramStep) (n : ℕ) where
    moved-Ready : (s t : Session World) → SameFiles s t → Ready q n s → Ready q n t
    moved-Ready s t same r = record {
      tracked = subst (λ o. IsTracked (ledger o)) (sym same.0) r.tracked;
      queue = ap (λ (o : Operation). o.queue) same.0 ∙ r.queue;
      index = ap (λ (o : Operation). o.next_index) same.0 ∙ r.index;
      idle = ap (λ (o : Operation). is_continuable o.state) same.0 ∙ r.idle;
      vacant = ap (λ (o : Operation). o.current) same.0 ∙ r.vacant;
      disk = subst DiskSound (sym same.1) r.disk;
    }

    -- A call between two steps that takes no step.
    pub record Idles {A : Type 0} (m : M World A) : Type 0 where
      pub idles : (s : Session World) → Ready q n s → Leaves (λ _. Ready q n) Kept (m s).0 (m s).1

    pub Idles-Quiet : {A : Type 0} {m : M World A} → Quiet m → Idles m
    Idles-Quiet {m = m} quiet = record {
      idles = λ s r. both (m s).0 (m s).1 (moved-Ready s (m s).1 (quiet.files s) r);
    }
      where
        both :
            {A : Type 0} (r : Result A) (t : Session World)
            → Ready q n t
            → Leaves (λ _. Ready q n) Kept r t
        both (ok x) t r = r
        both (err c) t r = r.disk

    pub Idles-state :
        (state : RunState) → is_continuable state ≡ false → Idles (set_state {World = World} state)
    unfolding modify
    Idles-state state h = record {
      idles = λ s r. record {
        tracked = r.tracked;
        queue = r.queue;
        index = r.index;
        idle = h;
        vacant = r.vacant;
        disk = r.disk;
      };
    }

    pub Idles-write : Idles (write_state {World = World})
    unfolding write_state
    Idles-write = record {
      idles = λ s r. record {
        tracked = r.tracked;
        queue = r.queue;
        index = r.index;
        idle = r.idle;
        vacant = r.vacant;
        disk = idle-IsSound r.idle;
      };
    }

    pub Idles-then :
        {B : Type 0} {m : M World (Unit {0})} {f : M World B} → Idles m → Idles f → Idles (m >> f)
    unfolding ◌>>◌ ◌>>=◌
    Idles-then {m = m} {f = f} hm hf = record {
      idles = λ s r.
          outcome-bind (λ _. Ready q n) (λ _. Ready q n) Kept Kept (m s).0 (m s).1 (λ _. f)
            (hm.idles s r) (λ _ t v. hf.idles t v) (λ _ h. h);
    }

  pub outcome-map :
      {A : Type 0} (P Q : A → Session World → Type 0) (E : Session World → Type 0) (r : Result A)
      (s : Session World)
      → Leaves P E r s
      → ((x : A) (t : Session World) → P x t → Q x t)
      → Leaves Q E r s
  outcome-map P Q E (ok x) s p h = h x s p
  outcome-map P Q E (err c) s p h = p

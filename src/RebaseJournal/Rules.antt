-- ===== src/RebaseJournal/Rules.antt =====
-- The rules by which the calls inside one step of `runRebaseQueue` leave the ledger as it is.
use vcs_lab.Prelude.{
  ◌≡◌, sym, ◌∙◌, ap, Bool, true, false, Option, none, some, List, [], ◌∷◌, if◌then◌else◌, is_some,
}
use mathlib.Core.Path.{subst}
use vcs_lab.Errors.{ErrorCode, Result, ok, err}
use vcs_lab.RebaseJournal.{RunState, Current, Operation}
use vcs_lab.RebaseJournal.Host.{Call}
use vcs_lab.RebaseJournal.Session.{
  Session, M, pure, throw, ◌>>=◌, ◌>>◌, bind_result, gets, modify, asks, call, perform, throw_when,
  when, write_state, set_state, from_some, the_current, set_current, each,
}
use vcs_lab.RebaseJournal.Absorbing.{lift}
use vcs_lab.RebaseJournal.Ledger.{
  awaits, Ledger, IsTracked, item_kind, FitsKind, IsSound, Safe, Under, Leaves, Started,
}

module _ {World : Type 0} (l : Ledger) (k : Bool) where
  pub record Stays (a : Bool) {A : Type 0} (m : M World A) : Type 0 where
    pub holds : (s : Session World) → Under l k a s → Leaves (λ _. Under l k a) Safe (m s).0 (m s).1

  pub record Stops {A : Type 0} (m : M World A) : Type 0 where
    pub throws : (s : Session World) → Under l k false s → Leaves (λ _ t. ⊥) Safe (m s).0 (m s).1

never-returns :
    {World A : Type 0} (l : Ledger) (k a : Bool) (r : Result A) (s : Session World)
    → Leaves (λ _ t. ⊥) Safe r s
    → Leaves (λ _. Under l k a) Safe r s
never-returns l k a (ok x) s h = absurd h
never-returns l k a (err c) s h = h

module _ {World : Type 0} {l : Ledger} {k : Bool} where
  pub Under-weaken : {a : Bool} {s : Session World} → Under l k a s → Under l k false s
  Under-weaken u = record {
    same = u.same;
    fits = u.fits;
    waits = u.waits;
    applies = λ h. absurd (cc h);
    disk = u.disk;
  }

  module _ ⦃started : Started l k⦄ where
    pub Under-IsSound : {a : Bool} {s : Session World} → Under l k a s → IsSound s.operation
    Under-IsSound {s = s} u = record {
      resume = λ h. (
        subst IsTracked (sym u.same) started.tracked,
        (k, ap item_kind u.same ∙ started.kind, u.fits, u.waits),
      );
    }

    pub Under-Safe : {a : Bool} {s : Session World} → Under l k a s → Safe s
    Under-Safe u = record { memory = Under-IsSound u; disk = u.disk }

    pub Stays-pure : {a : Bool} {A : Type 0} (x : A) → Stays l k a (pure {World = World} x)
    unfolding pure
    Stays-pure x = record { holds = λ s u. u }

    pub Stays-asks : {a : Bool} {A : Type 0} (f : World → A) → Stays l k a (asks f)
    unfolding asks
    Stays-asks f = record { holds = λ s u. u }

    pub Stays-gets :
        {a : Bool} {A : Type 0} (f : Operation → A) → Stays l k a (gets {World = World} f)
    unfolding gets
    Stays-gets f = record { holds = λ s u. u }

    pub Stays-perform : {a : Bool} {A : Type 0} (f : World → A × World) → Stays l k a (perform f)
    unfolding perform
    Stays-perform f = record {
      holds = λ s u. record {
        same = u.same;
        fits = u.fits;
        waits = u.waits;
        applies = u.applies;
        disk = u.disk;
      };
    }

    outcome-both :
        {a : Bool} {A : Type 0} (r : Result A) (s : Session World)
        → Under l k a s
        → Leaves (λ _. Under l k a) Safe r s
    outcome-both (ok x) s u = u
    outcome-both (err c) s u = Under-Safe u

    pub Stays-call : {a : Bool} {A : Type 0} (f : Call World A) → Stays l k a (call f)
    unfolding call
    Stays-call f = record {
      holds = λ s u. outcome-both _ _ (record {
        same = u.same;
        fits = u.fits;
        waits = u.waits;
        applies = u.applies;
        disk = u.disk;
      });
    }

    pub Stays-lift : {a : Bool} {A : Type 0} (r : Result A) → Stays l k a (lift {World = World} r)
    Stays-lift r = record { holds = λ s u. outcome-both r s u }

    pub Stays-throw :
        {a : Bool} {A : Type 0} (c : ErrorCode) → Stays l k a (throw {World = World} {A = A} c)
    unfolding throw
    Stays-throw c = record { holds = λ s u. Under-Safe u }

    pub Stays-throw_when :
        {a : Bool} (b : Bool) (c : ErrorCode) → Stays l k a (throw_when {World = World} b c)
    unfolding throw_when throw pure
    Stays-throw_when true c = record { holds = λ s u. Under-Safe u }
    Stays-throw_when false c = record { holds = λ s u. u }

    pub Stays-from_some :
        {a : Bool} {A : Type 0} (o : Option A) → Stays l k a (from_some {World = World} o)
    unfolding from_some throw pure
    Stays-from_some none = record { holds = λ s u. Under-Safe u }
    Stays-from_some (some x) = record { holds = λ s u. u }

    pub Stays-write_state : {a : Bool} → Stays l k a (write_state {World = World})
    unfolding write_state
    Stays-write_state = record {
      holds = λ s u. record {
        same = u.same;
        fits = u.fits;
        waits = u.waits;
        applies = u.applies;
        disk = Under-IsSound u;
      };
    }

    bind-outcome :
        {a : Bool} {A B : Type 0} (r : Result A) (s : Session World) (f : A → M World B)
        → Leaves (λ _. Under l k a) Safe r s
        → ((x : A) → Stays l k a (f x))
        → Leaves (λ _. Under l k a) Safe (bind_result r s f).0 (bind_result r s f).1
    bind-outcome (ok x) s f u h = (h x).holds s u
    bind-outcome (err c) s f u h = u

    pub Stays-bind :
        {a : Bool} {A B : Type 0} {m : M World A} {f : A → M World B}
        → Stays l k a m
        → ((x : A) → Stays l k a (f x))
        → Stays l k a (m >>= f)
    unfolding ◌>>=◌
    Stays-bind {m = m} {f = f} hm hf = record {
      holds = λ s u. bind-outcome (m s).0 (m s).1 f (hm.holds s u) hf;
    }

    pub Stays-then :
        {a : Bool} {B : Type 0} {m : M World (Unit {0})} {n : M World B}
        → Stays l k a m
        → Stays l k a n
        → Stays l k a (m >> n)
    unfolding ◌>>◌ ◌>>=◌
    Stays-then {m = m} {n = n} hm hn = record {
      holds = λ s u. bind-outcome (m s).0 (m s).1 (λ _. n) (hm.holds s u) (λ _. hn);
    }

    pub Stays-when :
        {a : Bool} (b : Bool) {m : M World (Unit {0})} → Stays l k a m → Stays l k a (when b m)
    unfolding when pure
    Stays-when true h = h
    Stays-when false h = record { holds = λ s u. u }

    pub Stays-if :
        {a : Bool} {A : Type 0} (b : Bool) {m n : M World A}
        → Stays l k a m
        → Stays l k a n
        → Stays l k a (if b then m else n)
    Stays-if true h h' = h
    Stays-if false h h' = h'

    pub Stays-Stops : {a : Bool} {A : Type 0} {m : M World A} → Stops l k m → Stays l k a m
    Stays-Stops {a = a} {m = m} h = record {
      holds = λ s u. never-returns l k a (m s).0 (m s).1 (h.throws s (Under-weaken u));
    }

    pub Stops-throw : {A : Type 0} (c : ErrorCode) → Stops l k (throw {World = World} {A = A} c)
    unfolding throw
    Stops-throw c = record { throws = λ s u. Under-Safe u }

    stop-outcome :
        {A B : Type 0} (r : Result A) (s : Session World) (f : A → M World B)
        → Leaves (λ _. Under l k false) Safe r s
        → ((x : A) → Stops l k (f x))
        → Leaves (λ _ t. ⊥) Safe (bind_result r s f).0 (bind_result r s f).1
    stop-outcome (ok x) s f u h = (h x).throws s u
    stop-outcome (err c) s f u h = u

    pub Stops-bind :
        {A B : Type 0} {m : M World A} {f : A → M World B}
        → Stays l k false m
        → ((x : A) → Stops l k (f x))
        → Stops l k (m >>= f)
    unfolding ◌>>=◌
    Stops-bind {m = m} {f = f} hm hf = record {
      throws = λ s u. stop-outcome (m s).0 (m s).1 f (hm.holds s u) hf;
    }

    pub Stops-then :
        {B : Type 0} {m : M World (Unit {0})} {n : M World B}
        → Stays l k false m
        → Stops l k n
        → Stops l k (m >> n)
    unfolding ◌>>◌ ◌>>=◌
    Stops-then {m = m} {n = n} hm hn = record {
      throws = λ s u. stop-outcome (m s).0 (m s).1 (λ _. n) (hm.holds s u) (λ _. hn);
    }

    under-state :
        (state : RunState)
        → (awaits state ≡ true → k ≡ false)
        → Stays l k false (set_state {World = World} state)
    unfolding modify
    under-state state h = record {
      holds = λ s u. record {
        same = u.same;
        fits = u.fits;
        waits = h;
        applies = λ e. absurd (cc e);
        disk = u.disk;
      };
    }

    -- A state in which nothing waits may be set on the way to a throw.
    pub Stays-set_state :
        (state : RunState)
        → awaits state ≡ false
        → Stays l k false (set_state {World = World} state)
    Stays-set_state state h = under-state state (λ e. cc)

    -- A pick may wait.
    pub Stays-set_waiting :
        (state : RunState) → k ≡ false → Stays l k false (set_state {World = World} state)
    Stays-set_waiting state h = under-state state (λ e. h)

    current-outcome :
        {a : Bool} {A : Type 0} (o : Option Current) (s : Session World) (f : Current → M World A)
        → FitsKind k o
        → Under l k a s
        → ((c : Current) → is_some c.join ≡ k → Stays l k a (f c))
        → Leaves
            (λ _. Under l k a)
            Safe
            (bind_result (from_some o s).0 (from_some o s).1 f).0
            (bind_result (from_some o s).0 (from_some o s).1 f).1
    unfolding from_some throw pure
    current-outcome none s f fits u h = Under-Safe u
    current-outcome (some c) s f fits u h = (h c fits).holds s u

    -- What reads the current step knows its kind.
    pub Stays-current :
        {a : Bool} {A : Type 0} {f : Current → M World A}
        → ((c : Current) → is_some c.join ≡ k → Stays l k a (f c))
        → Stays l k a (the_current >>= f)
    unfolding ◌>>=◌ gets
    Stays-current {f = f} h = record {
      holds = λ s u. current-outcome s.operation.current s f u.fits u h;
    }

    stop-current :
        {A : Type 0} (o : Option Current) (s : Session World) (f : Current → M World A)
        → FitsKind k o
        → Under l k false s
        → ((c : Current) → is_some c.join ≡ k → Stops l k (f c))
        → Leaves
            (λ _ t. ⊥)
            Safe
            (bind_result (from_some o s).0 (from_some o s).1 f).0
            (bind_result (from_some o s).0 (from_some o s).1 f).1
    unfolding from_some throw pure
    stop-current none s f fits u h = Under-Safe u
    stop-current (some c) s f fits u h = (h c fits).throws s u

    pub Stops-current :
        {A : Type 0} {f : Current → M World A}
        → ((c : Current) → is_some c.join ≡ k → Stops l k (f c))
        → Stops l k (the_current >>= f)
    unfolding ◌>>=◌ gets
    Stops-current {f = f} h = record {
      throws = λ s u. stop-current s.operation.current s f u.fits u h;
    }

    pub Stays-set_current :
        {a : Bool} (c : Current) → is_some c.join ≡ k → Stays l k a (set_current {World = World} c)
    unfolding modify
    Stays-set_current c h = record {
      holds = λ s u. record {
        same = u.same;
        fits = h;
        waits = u.waits;
        applies = u.applies;
        disk = u.disk;
      };
    }

    pub Stays-each :
        {a : Bool} {A : Type 0} (f : A → M World (Unit {0})) (xs : List A)
        → ((x : A) → Stays l k a (f x))
        → Stays l k a (each f xs)
    unfolding each
    Stays-each f [] h = Stays-pure tt
    Stays-each f (x ∷ xs) h = Stays-then (h x) (Stays-each f xs h)

pub ruleset stays = (
  Stays-pure, Stays-asks, Stays-gets, Stays-perform, Stays-call, Stays-lift, Stays-throw,
  Stays-throw_when, Stays-from_some, Stays-write_state, Stays-bind, Stays-then, Stays-when,
  Stays-set_state, Stays-set_current, Stays-each, Stays-current, Stays-Stops,
)

-- With these a body that ends in a throw is followed to its end.
pub ruleset stops = (
  Stays-asks, Stays-gets, Stays-perform, Stays-call, Stays-write_state, Stays-set_state,
  Stays-set_current, Stops-bind, Stops-then, Stops-throw, Stops-current, Stays-current,
  Stays-set_waiting, Stays-from_some, Stays-throw_when,
)

-- ===== src/RebaseJournal/Loop.antt =====
-- The loop of `runRebaseQueue`: each round passes one step, and the rounds end.
use vcs_lab.Prelude.{
  ◌≡◌, refl, sym, ◌∙◌, ap, arith, ℕ, zero, suc, ◌+◌, ◌≤◌, Bool, true, false, Option, none, some,
  List, Text, length,
}
use mathlib.Core.Path.{subst}
use vcs_lab.Errors.{ErrorCode, Result, ok, err}
use vcs_lab.RebaseProgram.{MergeChange, AbsorbedItem, ProgramStep, run_merge, run_pick, run_omit}
use vcs_lab.Topology.{ResolvedParent, resolve_step_parents}
use vcs_lab.RebaseJournal.{MergeParent, RunState, ForecastStep, change_of, step_of_item, get_elem?}
use vcs_lab.RebaseJournal.Host.{Host}
use vcs_lab.RebaseJournal.Session.{
  Session, M, pure, throw, ◌>>=◌, ◌>>◌, bind_result, gets, from_some, catch, perform,
}
use vcs_lab.RebaseJournal.Absorbing.{apply_absorption, finish_surviving_step}
use vcs_lab.RebaseJournal.Stepping.{
  first_parent, after_pick, after_merge, second_parent, merge_parents, finish_pick,
  rethrow_recorded, join_step, pick_step, run_item, run_round, run_rounds, has_more, while_more,
  finish_join,
}
use vcs_lab.RebaseJournal.Ledger.{
  awaits, is_continuable, FitsKind, At, Ledger, ledger, Safe, Under, Leaves, Started, kind_of,
}
use vcs_lab.RebaseJournal.Rules.{Under-weaken, Under-Safe}
use vcs_lab.RebaseJournal.Kept.{move_to-Stays, apply_absorption-Stays}
use vcs_lab.RebaseJournal.Between.{
  Ready, Spoiled, outcome-bind, from_some-outcome, idle-IsSound, Under-world,
}
use vcs_lab.RebaseJournal.Recorded.{omit_step-Ready}
use vcs_lab.RebaseJournal.Ending.{Ends-then, finish_join-Ends, finish_surviving_step-Ends}
use vcs_lab.RebaseJournal.Rounds.{
  ExpectsUnder, Expects, outcome-catch, outcome-weaken, begin_step-Expects, settle_step-Ready,
}

awaits_not_idle : (state : RunState) → awaits state ≡ true → is_continuable state ≡ false → ⊥
awaits_not_idle state h k = ground arith

module _ {World : Type 0} where
  -- The queue is exhausted.
  pub record Exhausted (q : List ProgramStep) (t : Session World) : Type 0 where
    pub last : ℕ
    pub ready : Ready q last t
    pub at_end : length q ≤ last

  abbrev pub Ended : List ProgramStep → Bool → Session World → Type 0
  Ended q b t = (b ≡ true) × Exhausted q t

module _ {World : Type 0} (host : Host World) where
  Spoiled-Safe : (t : Session World) → Spoiled true t → Safe t
  Spoiled-Safe t h = record { memory = h.memory refl; disk = h.disk }

  rethrow-Safe :
      (Q : Unit {0} → Session World → Type 0) (c : ErrorCode) (t : Session World)
      → Spoiled true t
      → Leaves Q Safe (rethrow_recorded host c t).0 (rethrow_recorded host c t).1
  unfolding rethrow_recorded ◌>>◌ ◌>>=◌ throw
  rethrow-Safe Q c t h = record { memory = h.memory refl; disk = h.disk }

  Ready-Safe : {q : List ProgramStep} {n : ℕ} (s : Session World) → Ready q n s → Safe s
  Ready-Safe s r = record { memory = idle-IsSound r.idle; disk = r.disk }

  module _ {l : Ledger} ⦃at_start : Started l false⦄ (item : ProgramStep) (change : MergeChange)
      (at : At l item) (same : change.commit ≡ (change_of item).commit) where
    after_pick-Ready :
        (expected : Option ForecastStep) (absorbs : List AbsorbedItem) (picked : Bool)
        (s : Session World)
        → Expects l expected
        → Under l false true s
        → Leaves
            (λ _. Ready l.queue (suc l.next_index))
            Safe
            (after_pick host expected change absorbs picked s).0
            (after_pick host expected change absorbs picked s).1
    unfolding after_pick finish_pick catch
    after_pick-Ready expected absorbs true s e u =
        let body = apply_absorption host change absorbs >> finish_surviving_step host in
        outcome-catch (λ _. Ready l.queue (suc l.next_index)) (Spoiled true) Safe (body s).0
          (body s).1 (rethrow_recorded host)
          ((Ends-then {l = l} {k = false} {a = true}
              (apply_absorption-Stays host change absorbs refl)
              (finish_surviving_step-Ends host)).finishes
            s u)
          (λ c t h. rethrow-Safe (λ _. Ready l.queue (suc l.next_index)) c t h)
    after_pick-Ready expected absorbs false s e u =
        settle_step-Ready host item change at same expected s e (Under-weaken u)

    pick_step-Ready :
        (absorbs : List AbsorbedItem) (parent : Text) (s : Session World)
        → Under l false false s
        → Leaves
            (λ _. Ready l.queue (suc l.next_index))
            Safe
            (pick_step host change absorbs parent s).0
            (pick_step host change absorbs parent s).1
    unfolding pick_step ◌>>◌ ◌>>=◌ perform
    pick_step-Ready absorbs parent s u =
        outcome-bind (λ _. Under l false false) _ Safe Safe _ _ _
          ((move_to-Stays {l = l} {k = false} host parent).holds s u)
          (λ _ t v.
            outcome-bind (ExpectsUnder l false true) _ Safe Safe _ _ _
              (begin_step-Expects host change none t refl v)
              (λ expected w x. after_pick-Ready expected absorbs _ _ x.0 (Under-world _ x.1))
              (λ _ h. h))
          (λ _ h. h)

  module _ {l : Ledger} ⦃at_start : Started l true⦄ (item : ProgramStep) (change : MergeChange)
      (at : At l item) (same : change.commit ≡ (change_of item).commit) where
    after_merge-Ready :
        (expected : Option ForecastStep) (parents : List MergeParent) (merged : Bool)
        (s : Session World)
        → Expects l expected
        → Under l true true s
        → Leaves
            (λ _. Ready l.queue (suc l.next_index))
            Safe
            (after_merge host expected change parents merged s).0
            (after_merge host expected change parents merged s).1
    unfolding after_merge
    after_merge-Ready expected parents true s e u =
        outcome-weaken (λ _. Ready l.queue (suc l.next_index)) (Spoiled true) Safe
          (finish_join host change parents s).0 (finish_join host change parents s).1
          ((finish_join-Ends host {a = true} item change parents at same).finishes s u) Spoiled-Safe
    after_merge-Ready expected parents false s e u =
        settle_step-Ready host item change at same expected s e (Under-weaken u)

    join_step-Ready :
        (parent : Text) (parents : List ResolvedParent) (s : Session World)
        → Under l true false s
        → Leaves
            (λ _. Ready l.queue (suc l.next_index))
            Safe
            (join_step host change parent parents s).0
            (join_step host change parent parents s).1
    unfolding join_step ◌>>◌ ◌>>=◌ perform
    join_step-Ready parent parents s u =
        outcome-bind (λ _. Under l true false) _ Safe Safe _ _ _
          ((move_to-Stays {l = l} {k = true} host parent).holds s u)
          (λ _ t v.
            outcome-bind (ExpectsUnder l true true) _ Safe Safe _ _ _
              (begin_step-Expects host change _ _ refl (Under-world _ v))
              (λ expected w x.
                from_some-outcome _ Safe (second_parent parents) w _
                  (Under-Safe {l = l} {k = true} {a = true} x.1)
                  (λ joined found.
                    after_merge-Ready expected (merge_parents parents) _ _ x.0 (Under-world _ x.1)))
              (λ _ h. h))
          (λ _ h. h)

  -- Between two steps, the step at the cursor can start.
  starting :
      {q : List ProgramStep} {n : ℕ} {k : Bool} {item : ProgramStep} {s : Session World}
      → Ready q n s
      → get_elem? q n ≡ some item
      → kind_of (some item) ≡ some k
      → Started (ledger s.operation) k
        × Under (ledger s.operation) k false s
        × At (ledger s.operation) item
  starting {q} {n} {k} {item} {s} r at kind =
      let here : At (ledger s.operation) item =
        ap (λ qs. get_elem? qs s.operation.next_index) r.queue ∙ ap (get_elem? q) r.index ∙ at in
      (
        record { tracked = r.tracked; kind = ap kind_of here ∙ kind },
        record {
          same = refl;
          fits = subst (FitsKind k) (sym r.vacant) tt;
          waits = λ h. absurd (awaits_not_idle _ h r.idle);
          applies = λ h. absurd (cc h);
          disk = r.disk;
        },
        here,
      )

  run_item-Ready :
      {q : List ProgramStep} {n : ℕ} (item : ProgramStep) (parent : Text)
      (parents : List ResolvedParent) (s : Session World)
      → get_elem? q n ≡ some item
      → Ready q n s
      → Leaves
          (λ _. Ready s.operation.queue (suc s.operation.next_index))
          Safe
          (run_item host item parent parents s).0
          (run_item host item parent parents s).1
  unfolding run_item change_of
  run_item-Ready (run_omit step) parent parents s at r =
      omit_step-Ready host _ parent s
        (record {
          tracked = r.tracked;
          queue = refl;
          index = refl;
          idle = r.idle;
          vacant = r.vacant;
          disk = r.disk;
        })
        (ap (λ qs. get_elem? qs s.operation.next_index) r.queue ∙ ap (get_elem? _) r.index ∙ at)
  run_item-Ready (run_merge step change) parent parents s at r =
      let (st, u, here) = starting r at refl in
      join_step-Ready ⦃at_start = st⦄ (run_merge step change) change here refl parent parents s u
  run_item-Ready (run_pick step c absorbs) parent parents s at r =
      let (st, u, here) = starting r at refl in
      pick_step-Ready ⦃at_start = st⦄ (run_pick step c absorbs) _ here refl absorbs parent s u

  lift-outcome :
      {A B : Type 0} (Q : B → Session World → Type 0) (r : Result A) (s : Session World)
      (f : A → M World B)
      → Safe s
      → ((x : A) → Leaves Q Safe (f x s).0 (f x s).1)
      → Leaves Q Safe (bind_result r s f).0 (bind_result r s f).1
  lift-outcome Q (ok x) s f safe h = h x
  lift-outcome Q (err c) s f safe h = safe

  abbrev RanItem :
      ProgramStep → Text → List ResolvedParent → Session World → List ProgramStep → ℕ → Type 0
  RanItem item parent parents s q n =
      Leaves (λ _. Ready q (suc n)) Safe (run_item host item parent parents s).0
        (run_item host item parent parents s).1

  -- One round passes one step.
  pub run_round-Ready :
      {q : List ProgramStep} {n : ℕ} (item : ProgramStep) (s : Session World)
      → get_elem? q n ≡ some item
      → Ready q n s
      → Leaves (λ _. Ready q (suc n)) Safe (run_round host item s).0 (run_round host item s).1
  unfolding run_round ◌>>=◌ gets
  run_round-Ready {q} {n} item s at r =
      lift-outcome (λ _. Ready q (suc n))
        (resolve_step_parents (step_of_item item) s.operation.onto_head s.operation.rewritten) s
        (λ parents.
          from_some (first_parent parents) >>= λ parent. run_item host item parent parents)
        (Ready-Safe s r)
        (λ parents.
          from_some-outcome (λ _. Ready q (suc n)) Safe (first_parent parents) s
            (λ parent. run_item host item parent parents) (Ready-Safe s r)
            (λ parent found.
              subst (λ m. RanItem item parent parents s q m) r.index
                (subst (λ qs. RanItem item parent parents s qs s.operation.next_index) r.queue
                  (run_item-Ready item parent parents s at r))))

  while_more-Ended :
      {q : List ProgramStep} {n : ℕ} (more : Bool) (rest : M World Bool) (s : Session World)
      → has_more s.operation ≡ more
      → Ready q n s
      → (more ≡ true → Leaves (Ended q) Safe (rest s).0 (rest s).1)
      → Leaves (Ended q) Safe (while_more host more rest s).0 (while_more host more rest s).1
  unfolding while_more pure
  while_more-Ended true rest s e r h = h refl
  while_more-Ended {n = n} false rest s e r h =
      (refl, record { last = n; ready = r; at_end = ground (arith, r.index, ap length r.queue) })

  -- With fuel for the rest of the queue, the loop ends at the end of the queue or throws.
  pub run_rounds-Ended :
      {q : List ProgramStep} (fuel n : ℕ) (s : Session World)
      → Ready q n s
      → length q ≤ n + fuel
      → Leaves (Ended q) Safe (run_rounds host fuel s).0 (run_rounds host fuel s).1
  unfolding run_rounds ◌>>=◌ gets
  run_rounds-Ended zero n s r enough = (
    ground (arith, r.index, ap length r.queue),
    record { last = n; ready = r; at_end = omega arith },
  )
  run_rounds-Ended {q} (suc fuel) n s r enough =
      while_more-Ended (has_more s.operation) _ s refl r (λ more.
        from_some-outcome (Ended q) Safe (get_elem? s.operation.queue s.operation.next_index) s
          (λ item. run_round host item >>= λ done. run_rounds host fuel) (Ready-Safe s r)
          (λ item at.
            outcome-bind (λ _. Ready q (suc n)) (Ended q) Safe Safe (run_round host item s).0
              (run_round host item s).1 (λ done. run_rounds host fuel)
              (run_round-Ready item s (here r at) r)
              (λ _ t next. run_rounds-Ended fuel (suc n) t next (omega arith)) (λ _ h. h)))
    where
      here :
          {n : ℕ} {s : Session World} {item : ProgramStep}
          → Ready q n s
          → get_elem? s.operation.queue s.operation.next_index ≡ some item
          → get_elem? q n ≡ some item
      here {n} {s} r at =
          sym (ap (λ qs. get_elem? qs s.operation.next_index) r.queue ∙ ap (get_elem? q) r.index)
          ∙ at

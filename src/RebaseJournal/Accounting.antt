-- ===== src/RebaseJournal/Accounting.antt =====
-- Recording the step at the cursor and moving on keeps the steps before the cursor accounted for.
use vcs_lab.Prelude.{
  ◌≡◌, refl, sym, ◌∙◌, ap, arith, ℕ, zero, suc, ◌+◌, true, some, List, [], ◌∷◌, ◌++◌, map, length,
  length-append, filter-append, All, All-append, Text, ◌≤◌,
}
use mathlib.Core.List.{append-nil, append_assoc, map-append}
use vcs_lab.RebaseProgram.{ProgramStep, run_omit}
use vcs_lab.Topology.{Step}
use vcs_lab.RebaseJournal.{
  AppliedChange, RecreatedEntry, get_elem?, is_executable, executable_steps,
}
use vcs_lab.RebaseJournal.Ledger.{
  picks, joins, pick_commits, merge_commits, first, Ledger, KeepsIdentity, IsTracked,
}

first-suc {ℓ} :
    {A : Type ℓ} (xs : List A) (n : ℕ) (x : A)
    → get_elem? xs n ≡ some x
    → first (suc n) xs ≡ first n xs ++ x ∷ []
first-suc [] n x h = cc
first-suc (y ∷ xs) zero x h = ground arith
first-suc (y ∷ xs) (suc n) x h = ap (λ zs. y ∷ zs) (first-suc xs n x h)

pub first-length {ℓ} : {A : Type ℓ} (xs : List A) (n : ℕ) → length xs ≤ n → first n xs ≡ xs
first-length [] zero h = refl
first-length [] (suc n) h = refl
first-length (x ∷ xs) zero h = absurd (omega arith)
first-length (x ∷ xs) (suc n) h = ap (λ zs. x ∷ zs) (first-length xs n (omega arith))

pick_commits-append :
    (xs ys : List ProgramStep) → pick_commits (xs ++ ys) ≡ pick_commits xs ++ pick_commits ys
pick_commits-append [] ys = refl
pick_commits-append (x ∷ xs) ys =
    rw (pick_commits-append xs ys)
      (sym (append_assoc (picks x) (pick_commits xs) (pick_commits ys)))

merge_commits-append :
    (xs ys : List ProgramStep) → merge_commits (xs ++ ys) ≡ merge_commits xs ++ merge_commits ys
merge_commits-append [] ys = refl
merge_commits-append (x ∷ xs) ys =
    rw (merge_commits-append xs ys)
      (sym (append_assoc (joins x) (merge_commits xs) (merge_commits ys)))

executed-append :
    (xs ys : List ProgramStep)
    → length (executable_steps (xs ++ ys))
      ≡ length (executable_steps xs) + length (executable_steps ys)
unfolding executable_steps
executed-append xs ys = rw (filter-append _ xs ys) (length-append _ _)

-- The step at the cursor, with the ledger that has passed it.
abbrev pub passed : Ledger → ℕ → List AppliedChange → List RecreatedEntry → Ledger
passed l executed applied merges = record l {
  next_index = suc l.next_index;
  executed = executed;
  applied = applied;
  merges = merges;
}

module _ (l : Ledger) (tracked : IsTracked l) where
  passed-IsTracked :
      (item : ProgramStep) (count : ℕ) (apps : List AppliedChange) (entries : List RecreatedEntry)
      → get_elem? l.queue l.next_index ≡ some item
      → count ≡ length (executable_steps (item ∷ []))
      → map (λ a. a.origin_commit) apps ≡ picks item
      → map (λ m. m.origin_commit) entries ≡ joins item
      → All KeepsIdentity apps
      → IsTracked (passed l (l.executed + count) (l.applied ++ apps) (l.merges ++ entries))
  passed-IsTracked item count apps entries at counted picked joined kept =
      let step : first (suc l.next_index) l.queue ≡ first l.next_index l.queue ++ item ∷ [] =
        first-suc l.queue l.next_index item at in
      record {
        executed_exact = rw step (
            omega (
              arith,
              tracked.executed_exact,
              executed-append (first l.next_index l.queue) (item ∷ []),
            ));
        applied_exact = rw step (
            rw
              (
                pick_commits-append (first l.next_index l.queue) (item ∷ []),
                append-nil (picks item),
              )
              (rw (map-append, tracked.applied_exact, picked) refl));
        merges_exact = rw step (
            rw
              (
                merge_commits-append (first l.next_index l.queue) (item ∷ []),
                append-nil (joins item),
              )
              (rw (map-append, tracked.merges_exact, joined) refl));
        identities_kept = All-append KeepsIdentity l.applied apps tracked.identities_kept kept;
      }

  abbrev origins : List AppliedChange → List Text
  origins = map (λ a. a.origin_commit)

  abbrev merged : List RecreatedEntry → List Text
  merged = map (λ m. m.origin_commit)

  pub IsTracked-pick :
      {item : ProgramStep} (a : AppliedChange)
      → get_elem? l.queue l.next_index ≡ some item
      → is_executable item ≡ true
      → a.origin_commit ∷ [] ≡ picks item
      → [] ≡ joins item
      → KeepsIdentity a
      → IsTracked (passed l (suc l.executed) (l.applied ++ a ∷ []) l.merges)
  unfolding executable_steps
  IsTracked-pick {item} a at runs picked joined kept =
      let t = passed-IsTracked item 1 (a ∷ []) [] at (rw runs) picked joined (kept, tt) in
      record {
        executed_exact = omega (arith, t.executed_exact);
        applied_exact = t.applied_exact;
        merges_exact = ap merged (sym (append-nil l.merges)) ∙ t.merges_exact;
        identities_kept = t.identities_kept;
      }

  pub IsTracked-merge :
      {item : ProgramStep} (m : RecreatedEntry)
      → get_elem? l.queue l.next_index ≡ some item
      → is_executable item ≡ true
      → [] ≡ picks item
      → m.origin_commit ∷ [] ≡ joins item
      → IsTracked (passed l (suc l.executed) l.applied (l.merges ++ m ∷ []))
  unfolding executable_steps
  IsTracked-merge {item} m at runs picked joined =
      let t = passed-IsTracked item 1 [] (m ∷ []) at (rw runs) picked joined tt in
      record {
        executed_exact = omega (arith, t.executed_exact);
        applied_exact = ap origins (sym (append-nil l.applied)) ∙ t.applied_exact;
        merges_exact = t.merges_exact;
        identities_kept = tracked.identities_kept;
      }

  pub IsTracked-omit :
      {step : Step}
      → get_elem? l.queue l.next_index ≡ some (run_omit step)
      → IsTracked (passed l l.executed l.applied l.merges)
  unfolding executable_steps
  IsTracked-omit {step} at =
      let t = passed-IsTracked (run_omit step) 0 [] [] at refl refl refl tt in
      record {
        executed_exact = omega (arith, t.executed_exact);
        applied_exact = ap origins (sym (append-nil l.applied)) ∙ t.applied_exact;
        merges_exact = ap merged (sym (append-nil l.merges)) ∙ t.merges_exact;
        identities_kept = tracked.identities_kept;
      }

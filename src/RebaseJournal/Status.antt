-- ===== src/RebaseJournal/Status.antt =====
-- What `rebaseStatus` reports of the progress.
use vcs_lab.Prelude.{
  ◌≡◌, refl, sym, ◌∙◌, ap, arith, ℕ, zero, suc, ◌+◌, List, [], ◌∷◌, ◌++◌, true, some, length,
  filter, filter-append, length-append,
}
use vcs_lab.RebaseProgram.{ProgramStep}
use vcs_lab.RebaseJournal.{Operation, is_executable, executable_steps}
use vcs_lab.RebaseJournal.Checks.{progress_of}
use vcs_lab.RebaseJournal.Ledger.{first, ledger, IsTracked, is_continuable}
use vcs_lab.RebaseJournal.Host.{Host}
use vcs_lab.RebaseJournal.Reached.{Reachable, Reachable-DiskSound}

-- The list without its first elements.
abbrev pub rest : {A : Type 0} → ℕ → List A → List A
rest zero xs = xs
rest (suc n) [] = []
rest (suc n) (x ∷ xs) = rest n xs

first-rest : {A : Type 0} (n : ℕ) (xs : List A) → first n xs ++ rest n xs ≡ xs
first-rest zero xs = refl
first-rest (suc n) [] = refl
first-rest (suc n) (x ∷ xs) = ap (λ ys. x ∷ ys) (first-rest n xs)

executable-split :
    (n : ℕ) (queue : List ProgramStep)
    → length (executable_steps queue)
      ≡ length (executable_steps (first n queue)) + length (executable_steps (rest n queue))
unfolding executable_steps
executable-split n queue =
    ap (λ q. length (filter is_executable q)) (sym (first-rest n queue))
    ∙ ap length (filter-append is_executable (first n queue) (rest n queue))
    ∙ length-append (filter is_executable (first n queue)) (filter is_executable (rest n queue))

progress-IsTracked :
    (o : Operation)
    → IsTracked (ledger o)
    → ((progress_of o).completed + (progress_of o).remaining ≡ (progress_of o).total)
      × ((progress_of o).remaining ≡ length (executable_steps (rest o.next_index o.queue)))
unfolding progress_of
progress-IsTracked o tracked = (
  omega (arith, executable-split o.next_index o.queue, tracked.executed_exact),
  omega (arith, executable-split o.next_index o.queue, tracked.executed_exact),
)

module _ {World : Type 0} (host : Host World) where
  -- For a journal that some sequence of commands left and that can be continued, the completed and
  -- the remaining steps that the status reports add up to the total, and the remaining ones are
  -- the executable steps from the cursor on.
  pub progress_exact :
      (o : Operation)
      → Reachable host (some o)
      → is_continuable o.state ≡ true
      → ((progress_of o).completed + (progress_of o).remaining ≡ (progress_of o).total)
        × ((progress_of o).remaining ≡ length (executable_steps (rest o.next_index o.queue)))
  progress_exact o reached paused =
      progress-IsTracked o ((Reachable-DiskSound host reached).resume paused).0

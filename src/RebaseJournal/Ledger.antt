-- ===== src/RebaseJournal/Ledger.antt =====
-- What the journal of src/rebase-operations.js has to say of its queue: the invariant of the journal, and
-- the rules by which a call of the rebase keeps it.
use vcs_lab.Prelude.{
  ◌≡◌, ℕ, zero, suc, Bool, true, false, Option, none, some, List, [], ◌∷◌, ◌++◌, map, Text, length,
  is_some, All,
}
use vcs_lab.Errors.{Result, ok, err}
use vcs_lab.RebaseProgram.{ProgramStep, run_merge, run_pick}
use vcs_lab.RebaseJournal.{
  RunState, applying, conflicted, awaiting_message, awaiting_content, awaiting_absorption, Current,
  AppliedChange, RecreatedEntry, ForecastApproval, Operation, get_elem?, executable_steps,
}
use vcs_lab.RebaseJournal.Session.{Session}
use vcs_lab.RebaseJournal.Recording.{loses_identity}

-- The states from which `rebase --continue` goes on.
abbrev pub awaits : RunState → Bool
awaits awaiting_message = true
awaits awaiting_content = true
awaits awaiting_absorption = true
awaits _ = false

abbrev pub is_continuable : RunState → Bool
is_continuable conflicted = true
is_continuable awaiting_message = true
is_continuable awaiting_content = true
is_continuable awaiting_absorption = true
is_continuable _ = false

abbrev pub is_applying : RunState → Bool
is_applying applying = true
is_applying _ = false

-- The commits that the picks of a program replay, and the merges that it recreates.
abbrev pub picks : ProgramStep → List Text
picks (run_pick step c absorbs) = c.change.commit ∷ []
picks _ = []

abbrev pub joins : ProgramStep → List Text
joins (run_merge step change) = change.commit ∷ []
joins _ = []

abbrev pub pick_commits : List ProgramStep → List Text
pick_commits [] = []
pick_commits (s ∷ ss) = picks s ++ pick_commits ss

abbrev pub merge_commits : List ProgramStep → List Text
merge_commits [] = []
merge_commits (s ∷ ss) = joins s ++ merge_commits ss

-- The first steps.
abbrev pub first {ℓ} : {A : Type ℓ} → ℕ → List A → List A
first zero xs = []
first (suc n) [] = []
first (suc n) (x ∷ xs) = x ∷ first n xs

-- Whether the step at an index is a merge; none for an omission, and past the end.
abbrev pub kind_of : Option ProgramStep → Option Bool
kind_of (some (run_merge step change)) = some true
kind_of (some (run_pick step c absorbs)) = some false
kind_of _ = none

-- The members of the journal that say which steps were taken.
pub record Ledger : Type 0 where
  pub queue : List ProgramStep
  pub next_index : ℕ
  pub executed : ℕ
  pub applied : List AppliedChange
  pub merges : List RecreatedEntry
  pub approval : Option ForecastApproval

abbrev pub ledger : Operation → Ledger
ledger o = record {
  queue = o.queue;
  next_index = o.next_index;
  executed = o.executed_count;
  applied = o.applied;
  merges = o.recreated_merges;
  approval = o.forecast_approval;
}

-- The application kept the identity of its origin, unless it is a fork or the origin has none.
abbrev pub KeepsIdentity : AppliedChange → Type 0
KeepsIdentity a = loses_identity a.relation a.origin_change_id a.applied_change_id ≡ false

-- The steps before the cursor are accounted for: each pick by one application and each merge by one
-- entry, in the order of the queue.
pub record IsTracked (l : Ledger) : Type 0 where
  pub executed_exact : l.executed ≡ length (executable_steps (first l.next_index l.queue))
  pub applied_exact :
      map (λ a. a.origin_commit) l.applied ≡ pick_commits (first l.next_index l.queue)
  pub merges_exact :
      map (λ m. m.origin_commit) l.merges ≡ merge_commits (first l.next_index l.queue)
  pub identities_kept : All KeepsIdentity l.applied

abbrev pub item_kind : Ledger → Option Bool
item_kind l = kind_of (get_elem? l.queue l.next_index)

-- The item at the cursor.
abbrev pub At : Ledger → ProgramStep → Type 0
At l item = get_elem? l.queue l.next_index ≡ some item

abbrev pub FitsKind : Bool → Option Current → Type 0
FitsKind k none = Unit
FitsKind k (some c) = is_some c.join ≡ k

-- What can be continued is tracked, its step is the queue's, and it waits on a pick only.
abbrev pub Resumable : Operation → Type 0
Resumable o =
    IsTracked (ledger o)
    × ((k : Bool) × (item_kind (ledger o) ≡ some k)
        × FitsKind k o.current
        × (awaits o.state ≡ true → k ≡ false))

pub record IsSound (o : Operation) : Type 0 where
  pub resume : is_continuable o.state ≡ true → Resumable o

abbrev pub DiskSound : Option Operation → Type 0
DiskSound none = Unit
DiskSound (some o) = IsSound o

module _ {World : Type 0} where
  -- What holds when a call throws: what can be written and what is written is sound.
  pub record Safe (s : Session World) : Type 0 where
    pub memory : IsSound s.operation
    pub disk : DiskSound s.disk

  -- A step is under way: the ledger is that of its start.
  pub record Under (l : Ledger) (k a : Bool) (s : Session World) : Type 0 where
    pub same : ledger s.operation ≡ l
    pub fits : FitsKind k s.operation.current
    pub waits : awaits s.operation.state ≡ true → k ≡ false
    pub applies : a ≡ true → is_applying s.operation.state ≡ true
    pub disk : DiskSound s.disk

  abbrev pub Leaves {ℓ} :
      {A : Type 0}
      → (A → Session World → Type ℓ)
      → (Session World → Type ℓ)
      → Result A
      → Session World
      → Type ℓ
  Leaves Q E (ok a) s = Q a s
  Leaves Q E (err c) s = E s

  pub Leaves-same :
      {A : Type 0} (P : Session World → Type 0) (r : Result A) (t : Session World)
      → P t
      → Leaves (λ _. P) P r t
  Leaves-same P (ok x) t h = h
  Leaves-same P (err c) t h = h

-- At the start of a step everything before it is accounted for, and the queue says what it is.
pub record Started (l : Ledger) (k : Bool) : Type 0 where
  pub tracked : IsTracked l
  pub kind : item_kind l ≡ some k

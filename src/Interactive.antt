-- ===== src/Interactive.antt =====
-- src/rebase-interactive.js: the declared actions of an interactive rebase, their parsing, and their
-- resolution against the changes of the plan. Turning a revision expression into a commit is a
-- parameter, as it is in the source.
pub mod Rounds
pub mod Resolved
pub mod Groups
pub mod Examples
use vcs_lab.Prelude.{
  ℕ, suc, ◌+◌, Bool, true, false, not, ◌&&◌, ◌||◌, Option, none, some, List, [], ◌∷◌, ◌++◌, map,
  if◌then◌else◌, ltb, leb, eqb, Text, codes, ◌==◌, contains, Dict, lookup, insert, has, get_or_else,
  is_some, filter, sort_by,
}
use vcs_lab.Errors.{
  Result, ok, err, ◌>>=◌, ◌>>◌, throw_if, usage_missing_argument, usage_invalid_option_value,
  unsupported_range,
}
use vcs_lab.Trailers.{trim}

-- What a plan does with a change: the planner's own three, and the declared four.
pub data Action : Type 0 where
  omit review replay reword edit squash fixup : Action

-- `isAbsorbing`.
unfoldable pub is_absorbing : Action → Bool
is_absorbing squash = true
is_absorbing fixup = true
is_absorbing _ = false

-- `SURVIVING_ACTIONS.has(action)`.
unfoldable pub is_surviving : Action → Bool
is_surviving replay = true
is_surviving reword = true
is_surviving edit = true
is_surviving _ = false

pub record Declaration : Type 0 where
  pub action : Action
  pub subject : Text
  pub target : Option Text

-- The text before and after the first `=`, if there is one.
unfoldable pub split_at_equals : Text → Option (Text × Text)
split_at_equals [] = none
split_at_equals (c ∷ cs) =
    if eqb c b'='
    then some ([], cs)
    else (elim (split_at_equals cs) [ none ↦ none | some (a, b) ↦ some (c ∷ a, b) ])

-- A declaration of an absorbing action, from its two halves.
unfoldable pub parse_pair : Action → Option (Text × Text) → Result Declaration
unfolding trim
parse_pair action none = err usage_invalid_option_value
parse_pair action (some ([], after)) = err usage_invalid_option_value
parse_pair action (some (c ∷ cs, [])) = err usage_invalid_option_value
parse_pair action (some (c ∷ cs, d ∷ ds)) =
    ok (record { action = action; subject = trim (c ∷ cs); target = some (trim (d ∷ ds)) })

unfoldable pub parse_trimmed : Action → Text → Result Declaration
unfolding split_at_equals parse_pair is_absorbing
parse_trimmed action [] = err usage_missing_argument
parse_trimmed action (c ∷ cs) =
    if not (is_absorbing action)
    then (if is_some (split_at_equals (c ∷ cs))
        then err usage_invalid_option_value
        else ok (record { action = action; subject = c ∷ cs; target = none }))
    else parse_pair action (split_at_equals (c ∷ cs))

-- `parseDeclaration`; an absent value is empty.
unfoldable pub parse_declaration : Action → Text → Result Declaration
unfolding parse_trimmed
parse_declaration action value = parse_trimmed action (trim value)

unfoldable pub parse_values : Action → List Text → Result (List Declaration)
unfolding parse_declaration
parse_values action [] = ok []
parse_values action (v ∷ vs) = do
  declaration ← parse_declaration action v
  rest ← parse_values action vs
  ok (declaration ∷ rest)

-- The options of the four actions; an absent option is an empty list.
pub record InteractiveOptions : Type 0 where
  pub reword_values : List Text
  pub edit_values : List Text
  pub squash_values : List Text
  pub fixup_values : List Text

-- `declaredInteractiveActions`.
unfoldable pub declared_interactive_actions : InteractiveOptions → Result (List Declaration)
unfolding parse_values
declared_interactive_actions options = do
  rewords ← parse_values reword options.reword_values
  edits ← parse_values edit options.edit_values
  squashes ← parse_values squash options.squash_values
  fixups ← parse_values fixup options.fixup_values
  ok (rewords ++ (edits ++ (squashes ++ fixups)))

-- A change of the plan, as far as the resolution reads it.
pub record PlanChange : Type 0 where
  pub commit : Text
  pub action : Action

abbrev is_replay : Action → Bool
is_replay replay = true
is_replay _ = false

-- The keys of `replayable`.
unfoldable pub replayable_commits : List PlanChange → List Text
replayable_commits changes = map (λ c. c.commit) (filter (λ c. is_replay c.action) changes)

-- `rangeOrder`, from an index on.
unfoldable pub range_order : Dict ℕ → ℕ → List PlanChange → Dict ℕ
range_order order index [] = order
range_order order index (c ∷ cs) = range_order (insert order c.commit index) (index + 1) cs

pub record ResolvedAction : Type 0 where
  pub action : Action
  pub commit : Text
  pub target : Option Text

pub record Program : Type 0 where
  pub actions : List ResolvedAction
  pub by_commit : Dict ResolvedAction
  pub absorbed_into : Dict (List ResolvedAction)

-- The actions and the map of the loop.
pub record Resolving : Type 0 where
  pub actions : List ResolvedAction
  pub by_commit : Dict ResolvedAction

module _ (resolve : Text → Option Text) (merge_commits replayable : List Text)
    (order : Dict ℕ) where
  -- `named`.
  unfoldable pub named : Text → Result Text
  named expression = elim (resolve expression) [
    | none ↦ err unsupported_range
    | some commit ↦
        if contains merge_commits commit
        then err unsupported_range
        else if not (contains replayable commit)
        then err unsupported_range
        else ok commit
  ]

  abbrev pub position : Text → ℕ
  position commit = get_or_else (lookup order commit) 0

  -- The target of a declaration, with the two tests on it.
  unfoldable pub named_target : Text → Option Text → Result (Option Text)
  unfolding named
  named_target subject none = ok none
  named_target subject (some expression) = do
    target ← named expression
    throw_if (target == subject) unsupported_range
    throw_if (ltb (position subject) (position target)) unsupported_range
    ok (some target)

  -- One round of the loop over the declarations.
  unfoldable pub resolve_one : Resolving → Declaration → Result Resolving
  unfolding named named_target
  resolve_one state d = do
    subject ← named d.subject
    throw_if (has state.by_commit subject) unsupported_range
    target ← named_target subject d.target
    let resolved : ResolvedAction = record { action = d.action; commit = subject; target = target }
    ok (record {
      actions = state.actions ++ resolved ∷ [];
      by_commit = insert state.by_commit subject resolved;
    })

  unfoldable pub resolve_all : Resolving → List Declaration → Result Resolving
  unfolding resolve_one
  resolve_all state [] = ok state
  resolve_all state (d ∷ ds) = do next ← resolve_one state d; resolve_all next ds

-- Whether the target of an action is itself absorbed.
unfoldable pub chains : Dict ResolvedAction → Option Text → Bool
unfolding is_absorbing
chains by_commit none = false
chains by_commit (some target) = elim (lookup by_commit target) [
  | none ↦ false
  | some other ↦ is_absorbing other.action
]

unfoldable pub reject_chains : Dict ResolvedAction → List ResolvedAction → Result (Unit {0})
unfolding chains
reject_chains by_commit [] = ok tt
reject_chains by_commit (a ∷ rest) = do
  throw_if (chains by_commit a.target) unsupported_range
  reject_chains by_commit rest

-- One round of the loop that groups the absorbed subjects under their survivor.
unfoldable pub group_one :
    Dict (List ResolvedAction) → ResolvedAction → Option Text → Dict (List ResolvedAction)
group_one groups a none = groups
group_one groups a (some target) =
    insert groups target (get_or_else (lookup groups target) [] ++ a ∷ [])

unfoldable pub group_absorbed :
    Dict (List ResolvedAction) → List ResolvedAction → Dict (List ResolvedAction)
unfolding group_one
group_absorbed groups [] = groups
group_absorbed groups (a ∷ rest) = group_absorbed (group_one groups a a.target) rest

abbrev pub before_in : Dict ℕ → ResolvedAction → ResolvedAction → Bool
before_in order a b =
    leb (get_or_else (lookup order a.commit) 0) (get_or_else (lookup order b.commit) 0)

-- `resolveInteractiveProgram` on the changes and the merges of the plan.
unfoldable pub resolve_interactive_program :
    (Text → Option Text) → List PlanChange → List Text → List Declaration → Result Program
unfolding resolve_all reject_chains group_absorbed range_order replayable_commits
resolve_interactive_program resolve changes merge_commits [] =
    ok (record { actions = []; by_commit = []; absorbed_into = [] })
resolve_interactive_program resolve changes merge_commits (d ∷ ds) = do
  let order = range_order [] 0 changes
  resolved ←
      resolve_all resolve merge_commits (replayable_commits changes) order
        (record { actions = []; by_commit = [] }) (d ∷ ds)
  reject_chains resolved.by_commit resolved.actions
  let sorted = sort_by (before_in order) resolved.actions
  ok (record {
    actions = sorted;
    by_commit = resolved.by_commit;
    absorbed_into = group_absorbed [] sorted;
  })

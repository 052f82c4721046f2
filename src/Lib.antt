-- ===== src/Lib.antt =====
-- The core of causet, a change-identity layer over Git (src/*.js): what a merge or a rebase may take as
-- already done, in what shape a range is rewritten, how the rebase runs, stops and resumes, and how
-- indexed Markdown is merged.
--
-- Parts and files. Each file opens with the source that it is about.
--   Prelude: JavaScript's strings (lists of UTF-16 code units), Set, Map and sort, and library names.
--   Errors: src/errors.js; a CliError is a value that carries its code.
--   Trailers: the regular expressions on Change-Id lines, as scanners.
--   Records: src/metadata.js; duplicatedRecordIds, the conflicting identifiers of
--     readCausalRecordCatalog, acceptedCausalRecords. The planner takes its facts from here.
--   EffectiveBase, MergePlan: src/merge-plan.js; chooseEffectiveBase, and the rest up to
--     buildMergePlanInSession, which calls the catalog, the trailers and the base.
--   Topology: src/rebase-topology.js; analyzeRebaseTopology with its loop state, resolveStepParents
--     and the rest of the file.
--   Interactive: src/rebase-interactive.js; the declarations and resolveInteractiveProgram.
--   Messages: src/rebase-interactive.js; rewordedMessage, absorbedMessage, assertSingleIdentity.
--   Repository, RebaseRange, RebaseLists, RebasePlan: src/rebase-plan.js; what the planners ask of Git
--     as a record, resolveRange and the causal plan, the lists of changes, and buildRebasePlanInSession,
--     which runs the causal planner, the topology and the declared program.
--   RebaseProgram: src/forecasts.js; rebaseProgram, the steps that the rewrite runs for a plan.
--   RebaseJournal: src/rebase-operations.js and src/rebase-state.js; the journal of a rebase, the
--     commands that start, continue and abort one, and the loop over the program of RebaseProgram.
--     Below it: Session is a run of a command (the operation in memory, the journal on disk, the
--     world), Host what the code asks of Git and of the modules that it calls; Recording, Approval,
--     Approving, Absorbing, Stepping and Finishing are the loop, from what a step leaves to the
--     receipt; Checks, Starting, Continuing and Aborting the commands. Ledger has the invariant and
--     Rules how a call keeps it; Kept, Accounting, Between, Anchored, Recorded, Ending, Rounds, Loop,
--     Quiet and Completed follow the loop; Continued, Checked, Resumed, Checking, Preparing, Begun,
--     Aborted, Reached and Status the commands. Sample is a small repository for the runs.
--   Ids: src/ids.js; newId, parseLogicalId and isLogicalId. The clock and the random bytes are
--     arguments.
--   ActorNames, AuditEdges: src/identity-audit.js; nearDuplicateActorNames, and the readers of trailers
--     and of application records.
--   Evidence, MergePlanText: src/merge-plan.js; coverageEvidence and formatMergePlan. Evidence/Rules:
--     src/proof-bundle.js; classifyFromEvidence with its rules.
--   RebasePlanText: src/rebase-plan.js; formatRebasePlan.
--   SpecMerge, SpecOrder, SpecPlan, SpecRead: src/specs.js; contentDecision, mergeOrder, planSpecMerge
--     from the three stages on, and its start.
-- In each, the file of that name holds the definitions, the files below it hold the proofs, and its
-- Examples the runs on concrete data.
--
-- How code becomes definitions. A function of the source is a function by clauses with the same name
-- in snake_case; a loop is structural recursion over the list it walks, with its mutable variables as
-- an explicit argument. Fuel is needed twice: the loop of runRebaseQueue has the length of its
-- queue, and each of its rounds moves the cursor; the numeral of a clock has the number itself, and
-- each digit divides it. A throw is `err` with the code, a closure over local
-- variables takes them as arguments, and an absent member is `none`. Answers of Git (ancestry, the
-- commits of a range, patch equivalence, revision names) and the record validators of src/schemas.js
-- are parameters. A rebase command is a function from a session to a result and a session: a throw
-- keeps what was done before it, and `catch` and the operation that the code mutates are explicit.
-- Each step of a journal's queue has its step, as startOperation writes it; a journal may be read
-- back with the repository in any state.
--
-- Not modelled: reading of the repository, message texts, hashes, the manifest of a merged document;
-- of the rebase, the timings and timestamps, the plan's fingerprint in its records, journals of older
-- builds, the marks that a choice left on a conflict when a later choice throws, and the modules
-- behind Host; reconcile operations, metadata transfer, workspaces, the rest of proof bundles, and
-- the command line.
pub mod Prelude
pub mod Errors
pub mod Trailers
pub mod Records
pub mod EffectiveBase
pub mod MergePlan
pub mod Topology
pub mod SpecMerge
pub mod SpecOrder
pub mod SpecPlan
pub mod SpecRead
pub mod Interactive
pub mod Messages
pub mod Repository
pub mod RebaseRange
pub mod RebaseLists
pub mod RebasePlan
pub mod RebaseProgram
pub mod ActorNames
pub mod AuditEdges
pub mod MergePlanText
pub mod RebasePlanText
pub mod Evidence
pub mod RebaseJournal
pub mod Ids

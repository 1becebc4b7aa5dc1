-- ===== src/Lib.antt =====
-- dbtx: a control plane for dbt. A server keeps a queue of invocations in PostgreSQL, workers poll it
-- and run dbt, and a reconciler plans the runs that bring an environment to its target commit.
--
-- The parts, and the files that model them (paths from the repository's root):
-- - Status: the enums whose texts the database stores and the API shows, of src/db/records.rs,
--   src/api.rs, src/db/mod.rs, src/invocation_read_model.rs and src/services/reconcile_identity.rs.
--   Status/Codec relates the texts and the constructors.
-- - Error: the variants of AppError (src/error.rs) that the modelled code returns.
-- - Invocation: the tables `invocations`, `workers` and `invocation_events`, and the operations of
--   src/db/invocations.rs on them. Queue has create_invocation and claim_next_invocation, Workers the
--   registry, Lease heartbeat_invocation and the look-ups of a completion, Cancel
--   request_cancel_invocation, Deadline the time-out sweep, the clean-up and the timeouts of
--   src/execution.rs, Events the event stream, Health the read models and list queries. Ops puts the
--   operations that change the tables into one alphabet, so that a history of the server is a list.
--   Proofs: Row (what each SET keeps), Claiming and Claimed, Stable and Runs (properties of rows along
--   histories), History, Fencing, Sweeping, Registry, Stream, Views.
-- - Plan: the tables `environment_run_plans`, `environment_reconcile_leases`,
--   `invocation_selected_resources` and `environment_actual_state`, and the operations of
--   src/db/reconciliation.rs and src/db/runs.rs on them. Lease has the reconcile lease, Lifecycle the
--   statements that create, supersede, block and select, Outcome admission and completion, Conflict
--   the list of conflicting invocations. Proofs: Exclusion, Backoff, Progress, Overlap,
--   Blocking.
-- - Planning: plan_code_change_selected_resources of src/services/planning.rs. Closure has the modified
--   nodes and the loop over what is downstream of them, Ancestor the recursion over ancestors with
--   its memo table, Select the test that keeps a node. Proofs: Reach and Candidates (the
--   loop), MemoTable and Chosen (the recursion), Selected (the result).
-- - Source: the tables of source state events, of their satisfaction and of watermarks, and the queries
--   of src/db/reconciliation.rs and src/db/watermarks.rs on them. Events has the unsatisfied events,
--   Downstream the recursive query over manifest edges, Stale the nodes that are behind an event and
--   the loop that takes events as satisfied. Proofs: Closing, Reached, Staleness, Statuses,
--   Advance.
-- - Reconcile: the services that make and admit plans. Identity has the fingerprints of
--   src/services/reconcile_identity.rs, Queries the look-ups of src/db that the services use, Derive
--   and Replan the rest of src/services/planning.rs, Admission src/services/admission.rs and
--   admit_and_start_plan, Service the reconcile call of src/services/environments.rs, Prepare
--   src/manifest_preparation.rs, Cycle src/reconciler/cycle.rs and Sweep the
--   sweep of src/reconciler.rs. Action is the sequence of database
--   calls that a service is, Formats the text formats of other packages. Proofs:
--   Keeps (what holds however a call ends), Fingerprint, Errors, Guarded (the lease around a call),
--   PlansKept, OnePending and Planned (reconcile), Stored and Replanned, Blocked (admission), Waiting (manifest
--   preparation), BackOff and Turns (the cycle).
-- - Completion: the end of an invocation, one transaction over all tables. Complete has
--   complete_invocation and force_complete_invocation of src/db/invocations.rs, SideEffects
--   src/db/completion.rs, Drafts and Release its calls for drafts and releases, Finalize the end of a
--   run in src/db/runs.rs, Manifests the stored manifest, Ancestors the sources above its nodes, Promote
--   the promoted manifest, NodeStates the rebuild of `current_node_state`. An operation returns a result, and an error leaves the tables as they
--   were, since the transaction is rolled back. Reading a manifest or a result document is
--   `Documents`, an argument: a ManifestSnapshot is given as from_raw of src/manifest.rs reads it.
--   Proofs: Lookup, Rows, Settled, Beside and Backfilled (steps of a rebuild at one key), Rebuilt, Keeps (what the calls
--   leave alone), Ended (what they end), Freed (the invocation and its resources), Total
--   (completions that are committed).
-- - Watermark: how a run's nodes get their watermarks, of src/db/watermarks.rs and
--   src/db/runs.rs. Candidates has the staged candidates, Commit the commit that only raises a
--   watermark, Handle the call that a node's events make. Proofs: Raised, Finished, Least.
-- - Prelude: Boolean tests, equality, lists as tables, and sorting.
-- Modules whose names end in Examples hold concrete tables and the theorems at them.
--
-- A statement of SQL is a function on lists of rows: WHERE is a Boolean test, UPDATE is update_rows,
-- DELETE is delete_rows, fetch_optional is find, ORDER BY is a sort. A transaction is one function
-- of the tables, so that an interleaving of transactions is an order of calls; `FOR UPDATE SKIP
-- LOCKED` takes the ids of the rows that other transactions hold as an argument. `NOW()` and fresh
-- ids are arguments too. A failed constraint, and `fetch_one` without a row, is the error `sqlx`. The
-- constraints written out are the primary keys, the CHECK on an invocation's lease, and the foreign
-- keys and the CHECK that an admission or a supersede can break. Foreign keys to a row that the same
-- call has read before, and those of the watermark tables to source events, are taken to hold. A
-- connection that is lost in the middle of a call is not modelled.
-- Numbers are natural numbers: instants count microseconds, ids are opaque. The columns of type
-- INTEGER and BIGINT are counts that stay far below their widths, and have no wrap-around here.
-- A JSON document is its text. Texts are ordered by their bytes, also where the order is that of a
-- column.
--
-- A service call is a sequence of database calls that are committed one by one, so that what was
-- written before an error stays written. Its calls run with nothing in between and at one instant:
-- what other callers do meanwhile is left out, except for the lease, which keeps a second caller out
-- (Plan.Exclusion). Printing of ids and instants and JSON come from other packages and are the record
-- Formats, an argument. So are prepare_remote_execution of src/services/invocations.rs, which reads
-- profiles and manifests from files, its prepare_remote_manifest_capture, and the traits
-- InvocationStarter and AsyncStartInvocation.
--
-- Two functions of Planning run on fuel, and return `none` without it (`endless` in Reconcile). The
-- loop over the stack gets the number of roots and target nodes, which is always enough. The
-- recursion over ancestors takes its fuel as an argument: the source has no bound there, and does not
-- return on a manifest whose edges have a cycle among the candidates; any number above the depth of an
-- acyclic manifest is enough. Every other loop of the modelled code is over a list.
--
-- The rounds of the recursive query over manifest edges are bounded by the number of edges, which
-- Source/Closing shows to be enough.
--
-- Not modelled: a completion among the operations of an Invocation history, which is a list of
-- the other operations; the log events of a run and the node rows they write; seeding one environment from another; the reading of
-- manifests; the timer of src/reconciler.rs; the creation of drafts, releases and environments;
-- serde, sqlx and axum; the dbt process and git; pages and templates.
pub mod Prelude
pub mod Error
pub mod Status
pub mod Invocation
pub mod Plan
pub mod Planning
pub mod Source
pub mod Reconcile
pub mod Completion
pub mod Watermark

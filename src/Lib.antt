-- ===== src/Lib.antt =====
-- Verification of the hetuflow workflow engine: the types and rules of crates/hetuflow-core, the pure
-- decision code of crates/hetuflow-runtime, the Postgres store of crates/hetuflow-sqlx, and the service and
-- workers of crates/hetuflow-service.
--
-- A workflow definition is a list of nodes, each with a typed configuration, and a list of transitions
-- between them, each for one signal. The engine holds an instance at an activity; a signal asks
-- `decide_advance` where the flow goes, which follows conditions and merges by `resolve_target` to a
-- node that settles it. Every change is logged as an event; `fold_events` rebuilds the projection
-- from the log and `diff_projection` compares it with the stored rows. A definition is published
-- after `validate_definition` accepts it.
--
-- Shared          the library names that every module uses, Boolean tests, list and result helpers,
--                 and ℤ over the native numbers with i32 and i64 bounds written out.
-- Core            crates/hetuflow-core/src/lib.rs: one file for each type (WorkflowStatus, ActivityType,
--                 ActivityStatus, WorkflowResult, SignalType, JoinStrategy, NodeKind, NodeConfig in
--                 Config, WorkflowNode and its accessors in Node, the rows in Definition, AdvanceOutcome
--                 in Outcome, FlowError in Error), `try_transition` in Transition,
--                 `retry_backoff_secs` in Backoff, the names of events in EventType.
-- Runtime.Guard   crates/hetuflow-runtime/src/guard_eval.rs.
-- Runtime.Resolve, Runtime.Advance
--                 `resolve_target`, `decide_start`, `decide_advance` and `decide_event_wait_timeout` of
--                 crates/hetuflow-runtime/src/lib.rs. The mutable trace is passed along and returned.
--                 Resolve/Routes says the same as a relation.
-- Runtime.Check, Runtime.Validate
--                 `validate_definition` and `validate_domain_driven` of the same file: Check has one function
--                 for each arm of the `match` over node kinds, Validate composes them in the source's order.
-- Runtime.Lint    `lint_definition` of the same file, with its two searches.
-- Runtime.Replay  crates/hetuflow-runtime/src/replay.rs: Model has its types, Activities and Fold one
--                 function for each kind of event, Diff the comparison.
-- Store           crates/hetuflow-sqlx/src/lib.rs: Sql has what a statement does to a list of rows, Rows and
--                 Tables the state, Codec the numbers of results, deliveries and timers, and Instances,
--                 Activities, Events, Outbox, Timers and Scope one function for each statement of
--                 `PgWorkflowStore`. External is what the two crates call of others. Guards, Lease,
--                 Graph, Events.Sequence and Sql.Laws have proofs.
-- Service         crates/hetuflow-service: Command is command.rs, Registry the registry of ports.rs, Worker
--                 worker.rs, and the rest service.rs: Config, Signal (which signal a node takes), Log,
--                 Notify, Schedule, Complete, Finish, Join, Outcome (`apply_outcome` and `fan_out`), Start,
--                 Handle (`signal` and `resubmit`), Fire (`fire_timer`) and Deliver (what follows a
--                 delivery, and `verify_projection`). Run has runs and their composition; Agreement,
--                 Termination, Once, Registered and Rounds have proofs.
-- Tests           a small definition and log, and the theorems applied to them.
--
-- Parameters. The crate `cel` is the record `Cel` of Runtime.Guard, `serde_json::Value` the type `J` with the
-- record `Json` of Runtime.Replay.Model; both are arbitrary. Times are
-- an arbitrary type. The text of an error is a constructor of `Message` with the values that
-- it prints; a line of the comparison's report is a constructor of `Difference`, and a
-- finding of the lint has no text.
--
-- Bounds. `resolve_target` runs on fuel 9, one for each call with a depth of 0 to MAX_RESOLVE_DEPTH = 8;
-- running out is the source's own error. The searches of the lint run on one more than the
-- number of edges, which is enough, since a node's edges are pushed only when it is first visited; their
-- answer would be empty otherwise. Every other loop is by recursion on a list. i64 sums
-- saturate where the source's do; counts of list elements are natural numbers.
--
-- The methods of the service that call one another through a join that is satisfied, `apply_outcome`,
-- `fan_out`, `branch_reached_join` and `try_satisfy_join`, take fuel, one for each call of `apply_outcome`,
-- and answer `exhausted` without it. A signal in a definition of approvals only calls it once.
--
-- The store. A table is the list of its rows in insertion order, which stands for the order of created_at;
-- a statement is a function of the tables, a method of the service an action on the tables of its caller's
-- transaction, which an error rolls back. Ids that the database makes are given by a counter. A LIMIT that is
-- negative, which Postgres refuses, is zero. The values of `serde_json`, with the derived serialisers, uuids, number syntax and times are
-- the record `External`; what the theorems use of them is the record `IsLawful`. Tests.World has an instance
-- of both.
--
-- Not modelled: `definition_hash`, faults of the database, tracing, `run_forever` of the workers, and the
-- fusion crates. Serialization attributes are left out.
pub mod Shared
pub mod Core
pub mod Runtime
pub mod Store
pub mod Service
pub mod Tests

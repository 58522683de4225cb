-- ===== src/Runtime.antt =====
-- crates/hetuflow-runtime: checks of a definition's graph, the decisions that advance an instance, and
-- the replay of the event log.
pub mod Guard
pub mod Resolve
pub mod Advance
pub mod Check
pub mod Validate
pub mod Lint
pub mod Replay

-- ===== src/Runtime/Replay.antt =====
-- crates/hetuflow-runtime/src/replay.rs: the projection rebuilt from the event log, and its comparison
-- with the stored one.
pub mod Model
pub mod Activities
pub mod Lists
pub mod Fold
pub mod Diff

-- ===== src/Core.antt =====
-- crates/hetuflow-core: the domain types of the engine and its pure helpers.
pub mod WorkflowStatus
pub mod ActivityType
pub mod ActivityStatus
pub mod WorkflowResult
pub mod SignalType
pub mod JoinStrategy
pub mod NodeKind
pub mod Config
pub mod Node
pub mod Definition
pub mod Outcome
pub mod Error
pub mod Transition
pub mod Backoff
pub mod EventType
pub mod Payload
pub mod OutboxActivity

-- ===== src/Store.antt =====
-- crates/hetuflow-sqlx: the tables of the workflow engine and the statements over them.
pub mod Sql
pub mod External
pub mod Codec
pub mod Rows
pub mod Tables
pub mod Instances
pub mod Activities
pub mod Events
pub mod Outbox
pub mod Timers
pub mod Scope
pub mod Guards
pub mod Graph
pub mod Lease

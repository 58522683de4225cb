-- ===== src/Runtime/Check.antt =====
-- The checks of `validate_definition` at one node, crates/hetuflow-runtime/src/lib.rs.
pub mod Base
pub mod Activities
pub mod Routing
pub mod Parallel

-- ===== src/Service.antt =====
-- crates/hetuflow-service: the orchestration of decisions into rows and events.
pub mod Command
pub mod Run
pub mod Registry
pub mod Config
pub mod Signal
pub mod Log
pub mod Notify
pub mod Schedule
pub mod Complete
pub mod Finish
pub mod Join
pub mod Outcome
pub mod Start
pub mod Handle
pub mod Fire
pub mod Deliver
pub mod Worker
pub mod Agreement
pub mod Termination
pub mod Rounds
pub mod Once
pub mod Registered

-- ===== src/Tests.antt =====
-- The theorems at concrete inputs.
pub mod Data
pub mod World
mod Statuses
mod Engine
mod Lint
mod Replay
mod Service
mod Store

-- ===== src/Store/Tables.antt =====
-- The tables that crates/hetuflow-sqlx reads and writes inside its caller's transaction. `now` is the
-- transaction's time, which `now()` of the statements gives, and `made` counts the ids that the database
-- has made.
use fusions.Shared.{ℕ, List}
use fusions.Store.Rows.{InstanceRow, ActivityRow, EventRow, OutboxRow, TimerRow}

pub record Tables (Time J : Type 0) : Type 0 where
  pub instances : List (InstanceRow Time J)
  pub activities : List (ActivityRow Time)
  pub events : List (EventRow Time J)
  pub outbox : List (OutboxRow Time J)
  pub timers : List (TimerRow Time)
  pub now : Time
  pub made : ℕ

-- ===== src/Service/Command.antt =====
-- crates/hetuflow-service/src/command.rs: what a caller asks for, and what it gets.
use fusions.Shared.{ℕ, String, Option, List, Bool}
use fusions.Shared.Int.{ℤ}
use fusions.Core.SignalType.{SignalType}
use fusions.Core.Definition.{DefinitionSnapshot, WorkflowInstance, ActivityInstance}
use fusions.Core.Payload.{ScopeFilter}
use fusions.Runtime.Replay.Diff.{Difference}

pub record TerminalCallback (J : Type 0) : Type 0 where
  pub handler_type : String
  pub payload : J

pub record StartCommand (J : Type 0) : Type 0 where
  pub tenant_id : ℤ
  pub facility_id : String
  pub definition_id : String
  pub snapshot : DefinitionSnapshot
  pub reference_no : String
  pub business_type : String
  pub business_key : String
  pub context : Option J
  pub terminal_callback : Option (TerminalCallback J)

pub record StartOutcome (Time J : Type 0) : Type 0 where
  pub instance : WorkflowInstance Time J
  pub created : Bool
  pub active_activities : List (ActivityInstance Time)

pub record SignalCommand (J : Type 0) : Type 0 where
  pub scope : ScopeFilter
  pub instance_id : String
  pub signal : SignalType
  pub activity_id : Option String
  pub idempotency_key : String
  pub actor_user_id : ℤ
  pub review_notes : Option String
  pub event_type : Option String
  pub assignee_id : Option ℤ
  pub context_patch : Option J

pub record SignalOutcome (Time J : Type 0) : Type 0 where
  pub instance : WorkflowInstance Time J
  pub active_activities : List (ActivityInstance Time)
  pub replayed : Bool

pub record ProjectionVerification : Type 0 where
  pub instance_id : String
  pub event_count : ℕ
  pub consistent : Bool
  pub differences : List Difference

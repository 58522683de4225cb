-- ===== src/Core/Definition.antt =====
-- The graph of a definition and the rows of the projection, crates/hetuflow-core/src/lib.rs. `Time`
-- stands for `chrono::DateTime<Utc>` and `J` for `serde_json::Value`.
use fusions.Shared.{String, Option, List, Bool}
use fusions.Shared.Int.{ℤ}
use fusions.Core.WorkflowStatus.{WorkflowStatus}
use fusions.Core.WorkflowResult.{WorkflowResult}
use fusions.Core.ActivityType.{ActivityType}
use fusions.Core.ActivityStatus.{ActivityStatus}
use fusions.Core.SignalType.{SignalType}
use fusions.Core.Node.{WorkflowNode}

pub record WorkflowTransition : Type 0 where
  pub from : String
  pub to : String
  pub on_signal : SignalType

pub record DefinitionSnapshot : Type 0 where
  pub flow_type : String
  pub version : ℤ
  pub nodes : List WorkflowNode
  pub transitions : List WorkflowTransition
  pub max_round : ℤ

pub record WorkflowInstance (Time J : Type 0) : Type 0 where
  pub id : String
  pub tenant_id : String
  pub facility_id : String
  pub reference_no : String
  pub workflow_definition_id : String
  pub business_key : String
  pub business_type : String
  pub status : WorkflowStatus
  pub current_activity_id : Option String
  pub result : Option WorkflowResult
  pub side_effects_executed : Bool
  pub context : Option J
  pub started_at : Option Time
  pub completed_at : Option Time
  pub created_at : Time
  pub updated_at : Time

pub record ActivityInstance (Time : Type 0) : Type 0 where
  pub id : String
  pub tenant_id : String
  pub workflow_instance_id : String
  pub activity_definition_id : String
  pub activity_type : ActivityType
  pub status : ActivityStatus
  pub assignee_role : Option String
  pub assignee_id : Option String
  pub result : Option String
  pub review_notes : Option String
  pub reviewed_by : Option String
  pub reviewed_at : Option Time
  pub round : ℤ

pub record EventRecord (Time J : Type 0) : Type 0 where
  pub seq : ℤ
  pub event_type : String
  pub payload : J
  pub created_at : Time

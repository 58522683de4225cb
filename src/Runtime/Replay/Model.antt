-- ===== src/Runtime/Replay/Model.antt =====
-- The types of crates/hetuflow-runtime/src/replay.rs. `Time` stands for `chrono::DateTime<Utc>`.
use fusions.Shared.{String, Option, none, some, List}
use fusions.Shared.Int.{ℤ}
use fusions.Core.WorkflowStatus.{WorkflowStatus}
use fusions.Core.WorkflowResult.{WorkflowResult}
use fusions.Core.ActivityStatus.{ActivityStatus}
use fusions.Core.ActivityType.{ActivityType}
use fusions.Core.NodeKind.{NodeKind}
use fusions.Core.Node.{WorkflowNode, kind}
use fusions.Core.Definition.{DefinitionSnapshot}
use fusions.Runtime.Resolve.{find_node}

-- What the source calls of `serde_json::Value`, whose values are `J`, and the text of an i32.
pub record Json (J : Type 0) : Type 0 where
  pub get : J → String → Option J
  pub as_str : J → Option String
  pub as_i64 : J → Option ℤ
  pub display : ℤ → String

pub record ReplayedInstance (Time : Type 0) : Type 0 where
  pub status : WorkflowStatus
  pub current_activity_id : Option String
  pub result : Option WorkflowResult
  pub started_at : Option Time
  pub completed_at : Option Time

pub record ReplayedActivity (Time : Type 0) : Type 0 where
  pub id : String
  pub activity_definition_id : String
  pub activity_type : ActivityType
  pub status : ActivityStatus
  pub assignee_role : Option String
  pub assignee_id : Option String
  pub result : Option String
  pub review_notes : Option String
  pub reviewed_by : Option String
  pub reviewed_at : Option Time
  pub round : ℤ

pub record ReplayedProjection (Time : Type 0) : Type 0 where
  pub instance : ReplayedInstance Time
  pub activities : List (ReplayedActivity Time)

unfoldable pub instantiated_activity_type : NodeKind → ActivityType
instantiated_activity_type NodeKind.event_wait = ActivityType.event_wait
instantiated_activity_type NodeKind.notification = ActivityType.notification
instantiated_activity_type NodeKind.assignment = ActivityType.assignment
instantiated_activity_type _ = ActivityType.approval

abbrev type_of_found : Option WorkflowNode → ActivityType
type_of_found none = ActivityType.approval
type_of_found (some n) = instantiated_activity_type (kind n)

unfoldable pub activity_type_for : DefinitionSnapshot → String → ActivityType
activity_type_for snapshot def_id = type_of_found (find_node snapshot.nodes def_id)

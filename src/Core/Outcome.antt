-- ===== src/Core/Outcome.antt =====
-- What an advance decides, crates/hetuflow-core/src/lib.rs. `J` stands for `serde_json::Value`.
use fusions.Shared.{String, Option, List}
use fusions.Shared.Int.{ℤ}
use fusions.Core.WorkflowResult.{WorkflowResult}
use fusions.Core.ActivityType.{ActivityType}

pub record ParallelTarget (J : Type 0) : Type 0 where
  pub node_id : String
  pub activity_type : ActivityType
  pub assignee_role : Option String
  pub item_index : Option ℤ
  pub item_payload : Option J

pub data AdvanceOutcome (J : Type 0) : Type 0 where
  advance : (target_node : String) → (assignee_role : Option String) → AdvanceOutcome J
  advance_multi : (targets : List (ParallelTarget J)) → AdvanceOutcome J
  complete : (result : WorkflowResult) → AdvanceOutcome J
  rework : (target_node : String) → (assignee_role : Option String) → AdvanceOutcome J
  error : AdvanceOutcome J

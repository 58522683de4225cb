-- ===== src/Service/Config.antt =====
-- `WorkflowConfig` and `WorkflowService` of crates/hetuflow-service/src/service.rs, and the facts of one
-- instance that its methods pass on.
use fusions.Shared.{String, Option, none, some, List, [], ◌∷◌, ok, err, if◌then◌else◌, find, ◌==◌}
use fusions.Shared.Int.{ℤ, pos, min_ℤ, ltb_ℤ, is_positive}
use fusions.Core.Node.{WorkflowNode}
use fusions.Core.Definition.{DefinitionSnapshot}
use fusions.Core.Error.{FlowResult, invalid_state, conflict, Message}
use fusions.Service.Registry.{Handler}

abbrev pub max_round_hard_limit_max : ℤ
max_round_hard_limit_max = pos 20

pub record WorkflowConfig : Type 0 where
  pub reminder_template_code : String
  pub escalation_template_code : String
  pub notification_types : List String
  pub notification_reference_type : String
  pub notification_purpose : String
  pub notification_visibility : String
  pub max_round_hard_limit : ℤ

abbrev pub default_config : WorkflowConfig
default_config = record {
  reminder_template_code = "workflow_approval_reminder";
  escalation_template_code = "workflow_approval_escalation";
  notification_types = "NOTIFICATION_TYPE_IN_APP" ∷ [];
  notification_reference_type = "workflow_instance";
  notification_purpose = "workflow_notification";
  notification_visibility = "VISIBILITY_ACTION";
  max_round_hard_limit = max_round_hard_limit_max;
}

pub record WorkflowService (J : Type 0) : Type 0 where
  pub config : WorkflowConfig
  pub registry : List (String × Handler J)

-- `n.clamp(low, high)`
abbrev pub clamp : ℤ → ℤ → ℤ → ℤ
clamp n low high = if ltb_ℤ n low then low else if ltb_ℤ high n then high else n

unfoldable pub new_service :
    {J : Type 0} → WorkflowConfig → List (String × Handler J) → WorkflowService J
new_service config registry = record {
  config = record config {
    max_round_hard_limit = clamp config.max_round_hard_limit (pos 1) max_round_hard_limit_max;
  };
  registry = registry;
}

pub record InstanceCtx (J : Type 0) : Type 0 where
  pub instance_id : String
  pub tenant_id : ℤ
  pub facility_id : String
  pub snapshot : DefinitionSnapshot
  pub context : Option J
  pub business_type : String
  pub business_key : String
  pub reference_no : String

abbrev or_missing : String → Option WorkflowNode → FlowResult WorkflowNode
or_missing id none = err (invalid_state (Message.node_missing id))
or_missing id (some n) = ok n

unfoldable pub node_of : {J : Type 0} → InstanceCtx J → String → FlowResult WorkflowNode
node_of ctx id = or_missing id (find (λ n. n.id == id) ctx.snapshot.nodes)

-- The limit on rounds: the declared one, where there is one, below the service's.
unfoldable pub effective_limit : WorkflowConfig → DefinitionSnapshot → ℤ
effective_limit config snapshot =
    let declared =
      if is_positive snapshot.max_round then snapshot.max_round else config.max_round_hard_limit in
    min_ℤ declared config.max_round_hard_limit

unfoldable pub check_round : WorkflowConfig → DefinitionSnapshot → ℤ → FlowResult (Unit {0})
check_round config snapshot round =
    if ltb_ℤ (effective_limit config snapshot) round
    then err (conflict (Message.round_over_limit round (effective_limit config snapshot)))
    else ok tt

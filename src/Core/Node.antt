-- ===== src/Core/Node.antt =====
-- `WorkflowNode` of crates/hetuflow-core/src/lib.rs and its accessors. Each reads the configuration, so
-- it is defined by clauses on that.
use fusions.Shared.{String, Option, some, none, List, Bool, ◌==◌, if◌then◌else◌}
use fusions.Shared.Int.{ℤ, is_positive}
use fusions.Core.NodeKind.{NodeKind}
use fusions.Core.JoinStrategy.{JoinStrategy}
use fusions.Core.Config.{
  NodeConfig, NotificationConfig, AssignmentConfig, ConditionBranch, EventSourceMetadata,
}

pub record WorkflowNode : Type 0 where
  pub id : String
  pub name : String
  pub context_writes : List String
  pub config : NodeConfig

-- `Option::filter(|&s| s > 0)` and `filter(|s| !s.is_empty())`
abbrev pub when_positive : Option ℤ → Option ℤ
when_positive none = none
when_positive (some n) = if is_positive n then some n else none

abbrev pub is_empty : String → Bool
is_empty s = s == ""

abbrev pub when_nonempty : Option String → Option String
when_nonempty none = none
when_nonempty (some s) = if is_empty s then none else some s

unfoldable pub kind_of : NodeConfig → NodeKind
kind_of NodeConfig.start = NodeKind.start
kind_of (NodeConfig.approval _ _ _ _) = NodeKind.approval
kind_of (NodeConfig.notification _) = NodeKind.notification
kind_of (NodeConfig.end _) = NodeKind.end
kind_of (NodeConfig.condition _ _) = NodeKind.condition
kind_of NodeConfig.parallel = NodeKind.parallel
kind_of NodeConfig.timer = NodeKind.timer
kind_of (NodeConfig.event_wait _ _ _ _ _) = NodeKind.event_wait
kind_of (NodeConfig.parallel_split _) = NodeKind.parallel_split
kind_of (NodeConfig.parallel_join _) = NodeKind.parallel_join
kind_of (NodeConfig.assignment _) = NodeKind.assignment
kind_of NodeConfig.merge = NodeKind.merge
kind_of (NodeConfig.for_each _ _ _ _) = NodeKind.for_each
kind_of (NodeConfig.sub_workflow _ _ _) = NodeKind.sub_workflow

abbrev pub kind : WorkflowNode → NodeKind
kind n = kind_of n.config

unfoldable pub assignee_role_of : NodeConfig → Option String
assignee_role_of (NodeConfig.approval role _ _ _) = role
assignee_role_of _ = none

abbrev pub assignee_role : WorkflowNode → Option String
assignee_role n = assignee_role_of n.config

unfoldable pub sla_seconds_of : NodeConfig → Option ℤ
sla_seconds_of (NodeConfig.approval _ sla _ _) = when_positive sla
sla_seconds_of _ = none

abbrev pub sla_seconds : WorkflowNode → Option ℤ
sla_seconds n = sla_seconds_of n.config

both : Option ℤ → Option String → Option (ℤ × String)
both (some secs) (some role) = some (secs, role)
both _ _ = none

unfoldable pub escalation_config_of : NodeConfig → Option (ℤ × String)
unfolding both
escalation_config_of (NodeConfig.approval _ _ secs role) =
    both (when_positive secs) (when_nonempty role)
escalation_config_of _ = none

abbrev pub escalation_config : WorkflowNode → Option (ℤ × String)
escalation_config n = escalation_config_of n.config

unfoldable pub escalation_raw_of : NodeConfig → Option (Option ℤ × Option String)
escalation_raw_of (NodeConfig.approval _ _ secs role) = some (secs, role)
escalation_raw_of _ = none

unfoldable pub end_result_code_of : NodeConfig → Option String
end_result_code_of (NodeConfig.end code) = code
end_result_code_of _ = none

unfoldable pub condition_of : NodeConfig → Option (String × List ConditionBranch)
condition_of (NodeConfig.condition default branches) = some (default, branches)
condition_of _ = none

unfoldable pub event_wait_of : NodeConfig → Option (String × Option ℤ × Option String)
event_wait_of (NodeConfig.event_wait event_type seconds target _ _) =
    some (event_type, when_positive seconds, when_nonempty target)
event_wait_of _ = none

unfoldable pub event_wait_correlation_of :
    NodeConfig → Option (Option String × Option EventSourceMetadata)
event_wait_correlation_of (NodeConfig.event_wait _ _ _ key source) =
    some (when_nonempty key, source)
event_wait_correlation_of _ = none

unfoldable pub notification_of : NodeConfig → Option NotificationConfig
notification_of (NodeConfig.notification config) = some config
notification_of _ = none

unfoldable pub assignment_of : NodeConfig → Option AssignmentConfig
assignment_of (NodeConfig.assignment config) = some config
assignment_of _ = none

unfoldable pub sub_workflow_of : NodeConfig → Option (String × Option String × Option String)
sub_workflow_of (NodeConfig.sub_workflow child path failed) = some (child, path, failed)
sub_workflow_of _ = none

unfoldable pub parallel_split_of : NodeConfig → Option (List String)
parallel_split_of (NodeConfig.parallel_split targets) = some targets
parallel_split_of _ = none

unfoldable pub join_strategy_of : NodeConfig → Option JoinStrategy
join_strategy_of (NodeConfig.parallel_join strategy) = some strategy
join_strategy_of _ = none

unfoldable pub for_each_of : NodeConfig → Option (String × String × String × Option ℤ)
for_each_of (NodeConfig.for_each items template join cap) =
    some (items, template, join, when_positive cap)
for_each_of _ = none

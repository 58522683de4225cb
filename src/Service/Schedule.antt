-- ===== src/Service/Schedule.antt =====
-- `schedule_activity` of crates/hetuflow-service/src/service.rs: a row, the fact, the timers and, for a
-- notification, the delivery.
use fusions.Shared.{String, Option, none, some, List, [], ◌∷◌, Bool, true, false}
use fusions.Shared.Int.{ℤ}
use fusions.Core.NodeKind.{NodeKind}
use fusions.Core.ActivityType
use fusions.Core.ActivityType.{ActivityType}
use fusions.Core.EventType
use fusions.Core.OutboxActivity
use fusions.Core.Config.{NotificationConfig}
use fusions.Core.Node.{
  WorkflowNode, kind, sla_seconds, escalation_config, event_wait_of, notification_of,
}
use fusions.Core.Definition.{ActivityInstance}
use fusions.Core.Error.{validation, Message}
use fusions.Runtime.Replay.Model.{instantiated_activity_type}
use fusions.Store.External.{External}
use fusions.Store.Scope.{parse_uuid}
use fusions.Store.Activities.{insert_activity}
use fusions.Store.Timers.{schedule_timer}
use fusions.Service.Config.{WorkflowConfig, InstanceCtx}
use fusions.Service.Log.{append, text_or_null}
use fusions.Service.Notify.{notification_from_config, enqueue_notification}
use fusions.Service.Run.{Action, ◌>>=◌, ◌>>◌, write, modify, pure, attempt, must_not}

-- The kinds of timers.
abbrev pub reminder : String
reminder = "reminder"

abbrev pub escalation : String
escalation = "escalation"

abbrev pub timeout : String
timeout = "timeout"

pub record FanoutMark (J : Type 0) : Type 0 where
  pub via : String
  pub item_index : Option ℤ
  pub item_payload : Option J

abbrev is_sub_workflow : NodeKind → Bool
is_sub_workflow NodeKind.sub_workflow = true
is_sub_workflow _ = false

abbrev seconds_of : Option (ℤ × String) → Option ℤ
seconds_of none = none
seconds_of (some (secs, role)) = some secs

abbrev timeout_of : Option (String × Option ℤ × Option String) → Option ℤ
timeout_of none = none
timeout_of (some (type, secs, target)) = secs

module _ {Time J : Type 0} (x : External Time J) where
  abbrev item_fields : Option ℤ → Option J → List (String × J)
  item_fields none none = []
  item_fields none (some item) = ("item_payload", item) ∷ []
  item_fields (some i) none = ("item_index", x.number_value i) ∷ []
  item_fields (some i) (some item) = ("item_index", x.number_value i) ∷ ("item_payload", item) ∷ []

  abbrev fan_out_fields : Option (FanoutMark J) → List (String × J)
  fan_out_fields none = []
  fan_out_fields (some mark) =
      ("via", x.string_value mark.via) ∷ item_fields mark.item_index mark.item_payload

  unfoldable pub scheduled_payload :
      String → String → ActivityType → ℤ → Option String → Option (FanoutMark J) → J
  scheduled_payload id node type round role mark = x.object_value (
      ("activity_id", x.string_value id)
      ∷ ("activity_definition_id", x.string_value node)
      ∷ ("activity_type", x.string_value (ActivityType.as_str type))
      ∷ ("round", x.number_value round)
      ∷ ("assignee_role", text_or_null x role)
      ∷ fan_out_fields mark)

  unfoldable pub timer_if : InstanceCtx J → String → String → Option ℤ → Action Time J (Unit {0})
  timer_if ctx activity_id name none = pure tt
  timer_if ctx activity_id name (some secs) =
      modify (schedule_timer x ctx.tenant_id ctx.facility_id ctx.instance_id activity_id name secs)

  unfoldable pub schedule_timers : InstanceCtx J → WorkflowNode → String → Action Time J (Unit {0})
  schedule_timers ctx node activity_id = do
    timer_if ctx activity_id reminder (sla_seconds node)
    timer_if ctx activity_id escalation (seconds_of (escalation_config node))
    timer_if ctx activity_id timeout (timeout_of (event_wait_of node.config))

  unfoldable pub deliver_if :
      WorkflowConfig
      → InstanceCtx J
      → ActivityInstance Time
      → Option NotificationConfig
      → Action Time J (Unit {0})
  deliver_if config ctx activity none = pure tt
  deliver_if config ctx activity (some n) =
      enqueue_notification x ctx activity OutboxActivity.notification
        (notification_from_config x config ctx n)

  unfoldable pub schedule_activity :
      WorkflowConfig
      → InstanceCtx J
      → WorkflowNode
      → Option String
      → ℤ
      → Option (FanoutMark J)
      → Action Time J (ActivityInstance Time)
  schedule_activity config ctx node role round mark = do
    must_not (is_sub_workflow (kind node)) (validation (Message.sub_workflow_not_wired node.id))
    activity ← write (
        insert_activity x ctx.tenant_id ctx.instance_id node.id
          (instantiated_activity_type (kind node)) role round)
    activity_id ← attempt (parse_uuid x activity.id)
    append ctx EventType.activity_scheduled
        (scheduled_payload activity.id node.id (instantiated_activity_type (kind node)) round role
          mark)
        none
    schedule_timers ctx node activity_id
    deliver_if config ctx activity (notification_of node.config)
    pure activity

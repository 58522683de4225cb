-- ===== src/Service/Fire.antt =====
-- `WorkflowService::fire_timer` of crates/hetuflow-service/src/service.rs.
use fusions.Shared.{
  ℕ, String, Option, none, some, [], ◌∷◌, Bool, true, false, ◌==◌, if◌then◌else◌, not,
}
use fusions.Shared.Int.{ℤ}
use fusions.Core.EventType
use fusions.Core.OutboxActivity
use fusions.Core.WorkflowStatus.{is_terminal}
use fusions.Core.Node.{WorkflowNode, assignee_role, escalation_config}
use fusions.Core.Definition.{WorkflowInstance, ActivityInstance}
use fusions.Core.Error.{invalid_state, Message}
use fusions.Core.Payload.{TimerRecord}
use fusions.Runtime.Guard.{Cel}
use fusions.Runtime.Advance.{decide_event_wait_timeout}
use fusions.Store.External.{External}
use fusions.Store.Scope.{parse_uuid}
use fusions.Store.Instances.{load_instance, load_snapshot}
use fusions.Store.Activities.{
  load_activity, skip_activity_for_timeout, update_activity_assignee_role,
}
use fusions.Store.Timers.{mark_timer_fired, cancel_timers_for_activity}
use fusions.Service.Config.{WorkflowService, InstanceCtx, node_of}
use fusions.Service.Log.{append, text_or_null}
use fusions.Service.Notify.{notification_payload, enqueue_notification}
use fusions.Service.Schedule.{reminder, escalation, timeout}
use fusions.Service.Finish.{or_other}
use fusions.Service.Handle.{ctx_of, is_active_status}
use fusions.Service.Outcome.{apply_outcome}
use fusions.Service.Run.{
  Action, ◌>>=◌, ◌>>◌, read, write, write_only, modify, pure, fail, attempt, query,
}

module _ {Time J : Type 0} (x : External Time J) (cel : Cel J) (service : WorkflowService J) where
  unfoldable pub remind :
      InstanceCtx J → ActivityInstance Time → WorkflowNode → Action Time J (Unit {0})
  remind ctx activity node =
      enqueue_notification x ctx activity OutboxActivity.notification_reminder (
        notification_payload x service.config ctx service.config.reminder_template_code
          (or_other (assignee_role node) activity.assignee_role) node)

  abbrev tell_escalated :
      InstanceCtx J
      → ActivityInstance Time
      → WorkflowNode
      → String
      → Bool
      → Action Time J (Unit {0})
  tell_escalated ctx activity node to_role false = pure tt
  tell_escalated ctx activity node to_role true = do
    append ctx EventType.approval_escalated
        (x.object_value (
          ("activity_id", x.string_value activity.id)
          ∷ ("from_role", text_or_null x activity.assignee_role)
          ∷ ("to_role", x.string_value to_role)
          ∷ []))
        none
    enqueue_notification x ctx activity OutboxActivity.notification_escalation (
        notification_payload x service.config ctx service.config.escalation_template_code
          (some to_role) node)

  unfoldable pub escalate :
      InstanceCtx J
      → ActivityInstance Time
      → String
      → WorkflowNode
      → Option (ℤ × String)
      → Action Time J Bool
  escalate ctx activity activity_id node none = pure false
  escalate ctx activity activity_id node (some (secs, to_role)) = do
    changed ← write (update_activity_assignee_role activity_id to_role)
    tell_escalated ctx activity node to_role changed
    pure true

  unfoldable pub time_out :
      ℕ → InstanceCtx J → ActivityInstance Time → String → Action Time J (Unit {0})
  time_out fuel ctx activity activity_id = do
    write_only (skip_activity_for_timeout activity_id)
    modify (cancel_timers_for_activity activity_id)
    append ctx EventType.activity_skipped
        (x.object_value (("activity_id", x.string_value activity.id) ∷ [])) none
    let decision =
        decide_event_wait_timeout cel ctx.snapshot.nodes ctx.snapshot.transitions ctx.context
          activity.activity_definition_id
    apply_outcome x cel service fuel ctx decision.0 decision.1 activity activity.round

  -- The `match timer.timer_kind`.
  unfoldable pub act :
      ℕ
      → String
      → InstanceCtx J
      → ActivityInstance Time
      → String
      → WorkflowNode
      → Action Time J Bool
  act fuel timer_kind ctx activity activity_id node =
      if timer_kind == reminder
      then (do remind ctx activity node; pure true)
      else if timer_kind == escalation
      then escalate ctx activity activity_id node (escalation_config node)
      else if timer_kind == timeout
      then (do time_out fuel ctx activity activity_id; pure true)
      else fail (invalid_state (Message.unknown_timer_kind timer_kind))

  unfoldable pub fire_active :
      ℕ
      → TimerRecord
      → String
      → String
      → WorkflowInstance Time J
      → ActivityInstance Time
      → Action Time J Bool
  fire_active fuel timer instance_id activity_id instance activity = do
    snapshot ← query (load_snapshot x instance_id)
    ctx ← attempt (ctx_of x instance_id instance snapshot)
    node ← attempt (node_of ctx activity.activity_definition_id)
    append ctx EventType.timer_fired
        (x.object_value (
          ("timer_kind", x.string_value timer.timer_kind)
          ∷ ("activity_id", x.string_value activity.id)
          ∷ ("activity_definition_id", x.string_value node.id)
          ∷ []))
        none
    act fuel timer.timer_kind ctx activity activity_id node

  abbrev fire_on :
      ℕ
      → TimerRecord
      → String
      → String
      → WorkflowInstance Time J
      → Option (ActivityInstance Time)
      → Action Time J Bool
  fire_on fuel timer instance_id activity_id instance none = pure false
  fire_on fuel timer instance_id activity_id instance (some activity) =
      if not (is_active_status activity.status)
      then pure false
      else fire_active fuel timer instance_id activity_id instance activity

  abbrev fire_in :
      ℕ → TimerRecord → String → String → Option (WorkflowInstance Time J) → Action Time J Bool
  fire_in fuel timer instance_id activity_id none = pure false
  fire_in fuel timer instance_id activity_id (some instance) =
      if is_terminal instance.status then pure false else (do
        activity ← read (load_activity x activity_id)
        fire_on fuel timer instance_id activity_id instance activity)

  -- What a timer does once this call has marked it as fired.
  unfoldable pub fire_marked : ℕ → TimerRecord → Action Time J Bool
  fire_marked fuel timer = do
    instance_id ← attempt (parse_uuid x timer.workflow_instance_id)
    activity_id ← attempt (parse_uuid x timer.activity_instance_id)
    instance ← read (load_instance x instance_id)
    fire_in fuel timer instance_id activity_id instance

  unfoldable pub fire_timer : ℕ → TimerRecord → Action Time J Bool
  fire_timer fuel timer = do
    timer_id ← attempt (parse_uuid x timer.id)
    marked ← write (mark_timer_fired timer_id)
    (if marked then fire_marked fuel timer else pure false)

-- ===== src/Service/Notify.antt =====
-- The notifications of crates/hetuflow-service/src/service.rs: of a node, and the two that the service makes.
use fusions.Shared.{String, Option, none, some, [], ◌∷◌}
use fusions.Core.Config.{RecipientSelector, NotificationConfig}
use fusions.Core.Node.{WorkflowNode}
use fusions.Core.Definition.{ActivityInstance}
use fusions.Core.Error.{serialization, Message}
use fusions.Core.Payload.{NotificationPayload}
use fusions.Runtime.Replay.Activities.{or_else}
use fusions.Store.External.{External}
use fusions.Store.Scope.{parse_uuid}
use fusions.Store.Outbox.{enqueue_outbox}
use fusions.Service.Config.{WorkflowConfig, InstanceCtx}
use fusions.Service.Run.{Action, ◌>>=◌, modify, or_fail, attempt}

abbrev nobody : RecipientSelector
nobody = RecipientSelector.user_ids []

module _ {Time J : Type 0} (x : External Time J) where
  unfoldable pub notification_from_config :
      WorkflowConfig → InstanceCtx J → NotificationConfig → NotificationPayload
  notification_from_config config ctx n = record {
    tenant_id = x.json.display ctx.tenant_id;
    facility_id = some ctx.facility_id;
    template_code = or_else n.template_code "";
    recipient_selector = or_else n.recipient_selector nobody;
    channel_policy = n.channel_policy;
    template_args = n.template_args;
    reference_type = or_else n.reference_type config.notification_reference_type;
    purpose = or_else n.purpose config.notification_purpose;
    visibility = or_else n.visibility config.notification_visibility;
    business_type = ctx.business_type;
    business_key = ctx.business_key;
  }

  abbrev to_role : InstanceCtx J → Option String → RecipientSelector
  to_role ctx none = nobody
  to_role ctx (some role) = RecipientSelector.role role (some ctx.facility_id)

  unfoldable pub notification_payload :
      WorkflowConfig → InstanceCtx J → String → Option String → WorkflowNode → NotificationPayload
  notification_payload config ctx template role node = record {
    tenant_id = x.json.display ctx.tenant_id;
    facility_id = some ctx.facility_id;
    template_code = template;
    recipient_selector = to_role ctx role;
    channel_policy = record { notification_types = config.notification_types };
    template_args =
        ("node_id", node.id) ∷ ("node_name", node.name) ∷ ("reference_no", ctx.reference_no) ∷ [];
    reference_type = config.notification_reference_type;
    purpose = config.notification_purpose;
    visibility = config.notification_visibility;
    business_type = ctx.business_type;
    business_key = ctx.business_key;
  }

  unfoldable pub enqueue_notification :
      InstanceCtx J
      → ActivityInstance Time
      → String
      → NotificationPayload
      → Action Time J (Unit {0})
  enqueue_notification ctx activity outbox_type payload = do
    value ← or_fail (serialization Message.payload_not_serializable) (x.notification_value payload)
    activity_id ← attempt (parse_uuid x activity.id)
    modify (
        enqueue_outbox x ctx.tenant_id ctx.facility_id ctx.instance_id activity_id outbox_type
          value)

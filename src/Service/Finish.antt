-- ===== src/Service/Finish.antt =====
-- `complete_instance`, `terminal_callback` and `fail_instance` of crates/hetuflow-service/src/service.rs.
use Prim.Native.String.{◌++◌ as append_text}
use fusions.Shared.{
  String, Option, none, some, List, [], ◌∷◌, Bool, true, false, ok, err, if◌then◌else◌, find, ◌==◌,
}
use fusions.Core.EventType
use fusions.Core.OutboxActivity
use fusions.Core.WorkflowResult
use fusions.Core.WorkflowResult.{WorkflowResult}
use fusions.Core.Definition.{ActivityInstance, EventRecord}
use fusions.Core.Error.{FlowResult, conflict, validation, invalid_state, serialization, Message}
use fusions.Core.Payload.{
  BusinessCallbackPayload, IdempotencyKeyStrategy, payload_field, business_key, outbox_record_id,
}
use fusions.Runtime.Replay.Activities.{and_then, or_else}
use fusions.Store.External.{External}
use fusions.Store.Scope.{parse_uuid}
use fusions.Store.Instances.{complete_workflow_cas, error_workflow}
use fusions.Store.Activities.{active_activity, list_activities}
use fusions.Store.Events.{load_events}
use fusions.Store.Outbox.{enqueue_outbox}
use fusions.Service.Command.{TerminalCallback}
use fusions.Service.Registry.{Handler, get}
use fusions.Service.Config.{InstanceCtx}
use fusions.Service.Log.{append}
use fusions.Service.Run.{
  Action, ◌>>=◌, ◌>>◌, read, write, write_only, modify, pure, attempt, must, or_fail,
}

abbrev pub last_of {ℓ} : {A : Type ℓ} → List A → Option A
last_of [] = none
last_of (a ∷ []) = some a
last_of (a ∷ (b ∷ rest)) = last_of (b ∷ rest)

-- `a.or(b)`
abbrev pub or_other {ℓ} : {A : Type ℓ} → Option A → Option A → Option A
or_other none b = b
or_other (some a) b = some a

abbrev pub is_approved : WorkflowResult → Bool
is_approved WorkflowResult.approved = true
is_approved _ = false

abbrev pub business_text : {J : Type 0} → InstanceCtx J → String
business_text ctx = append_text ctx.business_type (append_text ":" ctx.business_key)

module _ {Time J : Type 0} (x : External Time J) where
  abbrev pub terminal_in : Option J → FlowResult (Option (TerminalCallback J))
  terminal_in none = ok none
  terminal_in (some value) = if x.is_null value then ok none else elim (x.terminal_of value) [
    | none ↦ err (serialization Message.terminal_callback_invalid)
    | some tc ↦ ok (some tc)
  ]

  abbrev pub terminal_of_started :
      Option (EventRecord Time J) → FlowResult (Option (TerminalCallback J))
  terminal_of_started none = ok none
  terminal_of_started (some started) = terminal_in (x.json.get started.payload "terminal_callback")

  unfoldable pub terminal_callback : InstanceCtx J → Action Time J (Option (TerminalCallback J))
  terminal_callback ctx = do
    events ← read (load_events ctx.instance_id)
    attempt (terminal_of_started (find (λ e. e.event_type == EventType.started) events))

  abbrev pub key_by : InstanceCtx J → J → IdempotencyKeyStrategy → String
  key_by ctx payload business_key = business_text ctx
  key_by ctx payload outbox_record_id = ctx.instance_id
  key_by ctx payload (payload_field name) =
      or_else (and_then (x.json.get payload name) x.json.as_str) (business_text ctx)

  abbrev pub callback_payload :
      InstanceCtx J
      → TerminalCallback J
      → ActivityInstance Time
      → Handler J
      → BusinessCallbackPayload J
  callback_payload ctx tc anchor handler = record {
    tenant_id = x.json.display ctx.tenant_id;
    facility_id = ctx.facility_id;
    workflow_instance_id = ctx.instance_id;
    activity_instance_id = anchor.id;
    handler_type = tc.handler_type;
    idempotency_key = key_by ctx tc.payload handler.idempotency_key_strategy;
    business_type = ctx.business_type;
    business_key = ctx.business_key;
    payload = tc.payload;
  }

  abbrev pub enqueue_callback :
      List (String × Handler J)
      → InstanceCtx J
      → Option (TerminalCallback J)
      → Action Time J (Unit {0})
  enqueue_callback registry ctx none = pure tt
  enqueue_callback registry ctx (some tc) = do
    active ← read (active_activity x ctx.instance_id)
    rows ← read (list_activities x ctx.instance_id)
    anchor ← or_fail (invalid_state Message.no_anchor) (or_other active (last_of rows))
    handler ←
        or_fail (validation (Message.handler_not_registered tc.handler_type))
          (get registry tc.handler_type)
    value ←
        or_fail (serialization Message.callback_not_serializable)
          (x.callback_value (callback_payload ctx tc anchor handler))
    activity_id ← attempt (parse_uuid x anchor.id)
    modify (
        enqueue_outbox x ctx.tenant_id ctx.facility_id ctx.instance_id activity_id
          OutboxActivity.business_callback value)

  -- Only an approval has the terminal side effect.
  unfoldable pub run_callback :
      List (String × Handler J) → InstanceCtx J → WorkflowResult → Action Time J (Unit {0})
  run_callback registry ctx result =
      if is_approved result
      then (do tc ← terminal_callback ctx; enqueue_callback registry ctx tc)
      else pure tt

  unfoldable pub result_payload : WorkflowResult → J
  result_payload result =
      x.object_value (("result", x.string_value (WorkflowResult.as_str result)) ∷ [])

  unfoldable pub complete_instance :
      List (String × Handler J) → InstanceCtx J → WorkflowResult → Action Time J (Unit {0})
  complete_instance registry ctx result = do
    won ← write (complete_workflow_cas ctx.instance_id (WorkflowResult.as_i16 result))
    must won (conflict Message.left_active)
    append ctx EventType.completed (result_payload result) none
    run_callback registry ctx result

  unfoldable pub fail_instance : InstanceCtx J → String → Action Time J (Unit {0})
  fail_instance ctx reason = do
    write_only (error_workflow ctx.instance_id)
    append ctx EventType.errored (x.object_value (("reason", x.string_value reason) ∷ [])) none

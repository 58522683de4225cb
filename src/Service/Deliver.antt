-- ===== src/Service/Deliver.antt =====
-- What follows a delivery, crates/hetuflow-service/src/service.rs: `on_notification_delivered`,
-- `on_business_callback_delivered` and `on_outbox_dead_letter`; and `verify_projection`.
use fusions.Shared.{
  ℕ, String, Option, none, some, List, [], ◌∷◌, Bool, true, false, length, if◌then◌else◌, not,
}
use fusions.Shared.Int.{pos}
use fusions.Core.EventType
use fusions.Core.WorkflowStatus.{is_terminal}
use fusions.Core.ActivityType.{ActivityType}
use fusions.Core.SignalType
use fusions.Core.Definition.{WorkflowInstance, ActivityInstance, DefinitionSnapshot, EventRecord}
use fusions.Core.Error.{not_found, Message}
use fusions.Core.Payload.{ScopeFilter}
use fusions.Runtime.Guard.{Cel}
use fusions.Runtime.Advance.{decide_advance}
use fusions.Runtime.Replay.Fold.{fold_events}
use fusions.Runtime.Replay.Diff.{Difference, diff_projection}
use fusions.Store.External.{External}
use fusions.Store.Scope.{get_instance_scoped}
use fusions.Store.Instances.{load_instance, load_snapshot, mark_side_effects_executed}
use fusions.Store.Activities.{load_activity, complete_activity_cas, list_activities}
use fusions.Store.Timers.{cancel_timers_for_activity}
use fusions.Store.Events.{load_events}
use fusions.Service.Command.{ProjectionVerification}
use fusions.Service.Config.{WorkflowService}
use fusions.Service.Log.{append}
use fusions.Service.Handle.{ctx_of, is_active_status}
use fusions.Service.Outcome.{apply_outcome}
use fusions.Service.Run.{
  Action, ◌>>=◌, ◌>>◌, read, write_only, modify, pure, attempt, or_fail, query,
}

abbrev is_notification : ActivityType → Bool
is_notification ActivityType.notification = true
is_notification _ = false

abbrev no_definition : DefinitionSnapshot
no_definition = record {
  flow_type = "";
  version = pos 0;
  nodes = [];
  transitions = [];
  max_round = pos 0;
}

abbrev is_nil {ℓ} : {A : Type ℓ} → List A → Bool
is_nil [] = true
is_nil (a ∷ rest) = false

module _ {Time J : Type 0} (x : External Time J) (cel : Cel J) (service : WorkflowService J) where
  unfoldable pub complete_delivered :
      ℕ
      → String
      → String
      → WorkflowInstance Time J
      → ActivityInstance Time
      → Action Time J (Unit {0})
  complete_delivered fuel instance_id activity_id instance activity = do
    snapshot ← query (load_snapshot x instance_id)
    ctx ← attempt (ctx_of x instance_id instance snapshot)
    write_only (complete_activity_cas activity_id none (pos 0) none)
    modify (cancel_timers_for_activity activity_id)
    append ctx EventType.activity_completed
        (x.object_value (
          ("activity_id", x.string_value activity.id)
          ∷ ("result", x.null_value)
          ∷ ("source", x.string_value "notification_outbox")
          ∷ []))
        none
    let decision =
        decide_advance cel ctx.snapshot.nodes ctx.snapshot.transitions ctx.context
          activity.activity_definition_id SignalType.completed
    apply_outcome x cel service fuel ctx decision.0 decision.1 activity activity.round

  -- A reminder rides on an approval that is active already: its delivery completes nothing.
  abbrev delivered_on :
      ℕ
      → String
      → String
      → WorkflowInstance Time J
      → Option (ActivityInstance Time)
      → Action Time J (Unit {0})
  delivered_on fuel instance_id activity_id instance none = pure tt
  delivered_on fuel instance_id activity_id instance (some activity) =
      if not (is_active_status activity.status)
      then pure tt
      else if not (is_notification activity.activity_type)
      then pure tt
      else complete_delivered fuel instance_id activity_id instance activity

  abbrev delivered_in :
      ℕ → String → String → Option (WorkflowInstance Time J) → Action Time J (Unit {0})
  delivered_in fuel instance_id activity_id none = pure tt
  delivered_in fuel instance_id activity_id (some instance) =
      if is_terminal instance.status then pure tt else (do
        activity ← read (load_activity x activity_id)
        delivered_on fuel instance_id activity_id instance activity)

  unfoldable pub on_notification_delivered : ℕ → String → String → Action Time J (Unit {0})
  on_notification_delivered fuel instance_id activity_id = do
    instance ← read (load_instance x instance_id)
    delivered_in fuel instance_id activity_id instance

unfoldable pub on_business_callback_delivered :
    {Time J : Type 0} → String → Action Time J (Unit {0})
on_business_callback_delivered instance_id = write_only (mark_side_effects_executed instance_id)

module _ {Time J : Type 0} (x : External Time J) where
  -- The context of the log line holds no definition.
  abbrev log_dead :
      String
      → String
      → String
      → String
      → Option (WorkflowInstance Time J)
      → Action Time J (Unit {0})
  log_dead instance_id activity_id activity_type last_error none = pure tt
  log_dead instance_id activity_id activity_type last_error (some instance) = do
    ctx ← attempt (ctx_of x instance_id instance no_definition)
    append (record ctx { context = none }) EventType.activity_failed
        (x.object_value (
          ("activity_id", x.string_value activity_id)
          ∷ ("outbox_activity_type", x.string_value activity_type)
          ∷ ("error", x.string_value last_error)
          ∷ []))
        none

  unfoldable pub on_outbox_dead_letter :
      String → String → String → String → Action Time J (Unit {0})
  on_outbox_dead_letter instance_id activity_id activity_type last_error = do
    instance ← read (load_instance x instance_id)
    log_dead instance_id activity_id activity_type last_error instance

  abbrev verification :
      String → List (EventRecord Time J) → List Difference → ProjectionVerification
  verification id events differences = record {
    instance_id = id;
    event_count = length events;
    consistent = is_nil differences;
    differences = differences;
  }

  unfoldable pub verify_projection : ScopeFilter → String → Action Time J ProjectionVerification
  verify_projection scope id = do
    found ← query (get_instance_scoped x scope id)
    instance ← or_fail (not_found (Message.instance_not_visible id)) found
    snapshot ← query (load_snapshot x id)
    events ← read (load_events id)
    activities ← read (list_activities x id)
    pure (
        verification id events
          (diff_projection (fold_events x.json snapshot events) instance activities))

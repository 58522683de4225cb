-- ===== src/Service/Handle.antt =====
-- `WorkflowService::signal` and `resubmit` of crates/hetuflow-service/src/service.rs.
use fusions.Shared.{
  ℕ, String, Option, none, some, List, [], ◌∷◌, Bool, true, false, not, ok, err, ◌==◌, length,
  if◌then◌else◌,
}
use fusions.Shared.Int.{pos, ◌+ℤ◌}
use fusions.Core.EventType
use fusions.Core.WorkflowStatus.{WorkflowStatus, is_terminal}
use fusions.Core.WorkflowResult.{WorkflowResult}
use fusions.Core.ActivityStatus.{ActivityStatus}
use fusions.Core.Node.{WorkflowNode}
use fusions.Core.Definition.{WorkflowInstance, ActivityInstance, DefinitionSnapshot}
use fusions.Core.Error.{FlowResult, validation, not_found, conflict, invalid_state, Message}
use fusions.Core.Payload.{ScopeFilter}
use fusions.Runtime.Guard.{Cel}
use fusions.Runtime.Advance.{decide_start, decide_advance}
use fusions.Store.External.{External}
use fusions.Store.Rows.{map_some}
use fusions.Store.Scope.{parse_uuid, parse_i64, load_instance_for_update_scoped}
use fusions.Store.Instances.{load_snapshot, resume_from_returned_waiting, reactivate_workflow}
use fusions.Store.Activities.{active_activities, load_activity, update_activity_assignee, max_round}
use fusions.Store.Events.{idempotency_seen}
use fusions.Service.Command.{SignalCommand, SignalOutcome}
use fusions.Service.Config.{WorkflowService, InstanceCtx, node_of, check_round}
use fusions.Service.Signal.{check_signal_against_node, signal_result, signal_str, is_assignment}
use fusions.Service.Log.{append, reload, text_or_null}
use fusions.Service.Complete.{complete_activity, apply_context_writes}
use fusions.Service.Outcome.{apply_outcome, advance_to}
use fusions.Service.Run.{
  Action, ◌>>=◌, ◌>>◌, read, write, write_only, pure, attempt, or_fail, must, must_not, query,
}

abbrev pub is_active_status : ActivityStatus → Bool
is_active_status ActivityStatus.active = true
is_active_status _ = false

abbrev pub is_waiting : WorkflowStatus → Bool
is_waiting WorkflowStatus.returned_waiting = true
is_waiting _ = false

abbrev pub was_returned : WorkflowStatus → Option WorkflowResult → Bool
was_returned WorkflowStatus.completed (some WorkflowResult.returned) = true
was_returned _ _ = false

-- The only active activity, where the caller names none.
abbrev pub only_active :
    {Time : Type 0} → String → List (ActivityInstance Time) → FlowResult (ActivityInstance Time)
only_active id [] = err (conflict (Message.no_active_activity id))
only_active id (a ∷ []) = ok a
only_active id (a ∷ (b ∷ rest)) =
    err (validation (Message.ambiguous_activity id (length (a ∷ b ∷ rest))))

module _ {Time J : Type 0} (x : External Time J) where
  unfoldable pub check_target :
      String → String → ActivityInstance Time → FlowResult (ActivityInstance Time)
  check_target instance_id id activity =
      if not (activity.workflow_instance_id == instance_id)
      then err (validation (Message.activity_elsewhere id))
      else if not (is_active_status activity.status)
      then err (conflict (Message.activity_not_active id))
      else ok activity

  unfoldable pub resolve_target_activity :
      String → Option String → Action Time J (ActivityInstance Time)
  resolve_target_activity instance_id (some id) = do
    found ← read (load_activity x id)
    activity ← or_fail (not_found (Message.activity_not_found id)) found
    attempt (check_target instance_id id activity)
  resolve_target_activity instance_id none = do
    active ← read (active_activities x instance_id)
    attempt (only_active instance_id active)

  -- The `InstanceCtx` of a stored instance.
  unfoldable pub ctx_of :
      String → WorkflowInstance Time J → DefinitionSnapshot → FlowResult (InstanceCtx J)
  ctx_of id instance snapshot = elim (parse_i64 x instance.tenant_id "tenant_id") [
    | err e ↦ err e
    | ok tenant_id ↦ elim (parse_uuid x instance.facility_id) [
      | err e ↦ err e
      | ok facility_id ↦ ok (record {
        instance_id = id;
        tenant_id = tenant_id;
        facility_id = facility_id;
        snapshot = snapshot;
        context = instance.context;
        business_type = instance.business_type;
        business_key = instance.business_key;
        reference_no = instance.reference_no;
      })
    ]
  ]

  abbrev pub outcome_of :
      String → WorkflowInstance Time J → Bool → Action Time J (SignalOutcome Time J)
  outcome_of id instance replayed = do
    active ← read (active_activities x id)
    pure (record { instance = instance; active_activities = active; replayed = replayed })

  abbrev pub finish : String → Action Time J (SignalOutcome Time J)
  finish id = do instance ← reload x id; outcome_of id instance false

  -- A claim or a reassignment: the graph does not move.
  unfoldable pub assign :
      InstanceCtx J → SignalCommand J → ActivityInstance Time → String → Action Time J (Unit {0})
  assign ctx cmd activity activity_id = do
    write_only (update_activity_assignee activity_id cmd.assignee_id)
    append ctx EventType.signal_received
        (x.object_value (
          ("signal_type", x.string_value (signal_str cmd.signal))
          ∷ ("target_activity_id", x.string_value activity.id)
          ∷ ("assignee_id", text_or_null x (map_some x.json.display cmd.assignee_id))
          ∷ []))
        (some cmd.idempotency_key)

  unfoldable pub log_review :
      InstanceCtx J → SignalCommand J → ActivityInstance Time → Action Time J (Unit {0})
  log_review ctx cmd activity =
      append ctx EventType.signal_received
        (x.object_value (
          ("signal_type", x.string_value (signal_str cmd.signal))
          ∷ ("target_activity_id", x.string_value activity.id)
          ∷ ("reviewer_id", x.string_value (x.json.display cmd.actor_user_id))
          ∷ ("review_notes", text_or_null x cmd.review_notes)
          ∷ []))
        (some cmd.idempotency_key)

  abbrev pub log_resumed : InstanceCtx J → ActivityInstance Time → Bool → Action Time J (Unit {0})
  log_resumed ctx activity false = pure tt
  log_resumed ctx activity true =
      append ctx EventType.rework_resumed
        (x.object_value (
          ("rework_target", x.string_value activity.activity_definition_id)
          ∷ ("round", x.number_value activity.round)
          ∷ []))
        none

  -- The activity of a `returned_waiting` instance is done, so the instance is active again.
  unfoldable pub resume :
      InstanceCtx J → WorkflowStatus → ActivityInstance Time → Action Time J (Unit {0})
  resume ctx status activity =
      if is_waiting status
      then (do
        resumed ← write (resume_from_returned_waiting ctx.instance_id)
        log_resumed ctx activity resumed)
      else pure tt

module _ {Time J : Type 0} (x : External Time J) (cel : Cel J) (service : WorkflowService J) where
  -- The facts and rows of a review, once the context is written.
  unfoldable pub review_in :
      ℕ
      → SignalCommand J
      → WorkflowStatus
      → ActivityInstance Time
      → InstanceCtx J
      → Action Time J (Unit {0})
  review_in fuel cmd status activity ctx = do
    log_review x ctx cmd activity
    complete_activity x ctx activity (signal_result cmd.signal) cmd.actor_user_id cmd.review_notes
    resume x ctx status activity
    let decision =
        decide_advance cel ctx.snapshot.nodes ctx.snapshot.transitions ctx.context
          activity.activity_definition_id cmd.signal
    apply_outcome x cel service fuel ctx decision.0 decision.1 activity activity.round

  unfoldable pub review :
      ℕ
      → InstanceCtx J
      → SignalCommand J
      → WorkflowStatus
      → ActivityInstance Time
      → WorkflowNode
      → Action Time J (Unit {0})
  review fuel ctx cmd status activity node = do
    ctx' ← apply_context_writes x ctx node activity.round cmd.context_patch
    review_in fuel cmd status activity ctx'

  unfoldable pub act_on :
      ℕ
      → SignalCommand J
      → WorkflowStatus
      → InstanceCtx J
      → ActivityInstance Time
      → Action Time J (Unit {0})
  act_on fuel cmd status ctx activity = do
    activity_id ← attempt (parse_uuid x activity.id)
    node ← attempt (node_of ctx activity.activity_definition_id)
    attempt (check_signal_against_node node cmd.signal cmd.event_type)
    (if is_assignment cmd.signal
        then assign x ctx cmd activity activity_id
        else review fuel ctx cmd status activity node)

  unfoldable pub handle_in :
      ℕ → SignalCommand J → WorkflowStatus → InstanceCtx J → Action Time J (Unit {0})
  handle_in fuel cmd status ctx = do
    activity ← resolve_target_activity x cmd.instance_id cmd.activity_id
    act_on fuel cmd status ctx activity

  -- What a signal does to an instance that is not terminal.
  unfoldable pub handle :
      ℕ → SignalCommand J → WorkflowInstance Time J → Action Time J (SignalOutcome Time J)
  handle fuel cmd instance = do
    snapshot ← query (load_snapshot x cmd.instance_id)
    ctx ← attempt (ctx_of x cmd.instance_id instance snapshot)
    handle_in fuel cmd instance.status ctx
    finish x cmd.instance_id

  unfoldable pub signal : ℕ → SignalCommand J → Action Time J (SignalOutcome Time J)
  signal fuel cmd = do
    must_not (x.is_blank cmd.idempotency_key) (validation Message.idempotency_key_missing)
    found ← query (load_instance_for_update_scoped x cmd.scope cmd.instance_id)
    instance ← or_fail (not_found (Message.instance_not_visible cmd.instance_id)) found
    seen ← read (idempotency_seen cmd.instance_id cmd.idempotency_key)
    (if seen then outcome_of x cmd.instance_id instance true else (do
      must_not (is_terminal instance.status)
          (conflict (Message.instance_terminal cmd.instance_id instance.status))
      handle fuel cmd instance))

  unfoldable pub reenter : String → String → WorkflowInstance Time J → Action Time J (Unit {0})
  reenter id key instance = do
    snapshot ← query (load_snapshot x id)
    ctx ← attempt (ctx_of x id instance snapshot)
    last ← read (max_round id)
    attempt (check_round service.config ctx.snapshot (last +ℤ pos 1))
    won ← write (reactivate_workflow id)
    must won (conflict Message.reactivate_lost)
    append ctx EventType.reactivated
        (x.object_value (("round", x.number_value (last +ℤ pos 1)) ∷ [])) (some key)
    entry ← or_fail (validation Message.no_entry_node) (decide_start ctx.snapshot.nodes)
    node ← attempt (node_of ctx entry.0)
    advance_to x cel service ctx node entry.1 (last +ℤ pos 1)

  unfoldable pub resubmit : ScopeFilter → String → String → Action Time J (SignalOutcome Time J)
  resubmit scope id key = do
    must_not (x.is_blank key) (validation Message.idempotency_key_missing)
    found ← query (load_instance_for_update_scoped x scope id)
    instance ← or_fail (not_found (Message.instance_not_visible id)) found
    seen ← read (idempotency_seen id key)
    (if seen then outcome_of x id instance true else (do
      must (was_returned instance.status instance.result)
          (invalid_state (Message.not_returned instance.status))
      reenter id key instance
      finish x id))

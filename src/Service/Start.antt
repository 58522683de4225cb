-- ===== src/Service/Start.antt =====
-- `WorkflowService::start` of crates/hetuflow-service/src/service.rs.
use fusions.Shared.{String, Option, none, some, [], ◌∷◌, Bool, true, false, ◌==◌}
use fusions.Shared.Int.{pos}
use fusions.Core.EventType
use fusions.Core.Definition.{WorkflowInstance}
use fusions.Core.Error.{validation, serialization, conflict, Message}
use fusions.Runtime.Guard.{Cel}
use fusions.Runtime.Advance.{decide_start}
use fusions.Runtime.Validate.{validate_definition}
use fusions.Store.External.{External}
use fusions.Store.Scope.{parse_uuid}
use fusions.Store.Instances.{insert_instance_on_conflict, active_instance_by_business_key}
use fusions.Store.Activities.{active_activities}
use fusions.Service.Command.{StartCommand, StartOutcome, TerminalCallback}
use fusions.Service.Registry.{contains_key}
use fusions.Service.Config.{WorkflowService, InstanceCtx, node_of}
use fusions.Service.Log.{append, reload, value_or_null}
use fusions.Service.Outcome.{advance_to}
use fusions.Service.Run.{Action, ◌>>=◌, ◌>>◌, read, write, pure, attempt, or_fail, must, must_not}

module _ {Time J : Type 0} (x : External Time J) (cel : Cel J) (service : WorkflowService J) where
  abbrev check_terminal : Option (TerminalCallback J) → Action Time J (Unit {0})
  check_terminal none = pure tt
  check_terminal (some tc) = do
    must_not (tc.handler_type == "") (validation Message.handler_type_empty)
    must (contains_key service.registry tc.handler_type)
        (validation (Message.handler_not_registered tc.handler_type))

  -- `serde_json::to_value(tc).unwrap_or(Value::Null)`
  abbrev terminal_or_null : Option (TerminalCallback J) → J
  terminal_or_null none = x.null_value
  terminal_or_null (some tc) = value_or_null x (x.terminal_value tc)

  unfoldable pub started_payload : StartCommand J → String → J
  started_payload cmd hash = x.object_value (
      ("flow_type", x.string_value cmd.snapshot.flow_type)
      ∷ ("version", x.number_value cmd.snapshot.version)
      ∷ ("definition_hash", x.string_value hash)
      ∷ ("business_type", x.string_value cmd.business_type)
      ∷ ("business_key", x.string_value cmd.business_key)
      ∷ ("context", value_or_null x cmd.context)
      ∷ ("terminal_callback", terminal_or_null cmd.terminal_callback)
      ∷ [])

  abbrev started_ctx : StartCommand J → String → InstanceCtx J
  started_ctx cmd instance_id = record {
    instance_id = instance_id;
    tenant_id = cmd.tenant_id;
    facility_id = cmd.facility_id;
    snapshot = cmd.snapshot;
    context = cmd.context;
    business_type = cmd.business_type;
    business_key = cmd.business_key;
    reference_no = cmd.reference_no;
  }

  abbrev outcome_of : String → WorkflowInstance Time J → Bool → Action Time J (StartOutcome Time J)
  outcome_of id instance created = do
    active ← read (active_activities x id)
    pure (record { instance = instance; created = created; active_activities = active })

  -- An idempotent hit, or the new instance with its first activity.
  unfoldable pub enter_start :
      StartCommand J
      → String
      → Option String
      → String
      → Option (WorkflowInstance Time J)
      → Action Time J (StartOutcome Time J)
  enter_start cmd entry role hash none = do
    found ← read (active_instance_by_business_key x cmd.business_key cmd.business_type)
    existing ←
        or_fail (conflict (Message.start_unreadable cmd.business_type cmd.business_key)) found
    instance_id ← attempt (parse_uuid x existing.id)
    outcome_of instance_id existing false
  enter_start cmd entry role hash (some instance) = do
    instance_id ← attempt (parse_uuid x instance.id)
    let ctx = started_ctx cmd instance_id
    append ctx EventType.started (started_payload cmd hash) none
    node ← attempt (node_of ctx entry)
    advance_to x cel service ctx node role (pos 1)
    instance' ← reload x instance_id
    outcome_of instance_id instance' true

  unfoldable pub start : StartCommand J → Action Time J (StartOutcome Time J)
  start cmd = do
    attempt (validate_definition cel cmd.snapshot.nodes cmd.snapshot.transitions)
    entry ← or_fail (validation Message.no_entry_node) (decide_start cmd.snapshot.nodes)
    check_terminal cmd.terminal_callback
    snapshot ←
        or_fail (serialization Message.snapshot_not_serializable) (x.snapshot_value cmd.snapshot)
    inserted ← write (
        insert_instance_on_conflict x cmd.tenant_id cmd.facility_id cmd.definition_id
          cmd.reference_no cmd.business_key cmd.business_type cmd.context snapshot
          (x.definition_hash snapshot))
    enter_start cmd entry.0 entry.1 (x.definition_hash snapshot) inserted

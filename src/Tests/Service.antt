-- ===== src/Tests/Service.antt =====
-- The theorems on the service at an instance under way.
use fusions.Shared.{
  String, none, some, [], ◌∷◌, true, false, ok, ◌≡◌, refl, arith, ◌⊎◌, length, filter, contains,
  find, for_each, any, ◌==◌, if◌then◌else◌,
}
use fusions.Shared.Int.{ℤ, pos, i32_of, leb_ℤ}
use fusions.Core.EventType
use fusions.Core.SignalType
use fusions.Core.WorkflowStatus
use fusions.Core.ActivityType
use fusions.Core.ActivityStatus
use fusions.Core.Error.{FlowError}
use fusions.Core.Payload.{business_key, all_in_tenant}
use fusions.Core.Config.{NodeConfig}
use fusions.Core.Node.{kind_of}
use fusions.Core.Definition.{WorkflowInstance, DefinitionSnapshot}
use fusions.Runtime.Guard.{Cel}
use fusions.Runtime.Resolve.{find_next_transition}
use fusions.Runtime.Validate.{validate_domain_driven, check_domain_driven}
use fusions.Runtime.Replay.Activities.{on_started, on_scheduled, pstr, pi32, update_first}
use fusions.Runtime.Replay.Fold.{fold_events, step}
use fusions.Store.Sql.{sort_by, insert_by}
use fusions.Store.Rows.{
  InstanceRow, ActivityRow, EventRow, InstanceRow_into_model, ActivityRow_into_model,
}
use fusions.Store.Tables.{Tables}
use fusions.Store.Scope.{
  parse_uuid, get_instance_scoped, load_instance_for_update_scoped, push_scope, parse_i64, in_scope,
}
use fusions.Store.Events.{load_events, idempotency_seen, append_event}
use fusions.Store.Activities.{
  active_activities, load_activity, update_activity_assignee, change_activities,
}
use fusions.Service.Command.{SignalCommand, SignalOutcome}
use fusions.Service.Registry.{Handler, get, register, contains_key}
use fusions.Service.Registered.{register-get}
use fusions.Service.Config.{
  WorkflowService, node_of, default_config, new_service, check_round, effective_limit,
  max_round_hard_limit_max,
}
use fusions.Service.Rounds.{check_round-bounded}
use fusions.Service.Handle.{
  signal, handle, ctx_of, handle_in, resolve_target_activity, check_target, act_on, assign,
}
use fusions.Service.Log.{append, reload}
use fusions.Service.Signal.{check_signal_against_node}
use fusions.Service.Once.Signal.{signal-once}
use fusions.Store.Instances.{load_snapshot, load_instance}
use fusions.Service.Deliver.{verify_projection}
use fusions.Service.Schedule.{scheduled_payload}
use fusions.Service.Run.{done, failed, must_not, attempt, or_fail}
use fusions.Service.Agreement.{Consistent}
use fusions.Service.Agreement.Signal.{NoHandBack}
use fusions.Service.Agreement.Keep.{signal-keeps}
use fusions.Service.Agreement.Verify.{verify_projection-Consistent}
use fusions.Tests.Data.{node, edge, lead}
use fusions.Tests.World.{Value, world, world-IsLawful, numeral, null, definition, object, no_fields}

-- No expression compiles.
abbrev silent : Cel Value
silent = record {
  Program = String;
  Context = String;
  Value = String;
  compile = λ s. none;
  empty_object = null;
  add_variable = λ j. none;
  execute = λ p c. none;
  as_bool = λ v. none;
  json = λ v. none;
  as_array = λ v. none;
}

-- Two approvals, one after the other.
abbrev approvals : DefinitionSnapshot
approvals = record {
  flow_type = "serial";
  version = pos 1;
  nodes =
      node "s" NodeConfig.start
      ∷ node "a" lead
      ∷ node "b" lead
      ∷ node "e" (NodeConfig.end none)
      ∷ [];
  transitions = edge "a" SignalType.approved "b" ∷ edge "b" SignalType.approved "e" ∷ [];
  max_round = pos 3;
}

abbrev under_way : InstanceRow ℤ Value
under_way = record {
  id = "";
  tenant_id = pos 1;
  facility_id = "f";
  reference_no = "r";
  workflow_definition_id = "d";
  business_key = "k";
  business_type = "order";
  status = pos 2;
  current_activity_id = some "i";
  result = none;
  side_effects_executed = false;
  context = none;
  definition_snapshot = definition approvals;
  definition_hash = "hash";
  started_at = some (pos 0);
  completed_at = none;
  created_at = pos 0;
  updated_at = pos 0;
}

abbrev waiting : ActivityRow ℤ
waiting = record {
  id = "i";
  tenant_id = pos 1;
  workflow_instance_id = "";
  activity_definition_id = "a";
  activity_type = pos 1;
  status = pos 2;
  assignee_role = some "lead";
  assignee_id = none;
  result = none;
  review_notes = none;
  reviewed_by = none;
  reviewed_at = none;
  round = pos 1;
}

abbrev fact : ℤ → String → Value → EventRow ℤ Value
fact seq type payload = record {
  tenant_id = pos 1;
  facility_id = "f";
  workflow_instance_id = "";
  seq = seq;
  event_type = type;
  event_payload = payload;
  idempotency_key = none;
  created_at = pos 0;
}

abbrev pub tables : Tables ℤ Value
tables = record {
  instances = under_way ∷ [];
  activities = waiting ∷ [];
  events =
      fact (pos 1) EventType.started (object no_fields)
      ∷ fact (pos 2) EventType.activity_scheduled
          (scheduled_payload world "i" "a" ActivityType.approval (pos 1) (some "lead") none)
      ∷ [];
  outbox = [];
  timers = [];
  now = pos 7;
  made = 2;
}

agreement : Consistent world "" approvals tables
unfolding scheduled_payload filter contains fold_events step on_started on_scheduled sort_by
    insert_by pstr pi32 update_first WorkflowStatus.from_i16 ActivityStatus.from_i16
    InstanceRow_into_model ActivityRow_into_model i32_of
agreement = record {
  row = under_way;
  only = refl;
  bound = refl;
  begun = λ e. cc e;
  same = (refl, (refl, refl));
  aligned = (
    record {
      same_id = refl;
      same = (refl, (refl, (refl, (refl, (refl, (refl, refl))))));
      small = refl;
    },
    tt,
  );
  distinct = (refl, tt);
  older = ((1, omega arith, refl), tt);
}

abbrev approve : SignalCommand Value
approve = record {
  scope = record { tenant_id = numeral (pos 1); facilities = all_in_tenant };
  instance_id = "";
  signal = SignalType.approved;
  activity_id = some "i";
  idempotency_key = "once";
  actor_user_id = pos 4;
  review_notes = none;
  event_type = none;
  assignee_id = none;
  context_patch = none;
}

abbrev service : WorkflowService Value
service = record { config = default_config; registry = [] }

approvals-domain : validate_domain_driven approvals.nodes ≡ ok tt
unfolding validate_domain_driven for_each check_domain_driven kind_of
approvals-domain = refl

approvals-NoHandBack : NoHandBack approvals.transitions
unfolding find_next_transition find SignalType.eq
approvals-NoHandBack from = ground arith

signal-keeps_example :
    ((e : FlowError) × (signal world silent service 1 approve tables ≡ failed e))
    ⊎ ((out : SignalOutcome ℤ Value) × (u : Tables ℤ Value) × (signal world silent service 1 approve
            tables
          ≡ done out u)
        × Consistent world "" approvals u)
signal-keeps_example =
    signal-keeps world world-IsLawful silent service approvals 0 approve tables approvals-domain
      approvals-NoHandBack agreement

shown :
    get_instance_scoped world approve.scope "" tables
    ≡ ok (some (InstanceRow_into_model numeral under_way))
unfolding get_instance_scoped push_scope parse_i64 in_scope find
shown = refl

verify_projection-Consistent_example :
    verify_projection world approve.scope "" tables
    ≡ done
        (record {
          instance_id = "";
          event_count = length (load_events "" tables);
          consistent = true;
          differences = [];
        })
        tables
verify_projection-Consistent_example =
    verify_projection-Consistent world approve.scope "" approvals tables agreement shown

abbrev claim : SignalCommand Value
claim = record approve { signal = SignalType.claimed; assignee_id = some (pos 9) }

-- The claim, run.
claimed :
    (out : SignalOutcome ℤ Value) × (u : Tables ℤ Value) × (signal world silent service 1 claim
        tables
      ≡ done out u)
unfolding signal must_not attempt load_instance_for_update_scoped push_scope parse_i64 or_fail find
    in_scope idempotency_seen any WorkflowStatus.is_terminal InstanceRow_into_model
    WorkflowStatus.from_i16 handle load_snapshot ctx_of parse_uuid handle_in resolve_target_activity
    load_activity ActivityRow_into_model ActivityStatus.from_i16 check_target act_on node_of
    check_signal_against_node kind_of assign append reload load_instance append_event
    update_activity_assignee change_activities
claimed = (_, _, refl)

signal-once_example :
    (instance : WorkflowInstance ℤ Value) × (signal world silent service 1 approve claimed.1
      ≡ done
          (record {
            instance = instance;
            active_activities = active_activities world "" claimed.1;
            replayed = true;
          })
          claimed.1)
signal-once_example =
    signal-once world silent service 1 1 claim approve tables claimed.1 {out = claimed.0} claimed.2
      refl refl refl

check_round-bounded_example : leb_ℤ (pos 3) max_round_hard_limit_max ≡ true
unfolding check_round effective_limit new_service
check_round-bounded_example =
    check_round-bounded {J = Value} (record default_config { max_round_hard_limit = pos 50 }) []
      approvals (pos 3) refl

abbrev shipping : Handler Value
shipping = record {
  handler_type = "ship";
  idempotency_key_strategy = business_key;
  execute = λ p. ok tt;
}

register-get_example :
    (get {J = Value} [] "ship" ≡ none)
    × (get (("ship", shipping) ∷ []) "bill"
        ≡ (if "ship" == "bill" then some shipping else get [] "bill"))
unfolding register contains_key get
register-get_example = register-get shipping [] (("ship", shipping) ∷ []) "bill" refl

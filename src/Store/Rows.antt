-- ===== src/Store/Rows.antt =====
-- The rows of the five tables, crates/hetuflow-sqlx/src/lib.rs: the columns of the row types there, with
-- those that the statements write or test besides. A uuid is its canonical text.
use fusions.Shared.{String, Option, none, some, Bool}
use fusions.Shared.Int.{ℤ}
use fusions.Core.WorkflowStatus
use fusions.Core.WorkflowResult
use fusions.Core.ActivityType
use fusions.Core.ActivityStatus
use fusions.Core.Definition.{WorkflowInstance, ActivityInstance, EventRecord}
use fusions.Core.Payload.{OutboxRecord, TimerRecord}
use fusions.Runtime.Replay.Activities.{and_then}
use fusions.Store.Codec.{activity_result_to_str, outbox_status_str, timer_kind_str}

pub record InstanceRow (Time J : Type 0) : Type 0 where
  pub id : String
  pub tenant_id : ℤ
  pub facility_id : String
  pub reference_no : String
  pub workflow_definition_id : String
  pub business_key : String
  pub business_type : String
  pub status : ℤ
  pub current_activity_id : Option String
  pub result : Option ℤ
  pub side_effects_executed : Bool
  pub context : Option J
  pub definition_snapshot : J
  pub definition_hash : String
  pub started_at : Option Time
  pub completed_at : Option Time
  pub created_at : Time
  pub updated_at : Time

pub record ActivityRow (Time : Type 0) : Type 0 where
  pub id : String
  pub tenant_id : ℤ
  pub workflow_instance_id : String
  pub activity_definition_id : String
  pub activity_type : ℤ
  pub status : ℤ
  pub assignee_role : Option String
  pub assignee_id : Option ℤ
  pub result : Option ℤ
  pub review_notes : Option String
  pub reviewed_by : Option ℤ
  pub reviewed_at : Option Time
  pub round : ℤ

pub record EventRow (Time J : Type 0) : Type 0 where
  pub tenant_id : ℤ
  pub facility_id : String
  pub workflow_instance_id : String
  pub seq : ℤ
  pub event_type : String
  pub event_payload : J
  pub idempotency_key : Option String
  pub created_at : Time

pub record OutboxRow (Time J : Type 0) : Type 0 where
  pub id : String
  pub tenant_id : ℤ
  pub facility_id : String
  pub workflow_instance_id : String
  pub activity_instance_id : String
  pub activity_type : String
  pub payload : J
  pub status : ℤ
  pub attempt_count : ℤ
  pub max_attempts : ℤ
  pub next_attempt_at : Time
  pub lease_owner : Option String
  pub lease_expires_at : Option Time
  pub last_error : Option String
  pub created_at : Time
  pub updated_at : Time

pub record TimerRow (Time : Type 0) : Type 0 where
  pub id : String
  pub tenant_id : ℤ
  pub facility_id : String
  pub workflow_instance_id : String
  pub activity_instance_id : String
  pub timer_kind : ℤ
  pub fire_at : Time
  pub status : ℤ
  pub fired_at : Option Time

-- `Option::map`
abbrev pub map_some {ℓ κ} : {A : Type ℓ} {B : Type κ} → (A → B) → Option A → Option B
map_some f none = none
map_some f (some a) = some (f a)

-- `display` is the decimal text of an integer.
module _ {Time : Type 0} (display : ℤ → String) where
  unfoldable pub ActivityRow_into_model : ActivityRow Time → ActivityInstance Time
  ActivityRow_into_model r = record {
    id = r.id;
    tenant_id = display r.tenant_id;
    workflow_instance_id = r.workflow_instance_id;
    activity_definition_id = r.activity_definition_id;
    activity_type = ActivityType.from_i16 r.activity_type;
    status = ActivityStatus.from_i16 r.status;
    assignee_role = r.assignee_role;
    assignee_id = map_some display r.assignee_id;
    result = map_some (activity_result_to_str display) r.result;
    review_notes = r.review_notes;
    reviewed_by = map_some display r.reviewed_by;
    reviewed_at = r.reviewed_at;
    round = r.round;
  }

  unfoldable pub TimerRow_into_record : TimerRow Time → TimerRecord
  TimerRow_into_record r = record {
    id = r.id;
    tenant_id = display r.tenant_id;
    facility_id = r.facility_id;
    workflow_instance_id = r.workflow_instance_id;
    activity_instance_id = r.activity_instance_id;
    timer_kind = timer_kind_str display r.timer_kind;
  }

module _ {Time J : Type 0} (display : ℤ → String) where
  unfoldable pub InstanceRow_into_model : InstanceRow Time J → WorkflowInstance Time J
  InstanceRow_into_model r = record {
    id = r.id;
    tenant_id = display r.tenant_id;
    facility_id = r.facility_id;
    reference_no = r.reference_no;
    workflow_definition_id = r.workflow_definition_id;
    business_key = r.business_key;
    business_type = r.business_type;
    status = WorkflowStatus.from_i16 r.status;
    current_activity_id = r.current_activity_id;
    result = and_then r.result WorkflowResult.from_i16;
    side_effects_executed = r.side_effects_executed;
    context = r.context;
    started_at = r.started_at;
    completed_at = r.completed_at;
    created_at = r.created_at;
    updated_at = r.updated_at;
  }

  unfoldable pub OutboxRow_into_model : OutboxRow Time J → OutboxRecord Time J
  OutboxRow_into_model r = record {
    id = r.id;
    tenant_id = display r.tenant_id;
    facility_id = r.facility_id;
    workflow_instance_id = r.workflow_instance_id;
    activity_instance_id = r.activity_instance_id;
    activity_type = r.activity_type;
    payload = r.payload;
    status = outbox_status_str display r.status;
    attempt_count = r.attempt_count;
    max_attempts = r.max_attempts;
    next_attempt_at = r.next_attempt_at;
    last_error = r.last_error;
    created_at = r.created_at;
    updated_at = r.updated_at;
  }

-- The `EventRow` of `load_events`, made an `EventRecord`.
abbrev pub event_record : {Time J : Type 0} → EventRow Time J → EventRecord Time J
event_record r = record {
  seq = r.seq;
  event_type = r.event_type;
  payload = r.event_payload;
  created_at = r.created_at;
}

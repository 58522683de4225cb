-- ===== src/Core/Payload.antt =====
-- What the outbox and the timers carry, crates/hetuflow-core/src/lib.rs: the records, the payloads of
-- deliveries and the errors of handlers. `Time` stands for `chrono::DateTime<Utc>` and `J` for
-- `serde_json::Value`.
use fusions.Shared.{String, Option, List}
use fusions.Shared.Int.{ℤ}
use fusions.Core.Config.{RecipientSelector, NotificationChannelPolicy}

pub record OutboxRecord (Time J : Type 0) : Type 0 where
  pub id : String
  pub tenant_id : String
  pub facility_id : String
  pub workflow_instance_id : String
  pub activity_instance_id : String
  pub activity_type : String
  pub payload : J
  pub status : String
  pub attempt_count : ℤ
  pub max_attempts : ℤ
  pub next_attempt_at : Time
  pub last_error : Option String
  pub created_at : Time
  pub updated_at : Time

pub record TimerRecord : Type 0 where
  pub id : String
  pub tenant_id : String
  pub facility_id : String
  pub workflow_instance_id : String
  pub activity_instance_id : String
  pub timer_kind : String

pub record NotificationPayload : Type 0 where
  pub tenant_id : String
  pub facility_id : Option String
  pub template_code : String
  pub recipient_selector : RecipientSelector
  pub channel_policy : NotificationChannelPolicy
  pub template_args : List (String × String)
  pub reference_type : String
  pub purpose : String
  pub visibility : String
  pub business_type : String
  pub business_key : String

pub data CallbackErrorKind : Type 0 where
  deterministic transient : CallbackErrorKind

pub record CallbackError : Type 0 where
  pub kind : CallbackErrorKind
  pub message : String

pub data IdempotencyKeyStrategy : Type 0 where
  payload_field : (field : String) → IdempotencyKeyStrategy
  business_key outbox_record_id : IdempotencyKeyStrategy

pub record BusinessCallbackPayload (J : Type 0) : Type 0 where
  pub tenant_id : String
  pub facility_id : String
  pub workflow_instance_id : String
  pub activity_instance_id : String
  pub handler_type : String
  pub idempotency_key : String
  pub business_type : String
  pub business_key : String
  pub payload : J

pub data FacilityVisibility : Type 0 where
  all_in_tenant : FacilityVisibility
  only : (facilities : List String) → FacilityVisibility

pub record ScopeFilter : Type 0 where
  pub tenant_id : String
  pub facilities : FacilityVisibility

-- ===== src/Service/Worker.antt =====
-- crates/hetuflow-service/src/worker.rs: the outbox dispatcher and the timer poller. Each record is settled
-- in a transaction of its own; `times` gives the time of each transaction of a pass. The loops
-- `run_forever`, which repeat a pass and log its errors, and what `tracing` writes are left out.
use fusions.Shared.{
  ℕ, suc, ◌+◌, String, Option, none, some, List, [], ◌∷◌, Bool, true, false, ◌||◌, ◌==◌,
  if◌then◌else◌, Result, ok, err,
}
use fusions.Shared.Int.{ℤ, pos, i32_of, leb_ℤ, ◌+ℤ◌}
use fusions.Core.Backoff.{retry_backoff_secs}
use fusions.Core.OutboxActivity
use fusions.Core.Error.{FlowError}
use fusions.Core.Payload.{
  OutboxRecord, TimerRecord, NotificationPayload, BusinessCallbackPayload, CallbackError,
  CallbackErrorKind, deterministic, transient,
}
use fusions.Runtime.Guard.{Cel}
use fusions.Store.External.{External}
use fusions.Store.Scope.{parse_uuid, parse_i64}
use fusions.Store.Tables.{Tables}
use fusions.Store.Outbox.{
  poll_due_outbox, mark_outbox_succeeded, mark_outbox_retry, mark_outbox_dead_letter,
}
use fusions.Store.Timers.{poll_due_timers}
use fusions.Service.Config.{WorkflowService}
use fusions.Service.Registry.{Handler, get}
use fusions.Service.Deliver.{
  on_notification_delivered, on_business_callback_delivered, on_outbox_dead_letter,
}
use fusions.Service.Fire.{fire_timer}
use fusions.Service.Run.{
  Run, done, failed, exhausted, Action, ◌>>=◌, write, write_only, pure, attempt,
}

pub record WorkerConfig : Type 0 where
  pub worker_id : String
  pub lease_ttl_secs : ℤ
  pub batch_size : ℤ
  pub retry_base_secs : ℤ
  pub retry_cap_secs : ℤ

abbrev pub default_worker : WorkerConfig
default_worker = record {
  worker_id = "hetuflow-worker";
  lease_ttl_secs = pos 60;
  batch_size = pos 32;
  retry_base_secs = pos 10;
  retry_cap_secs = pos 300;
}

-- How a transaction of `TxnRunner` ends: committed, or rolled back with its error.
pub data Ended (A : Type 0) : Type 0 where
  committed : A → Ended A
  rolled_back : FlowError → Ended A
  hung : Ended A

module _ {Time J : Type 0} where
  abbrev end_of : {A : Type 0} → Tables Time J → Run (Tables Time J) A → Ended A × Tables Time J
  end_of t (done a t') = (committed a, t')
  end_of t (failed e) = (rolled_back e, t)
  end_of t exhausted = (hung, t)

  -- `system_write` and `tenant_write`, at a time.
  unfoldable pub transact :
      {A : Type 0} → Time → Action Time J A → Tables Time J → Ended A × Tables Time J
  transact now m t = let t' = record t { now = now } in end_of t' (m t')

abbrev is_deterministic : CallbackErrorKind → Bool
is_deterministic deterministic = true
is_deterministic transient = false

-- A deterministic failure is final, a transient one once the attempts are used up.
unfoldable pub is_dead : {Time J : Type 0} → OutboxRecord Time J → CallbackError → Bool
is_dead record' error =
    is_deterministic error.kind || leb_ℤ record'.max_attempts (record'.attempt_count +ℤ pos 1)

abbrev refused : String → CallbackError
refused message = record { kind = deterministic; message = message }

module _ {Time J : Type 0} (x : External Time J) (cel : Cel J) (service : WorkflowService J)
    (config : WorkerConfig)
    (deliver_notification : NotificationPayload → Result CallbackError (Unit {0})) where
  abbrev send_notification : Option NotificationPayload → Result CallbackError (Unit {0})
  send_notification none = err (refused "notification payload invalid")
  send_notification (some payload) = deliver_notification payload

  abbrev run_handler :
      BusinessCallbackPayload J → Option (Handler J) → Result CallbackError (Unit {0})
  run_handler payload none = err (refused "no business callback handler registered")
  run_handler payload (some handler) = handler.execute payload

  abbrev call_back : Option (BusinessCallbackPayload J) → Result CallbackError (Unit {0})
  call_back none = err (refused "business callback payload invalid")
  call_back (some payload) = run_handler payload (get service.registry payload.handler_type)

  unfoldable pub deliver : OutboxRecord Time J → Result CallbackError (Unit {0})
  deliver r =
      if r.activity_type == OutboxActivity.notification
        || (r.activity_type == OutboxActivity.notification_reminder
            || r.activity_type == OutboxActivity.notification_escalation)
      then send_notification (x.notification_of r.payload)
      else if r.activity_type == OutboxActivity.business_callback
      then call_back (x.callback_of r.payload)
      else err (refused "unknown outbox activity_type")

  -- What follows a delivery, by what was delivered.
  unfoldable pub follow_up : ℕ → String → String → String → Action Time J (Unit {0})
  follow_up fuel activity_type instance_id activity_id =
      if activity_type == OutboxActivity.notification
      then on_notification_delivered x cel service fuel instance_id activity_id
      else if activity_type == OutboxActivity.business_callback
      then on_business_callback_delivered instance_id
      else pure tt

  unfoldable pub settle_success : ℕ → OutboxRecord Time J → Action Time J (Unit {0})
  settle_success fuel r = do
    tenant ← attempt (parse_i64 x r.tenant_id "tenant_id")
    record_id ← attempt (parse_uuid x r.id)
    instance_id ← attempt (parse_uuid x r.workflow_instance_id)
    activity_id ← attempt (parse_uuid x r.activity_instance_id)
    held ← write (mark_outbox_succeeded record_id config.worker_id)
    (if held then follow_up fuel r.activity_type instance_id activity_id else pure tt)

  abbrev bury : OutboxRecord Time J → String → String → String → Bool → Action Time J (Unit {0})
  bury r instance_id activity_id message false = pure tt
  bury r instance_id activity_id message true =
      on_outbox_dead_letter x instance_id activity_id r.activity_type message

  unfoldable pub settle_failure : OutboxRecord Time J → CallbackError → Action Time J (Unit {0})
  settle_failure r error = do
    tenant ← attempt (parse_i64 x r.tenant_id "tenant_id")
    record_id ← attempt (parse_uuid x r.id)
    instance_id ← attempt (parse_uuid x r.workflow_instance_id)
    activity_id ← attempt (parse_uuid x r.activity_instance_id)
    (if is_dead r error
        then (do
          held ← write (mark_outbox_dead_letter record_id config.worker_id error.message)
          bury r instance_id activity_id error.message held)
        else write_only (
            mark_outbox_retry x record_id config.worker_id
              (i32_of
                (retry_backoff_secs r.attempt_count config.retry_base_secs config.retry_cap_secs))
              error.message))

  abbrev settle :
      ℕ → OutboxRecord Time J → Result CallbackError (Unit {0}) → Action Time J (Unit {0})
  settle fuel r (ok _) = settle_success fuel r
  settle fuel r (err error) = settle_failure r error

  -- The loop over the polled records; the first error ends it. `times` are those of the transactions left.
  unfoldable pub settle_all :
      ℕ → (ℕ → Time) → ℕ → List (OutboxRecord Time J) → Tables Time J → Ended ℕ × Tables Time J
  settle_all fuel times settled [] t = (committed settled, t)
  settle_all fuel times settled (r ∷ rs) t =
      let (ended, t') = transact (times (suc settled)) (settle fuel r (deliver r)) t in
      elim ended [
        | committed _ ↦ settle_all fuel times (suc settled) rs t'
        | rolled_back e ↦ (rolled_back e, t')
        | hung ↦ (hung, t')
      ]

  abbrev settle_polled :
      ℕ → (ℕ → Time) → Ended (List (OutboxRecord Time J)) × Tables Time J → Ended ℕ × Tables Time J
  settle_polled fuel times (committed records, t) = settle_all fuel times 0 records t
  settle_polled fuel times (rolled_back e, t) = (rolled_back e, t)
  settle_polled fuel times (hung, t) = (hung, t)

  unfoldable pub run_once : ℕ → (ℕ → Time) → Tables Time J → Ended ℕ × Tables Time J
  run_once fuel times t = settle_polled fuel times (
      transact (times 0)
        (write (poll_due_outbox x config.worker_id config.lease_ttl_secs config.batch_size)) t)

  abbrev one_if : Bool → ℕ
  one_if true = 1
  one_if false = 0

  -- The loop over the due timers: an error of one does not keep back the next.
  unfoldable pub fire_all :
      ℕ → (ℕ → Time) → ℕ → ℕ → List TimerRecord → Tables Time J → Ended ℕ × Tables Time J
  fire_all fuel times k fired [] t = (committed fired, t)
  fire_all fuel times k fired (timer ∷ timers) t = elim (parse_i64 x timer.tenant_id "tenant_id") [
    | err e ↦ (rolled_back e, t)
    | ok tenant ↦
        let (ended, t') = transact (times (suc k)) (fire_timer x cel service fuel timer) t in
        elim ended [
          | committed b ↦ fire_all fuel times (suc k) (fired + one_if b) timers t'
          | rolled_back e ↦ fire_all fuel times (suc k) fired timers t'
          | hung ↦ (hung, t')
        ]
  ]

  unfoldable pub poll_timers : ℕ → (ℕ → Time) → Tables Time J → Ended ℕ × Tables Time J
  poll_timers fuel times t =
      let t' = record t { now = times 0 } in
      fire_all fuel times 0 0 (poll_due_timers x config.batch_size t') t'

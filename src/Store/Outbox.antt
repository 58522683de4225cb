-- ===== src/Store/Outbox.antt =====
-- The statements of `PgWorkflowStore` on `workflow_activity_outbox`, crates/hetuflow-sqlx/src/lib.rs: the
-- lease, and the three ways to settle. The numbers of a state are 1 for pending, 2 for leased, 3 for
-- succeeded and 4 for dead_letter. The schema is not in the repository; that its
-- unique index is on (instance, activity, activity_type) is said at `NOTIFICATION_ESCALATION` in
-- crates/hetuflow-core/src/lib.rs.
use fusions.Shared.{
  suc, String, Option, none, some, List, [], ◌∷◌, ◌++◌, Bool, false, ◌&&◌, ◌||◌, ◌==◌,
  if◌then◌else◌, any, filter, map, contains,
}
use fusions.Shared.Int.{ℤ, pos, pos_part, eq_ℤ, ◌+ℤ◌}
use fusions.Core.Payload.{OutboxRecord}
use fusions.Store.Sql.{update_where, sort_by, take, is_text}
use fusions.Store.External.{External}
use fusions.Store.Rows.{OutboxRow, OutboxRow_into_model}
use fusions.Store.Tables.{Tables}

module _ {Time J : Type 0} where
  -- `WHERE id = $1 AND lease_owner = $2 AND status = 2`
  abbrev pub is_held : String → String → OutboxRow Time J → Bool
  is_held id worker r = r.id == id && (is_text worker r.lease_owner && eq_ℤ r.status (pos 2))

  unfoldable pub change_outbox :
      (OutboxRow Time J → Bool)
      → (OutboxRow Time J → OutboxRow Time J)
      → Tables Time J
      → Bool × Tables Time J
  change_outbox test f t = (any test t.outbox, record t { outbox = update_where test f t.outbox })

  abbrev pub succeeded : Time → OutboxRow Time J → OutboxRow Time J
  succeeded now r = record r {
    status = pos 3;
    lease_owner = none;
    lease_expires_at = none;
    last_error = none;
    updated_at = now;
  }

  unfoldable pub mark_outbox_succeeded : String → String → Tables Time J → Bool × Tables Time J
  mark_outbox_succeeded id worker t = change_outbox (is_held id worker) (succeeded t.now) t

  abbrev pub to_retry : Time → Time → String → OutboxRow Time J → OutboxRow Time J
  to_retry next now error r = record r {
    status = pos 1;
    attempt_count = r.attempt_count +ℤ pos 1;
    lease_owner = none;
    lease_expires_at = none;
    next_attempt_at = next;
    last_error = some error;
    updated_at = now;
  }

  abbrev pub given_up : Time → String → OutboxRow Time J → OutboxRow Time J
  given_up now error r = record r {
    status = pos 4;
    attempt_count = r.attempt_count +ℤ pos 1;
    lease_owner = none;
    lease_expires_at = none;
    last_error = some error;
    updated_at = now;
  }

  unfoldable pub mark_outbox_dead_letter :
      String → String → String → Tables Time J → Bool × Tables Time J
  mark_outbox_dead_letter id worker error t =
      change_outbox (is_held id worker) (given_up t.now error) t

module _ {Time J : Type 0} (x : External Time J) where
  unfoldable pub mark_outbox_retry :
      String → String → ℤ → String → Tables Time J → Bool × Tables Time J
  mark_outbox_retry id worker backoff error t =
      change_outbox (is_held id worker) (to_retry (x.later t.now backoff) t.now error) t

  abbrev new_delivery : ℤ → String → String → String → String → J → Tables Time J → OutboxRow Time J
  new_delivery tenant facility instance activity type payload t = record {
    id = x.made_uuid t.made;
    tenant_id = tenant;
    facility_id = facility;
    workflow_instance_id = instance;
    activity_instance_id = activity;
    activity_type = type;
    payload = payload;
    status = pos 1;
    attempt_count = pos 0;
    max_attempts = x.max_attempts;
    next_attempt_at = t.now;
    lease_owner = none;
    lease_expires_at = none;
    last_error = none;
    created_at = t.now;
    updated_at = t.now;
  }

  -- The index of `ON CONFLICT DO NOTHING`.
  abbrev pub is_same_delivery : String → String → String → OutboxRow Time J → Bool
  is_same_delivery instance activity type r =
      r.workflow_instance_id == instance
      && (r.activity_instance_id == activity && r.activity_type == type)

  unfoldable pub enqueue_outbox :
      ℤ → String → String → String → String → J → Tables Time J → Tables Time J
  enqueue_outbox tenant facility instance activity type payload t =
      let row = new_delivery tenant facility instance activity type payload t in
      if any (is_same_delivery instance activity type) t.outbox
      then t
      else record t { outbox = t.outbox ++ row ∷ []; made = suc t.made }

  abbrev is_expired : Time → Option Time → Bool
  is_expired now none = false
  is_expired now (some expiry) = x.lt_time expiry now

  abbrev pub is_due : Time → OutboxRow Time J → Bool
  is_due now r =
      x.le_time r.next_attempt_at now
      && (eq_ℤ r.status (pos 1) || (eq_ℤ r.status (pos 2) && is_expired now r.lease_expires_at))

  abbrev pub leased : String → Time → Time → OutboxRow Time J → OutboxRow Time J
  leased worker expiry now r = record r {
    status = pos 2;
    lease_owner = some worker;
    lease_expires_at = some expiry;
    updated_at = now;
  }

  -- The ids of the inner `SELECT`.
  unfoldable pub due_ids : ℤ → Tables Time J → List String
  due_ids limit t =
      map (λ r. r.id)
        (take (pos_part limit) (
          sort_by (λ a b. x.le_time a.next_attempt_at b.next_attempt_at)
            (filter (is_due t.now) t.outbox)))

  unfoldable pub poll_due_outbox :
      String → ℤ → ℤ → Tables Time J → List (OutboxRecord Time J) × Tables Time J
  poll_due_outbox worker ttl limit t =
      let test = λ (r : OutboxRow Time J). contains (due_ids limit t) r.id in
      let lease = leased worker (x.later t.now ttl) t.now in
      (
        map (λ r. OutboxRow_into_model x.json.display (lease r)) (filter test t.outbox),
        record t { outbox = update_where test lease t.outbox },
      )

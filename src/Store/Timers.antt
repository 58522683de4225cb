-- ===== src/Store/Timers.antt =====
-- The statements of `PgWorkflowStore` on `workflow_timers`, crates/hetuflow-sqlx/src/lib.rs. The numbers of a
-- state are 1 for pending, 2 for fired and 3 for cancelled.
use fusions.Shared.{
  suc, String, none, some, List, [], ◌∷◌, ◌++◌, Bool, ◌&&◌, ◌==◌, if◌then◌else◌, any, filter, map,
}
use fusions.Shared.Int.{ℤ, pos, pos_part, eq_ℤ}
use fusions.Core.Payload.{TimerRecord}
use fusions.Store.Sql.{update_where, sort_by, take}
use fusions.Store.Codec.{timer_kind_i16}
use fusions.Store.External.{External}
use fusions.Store.Rows.{TimerRow, TimerRow_into_record}
use fusions.Store.Tables.{Tables}

module _ {Time : Type 0} where
  -- `WHERE activity_instance_id = $1 AND status = 1`
  abbrev pub is_pending_of : String → TimerRow Time → Bool
  is_pending_of activity r = r.activity_instance_id == activity && eq_ℤ r.status (pos 1)

  -- `WHERE id = $1 AND status = 1`
  abbrev pub is_pending : String → TimerRow Time → Bool
  is_pending id r = r.id == id && eq_ℤ r.status (pos 1)

  -- The index of `ON CONFLICT (workflow_instance_id, activity_instance_id, timer_kind) WHERE status = 1`.
  abbrev pub is_same_pending : String → String → ℤ → TimerRow Time → Bool
  is_same_pending instance activity kind r =
      r.workflow_instance_id == instance
      && (r.activity_instance_id == activity && (eq_ℤ r.timer_kind kind && eq_ℤ r.status (pos 1)))

  abbrev pub fired : Time → TimerRow Time → TimerRow Time
  fired now r = record r { status = pos 2; fired_at = some now }

module _ {Time J : Type 0} where
  unfoldable pub cancel_timers_for_activity : String → Tables Time J → Tables Time J
  cancel_timers_for_activity activity t = record t {
    timers = update_where (is_pending_of activity) (λ r. record r { status = pos 3 }) t.timers;
  }

  unfoldable pub mark_timer_fired : String → Tables Time J → Bool × Tables Time J
  mark_timer_fired id t = (
    any (is_pending id) t.timers,
    record t { timers = update_where (is_pending id) (fired t.now) t.timers },
  )

module _ {Time J : Type 0} (x : External Time J) where
  abbrev new_timer : ℤ → String → String → String → String → ℤ → Tables Time J → TimerRow Time
  new_timer tenant facility instance activity kind seconds t = record {
    id = x.made_uuid t.made;
    tenant_id = tenant;
    facility_id = facility;
    workflow_instance_id = instance;
    activity_instance_id = activity;
    timer_kind = timer_kind_i16 kind;
    fire_at = x.later t.now seconds;
    status = pos 1;
    fired_at = none;
  }

  unfoldable pub schedule_timer :
      ℤ → String → String → String → String → ℤ → Tables Time J → Tables Time J
  schedule_timer tenant facility instance activity kind seconds t =
      if any (is_same_pending instance activity (timer_kind_i16 kind)) t.timers
      then t
      else record t {
        timers = t.timers ++ new_timer tenant facility instance activity kind seconds t ∷ [];
        made = suc t.made;
      }

  abbrev pub is_due : Time → TimerRow Time → Bool
  is_due now r = eq_ℤ r.status (pos 1) && x.le_time r.fire_at now

  unfoldable pub poll_due_timers : ℤ → Tables Time J → List TimerRecord
  poll_due_timers limit t = map (TimerRow_into_record x.json.display) (
      take (pos_part limit)
        (sort_by (λ a b. x.le_time a.fire_at b.fire_at) (filter (is_due t.now) t.timers)))

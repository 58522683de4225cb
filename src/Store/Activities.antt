-- ===== src/Store/Activities.antt =====
-- The statements of `PgWorkflowStore` on `activity_instances`, crates/hetuflow-sqlx/src/lib.rs. Rows keep the
-- order of their insertion, which `ORDER BY created_at` gives back. The numbers of a status are those of
-- `ActivityStatus::as_i16`.
use fusions.Shared.{
  ℕ, suc, String, Option, none, some, List, [], ◌∷◌, ◌++◌, Bool, true, false, not, ◌&&◌, ◌||◌, ◌==◌,
  if◌then◌else◌, any, find, filter, map, contains,
}
use fusions.Shared.Int.{ℤ, pos, eq_ℤ, leb_ℤ}
use fusions.Core.ActivityType
use fusions.Core.ActivityType.{ActivityType}
use fusions.Core.Definition.{ActivityInstance}
use fusions.Store.Sql.{update_where, count_where, last_where, is_number}
use fusions.Store.External.{External}
use fusions.Store.Rows.{ActivityRow, ActivityRow_into_model, TimerRow, map_some}
use fusions.Store.Tables.{Tables}

abbrev is_empty_list : List String → Bool
is_empty_list [] = true
is_empty_list (x ∷ xs) = false

-- `result IS NULL OR result NOT IN (2, 3)`
abbrev not_refused : Option ℤ → Bool
not_refused result = not (is_number (pos 2) result || is_number (pos 3) result)

abbrev or_zero : Option ℤ → ℤ
or_zero none = pos 0
or_zero (some m) = m

module _ {Time : Type 0} where
  abbrev pub has_id : String → ActivityRow Time → Bool
  has_id id r = r.id == id

  -- `WHERE id = $1 AND status = 2`
  abbrev pub is_active : String → ActivityRow Time → Bool
  is_active id r = r.id == id && eq_ℤ r.status (pos 2)

  -- `WHERE workflow_instance_id = $1`
  abbrev pub of_instance : String → ActivityRow Time → Bool
  of_instance id r = r.workflow_instance_id == id

  -- `… AND status = 2`
  abbrev pub is_active_of : String → ActivityRow Time → Bool
  is_active_of id r = r.workflow_instance_id == id && eq_ℤ r.status (pos 2)

  -- `… AND id != $2`
  abbrev pub is_other_active : String → String → ActivityRow Time → Bool
  is_other_active id exclude r =
      r.workflow_instance_id == id && (not (r.id == exclude) && eq_ℤ r.status (pos 2))

  abbrev has_arrived : String → List String → ℤ → ActivityRow Time → Bool
  has_arrived id branches round r =
      r.workflow_instance_id == id
      && (eq_ℤ r.status (pos 3)
          && (not_refused r.result
              && (eq_ℤ r.round round && contains branches r.activity_definition_id)))

  abbrev reviewed : Option ℤ → ℤ → Option String → Time → ActivityRow Time → ActivityRow Time
  reviewed result by notes now r = record r {
    status = pos 3;
    result = result;
    reviewed_by = some by;
    reviewed_at = some now;
    review_notes = notes;
  }

  abbrev pub skipped : ActivityRow Time → ActivityRow Time
  skipped r = record r { status = pos 4 }

  -- Pending timers of the activities that the second statement skips, cancelled by the first.
  abbrev is_orphaned : String → String → List (ActivityRow Time) → TimerRow Time → Bool
  is_orphaned id exclude rows r =
      r.workflow_instance_id == id
      && (contains (map (λ a. a.id) (filter (is_other_active id exclude) rows))
            r.activity_instance_id
          && eq_ℤ r.status (pos 1))

  -- The greatest round, from `COALESCE(…, 0)` when there is none.
  unfoldable pub greatest : Option ℤ → List (ActivityRow Time) → Option ℤ
  greatest m [] = m
  greatest none (r ∷ rs) = greatest (some r.round) rs
  greatest (some m) (r ∷ rs) = greatest (some (if leb_ℤ m r.round then r.round else m)) rs

module _ {Time J : Type 0} where
  unfoldable pub change_activities :
      (ActivityRow Time → Bool)
      → (ActivityRow Time → ActivityRow Time)
      → Tables Time J
      → Bool × Tables Time J
  change_activities test f t =
      (any test t.activities, record t { activities = update_where test f t.activities })

  unfoldable pub complete_activity_cas :
      String → Option ℤ → ℤ → Option String → Tables Time J → Bool × Tables Time J
  complete_activity_cas id result by notes t =
      change_activities (is_active id) (reviewed result by notes t.now) t

  unfoldable pub skip_activity_for_timeout : String → Tables Time J → Bool × Tables Time J
  skip_activity_for_timeout id t = change_activities (is_active id) skipped t

  unfoldable pub skip_other_active_activities : String → String → Tables Time J → ℕ × Tables Time J
  skip_other_active_activities id exclude t = (
    count_where (is_other_active id exclude) t.activities,
    record t {
      timers =
          update_where (is_orphaned id exclude t.activities) (λ r. record r { status = pos 3 })
            t.timers;
      activities = update_where (is_other_active id exclude) skipped t.activities;
    },
  )

  unfoldable pub max_round : String → Tables Time J → ℤ
  max_round id t = or_zero (greatest none (filter (of_instance id) t.activities))

  unfoldable pub count_completed_branches : String → List String → ℤ → Tables Time J → ℤ
  count_completed_branches id branches round t =
      if is_empty_list branches
      then pos 0
      else pos (count_where (has_arrived id branches round) t.activities)

  unfoldable pub update_activity_assignee_role :
      String → String → Tables Time J → Bool × Tables Time J
  update_activity_assignee_role id role t =
      change_activities (is_active id) (λ r. record r { assignee_role = some role }) t

  unfoldable pub update_activity_assignee : String → Option ℤ → Tables Time J → Bool × Tables Time J
  update_activity_assignee id assignee t =
      change_activities (is_active id) (λ r. record r { assignee_id = assignee }) t

module _ {Time J : Type 0} (x : External Time J) where
  abbrev pub new_activity :
      ℤ → String → String → ActivityType → Option String → ℤ → Tables Time J → ActivityRow Time
  new_activity tenant instance node type role round t = record {
    id = x.made_uuid t.made;
    tenant_id = tenant;
    workflow_instance_id = instance;
    activity_definition_id = node;
    activity_type = ActivityType.as_i16 type;
    status = pos 2;
    assignee_role = role;
    assignee_id = none;
    result = none;
    review_notes = none;
    reviewed_by = none;
    reviewed_at = none;
    round = round;
  }

  unfoldable pub insert_activity :
      ℤ
      → String
      → String
      → ActivityType
      → Option String
      → ℤ
      → Tables Time J
      → ActivityInstance Time × Tables Time J
  insert_activity tenant instance node type role round t =
      let row = new_activity tenant instance node type role round t in
      (
        ActivityRow_into_model x.json.display row,
        record t { activities = t.activities ++ row ∷ []; made = suc t.made },
      )

  abbrev pub models : List (ActivityRow Time) → List (ActivityInstance Time)
  models rows = map (ActivityRow_into_model x.json.display) rows

  unfoldable pub active_activity : String → Tables Time J → Option (ActivityInstance Time)
  active_activity id t =
      map_some (ActivityRow_into_model x.json.display) (last_where (is_active_of id) t.activities)

  unfoldable pub active_activities : String → Tables Time J → List (ActivityInstance Time)
  active_activities id t = models (filter (is_active_of id) t.activities)

  unfoldable pub load_activity : String → Tables Time J → Option (ActivityInstance Time)
  load_activity id t =
      map_some (ActivityRow_into_model x.json.display) (find (has_id id) t.activities)

  unfoldable pub list_activities : String → Tables Time J → List (ActivityInstance Time)
  list_activities id t = models (filter (of_instance id) t.activities)

-- ===== src/Runtime/Replay/Activities.antt =====
-- The changes that `fold_events` makes to activities, one function for each kind of event.
use fusions.Shared.{
  String, Option, none, some, List, [], ◌∷◌, ◌++◌, Bool, true, false, ◌||◌, ◌==◌, if◌then◌else◌,
  map,
}
use fusions.Shared.Int.{ℤ, pos, i32_of}
use fusions.Core.WorkflowStatus.{WorkflowStatus}
use fusions.Core.ActivityStatus.{ActivityStatus}
use fusions.Core.Definition.{DefinitionSnapshot, EventRecord}
use fusions.Runtime.Replay.Model.{Json, ReplayedActivity, ReplayedProjection, activity_type_for}

-- `pstr` and `pi32`
abbrev pub and_then {ℓ κ} : {A : Type ℓ} {B : Type κ} → Option A → (A → Option B) → Option B
and_then none f = none
and_then (some a) f = f a

abbrev pub or_else {ℓ} : {A : Type ℓ} → Option A → A → A
or_else none d = d
or_else (some a) d = a

-- `iter_mut().find(test)` and a change of what it finds.
unfoldable pub update_first {ℓ} : {A : Type ℓ} → (A → Bool) → (A → A) → List A → List A
update_first test f [] = []
update_first test f (x ∷ xs) = if test x then f x ∷ xs else x ∷ update_first test f xs

abbrev pub is_terminal : WorkflowStatus → Bool
is_terminal WorkflowStatus.completed = true
is_terminal WorkflowStatus.errored = true
is_terminal WorkflowStatus.cancelled = true
is_terminal _ = false

abbrev pub is_active : ActivityStatus → Bool
is_active ActivityStatus.active = true
is_active _ = false

module _ {J : Type 0} (json : Json J) where
  unfoldable pub pstr : J → String → Option String
  pstr payload key = and_then (json.get payload key) json.as_str

  unfoldable pub pi32 : J → String → Option ℤ
  pi32 payload key = and_then (and_then (json.get payload key) json.as_i64) (λ n. some (i32_of n))

abbrev pub is_fan_out : Option String → Bool
is_fan_out none = false
is_fan_out (some via) = via == "for_each" || via == "parallel_split"

abbrev pub from_notification : Option String → Bool
from_notification none = false
from_notification (some source) = source == "notification_outbox"

module _ {Time : Type 0} where
  abbrev pub by_id : String → ReplayedActivity Time → Bool
  by_id id a = a.id == id

  abbrev pub change :
      Option String
      → (ReplayedActivity Time → ReplayedActivity Time)
      → ReplayedProjection Time
      → ReplayedProjection Time
  change none f s = s
  change (some id) f s = record s { activities = update_first (by_id id) f s.activities }

  abbrev pub skipped : ReplayedActivity Time → ReplayedActivity Time
  skipped a = record a { status = ActivityStatus.skipped }

  abbrev pub skipped_if_active : ReplayedActivity Time → ReplayedActivity Time
  skipped_if_active a = if is_active a.status then skipped a else a

  -- With no id, every activity that is still active is skipped.
  abbrev pub skip : Option String → ReplayedProjection Time → ReplayedProjection Time
  skip none s = record s { activities = map skipped_if_active s.activities }
  skip (some id) s = record s { activities = update_first (by_id id) skipped s.activities }

module _ {Time J : Type 0} (json : Json J) where
  -- A new active activity; its type comes from the snapshot.
  abbrev pub new_activity : DefinitionSnapshot → J → String → String → ℤ → ReplayedActivity Time
  new_activity snapshot p id def_id round = record {
    id = id;
    activity_definition_id = def_id;
    activity_type = activity_type_for snapshot def_id;
    status = ActivityStatus.active;
    assignee_role = pstr json p "assignee_role";
    assignee_id = none;
    result = none;
    review_notes = none;
    reviewed_by = none;
    reviewed_at = none;
    round = round;
  }

  unfoldable pub on_started : EventRecord Time J → ReplayedProjection Time → ReplayedProjection Time
  on_started ev s = record s {
    instance = record s.instance {
      status = WorkflowStatus.active;
      started_at = some ev.created_at;
    };
  }

  abbrev pub schedule :
      DefinitionSnapshot → J → Option String → ReplayedProjection Time → ReplayedProjection Time
  schedule snapshot p none s = s
  schedule snapshot p (some id) s = record {
    instance = record s.instance {
      current_activity_id = if is_fan_out (pstr json p "via") then none else some id;
      status = if is_terminal s.instance.status then s.instance.status else WorkflowStatus.active;
    };
    activities =
        s.activities
        ++ new_activity snapshot p id (or_else (pstr json p "activity_definition_id") "")
            (or_else (pi32 json p "round") (pos 1))
          ∷ [];
  }

  unfoldable pub on_scheduled :
      DefinitionSnapshot → EventRecord Time J → ReplayedProjection Time → ReplayedProjection Time
  on_scheduled snapshot ev s = schedule snapshot ev.payload (pstr json ev.payload "activity_id") s

  -- A claim or a reassignment names the assignee; any other signal is a review.
  abbrev pub signalled : EventRecord Time J → ReplayedActivity Time → ReplayedActivity Time
  signalled ev a =
      let signal = or_else (pstr json ev.payload "signal_type") "" in
      if signal == "claimed" || signal == "reassigned"
      then record a { assignee_id = pstr json ev.payload "assignee_id" }
      else record a {
        reviewed_by = pstr json ev.payload "reviewer_id";
        review_notes = pstr json ev.payload "review_notes";
        reviewed_at = some ev.created_at;
      }

  unfoldable pub on_signal : EventRecord Time J → ReplayedProjection Time → ReplayedProjection Time
  on_signal ev s = change (pstr json ev.payload "target_activity_id") (signalled ev) s

  abbrev pub completed_by : EventRecord Time J → ReplayedActivity Time → ReplayedActivity Time
  completed_by ev a =
      if from_notification (pstr json ev.payload "source")
      then record a {
        status = ActivityStatus.completed;
        result = pstr json ev.payload "result";
        reviewed_by = some "0";
        reviewed_at = some ev.created_at;
      }
      else record a { status = ActivityStatus.completed; result = pstr json ev.payload "result" }

  unfoldable pub on_activity_completed :
      EventRecord Time J → ReplayedProjection Time → ReplayedProjection Time
  on_activity_completed ev s =
      change (some (or_else (pstr json ev.payload "activity_id") "")) (completed_by ev) s

  unfoldable pub on_skipped : EventRecord Time J → ReplayedProjection Time → ReplayedProjection Time
  on_skipped ev s = skip (pstr json ev.payload "activity_id") s

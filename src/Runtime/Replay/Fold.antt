-- ===== src/Runtime/Replay/Fold.antt =====
-- The changes that `fold_events` makes to the instance, and the loop over the log.
pub mod Invariant
pub mod Events
pub mod Rework
pub mod History
use mathlib.Core.List.{foldl}
use Prim.Native.String.{◌++◌ as append_text}
use fusions.Shared.{
  String, Option, none, some, List, [], ◌∷◌, ◌++◌, Bool, ◌||◌, ◌==◌, if◌then◌else◌,
}
use fusions.Shared.Int.{ℤ, pos}
use fusions.Core.WorkflowStatus
use fusions.Core.WorkflowStatus.{WorkflowStatus}
use fusions.Core.WorkflowResult
use fusions.Core.WorkflowResult.{WorkflowResult}
use fusions.Core.EventType
use fusions.Core.Definition.{DefinitionSnapshot, EventRecord}
use fusions.Runtime.Replay.Model.{Json, ReplayedActivity, ReplayedProjection}
use fusions.Runtime.Replay.Activities.{
  and_then, or_else, update_first, pstr, pi32, new_activity, by_id, on_started, on_scheduled,
  on_signal, on_activity_completed, on_skipped,
}

-- `format!("<rework:{def_id}:{round}>")`
abbrev pub placeholder : {J : Type 0} → Json J → String → ℤ → String
placeholder json def_id round =
    append_text "<rework:"
      (append_text def_id (append_text ":" (append_text (json.display round) ">")))

module _ {Time J : Type 0} (json : Json J) where
  unfoldable pub on_completed :
      EventRecord Time J → ReplayedProjection Time → ReplayedProjection Time
  on_completed ev s = record s {
    instance = record s.instance {
      status = WorkflowStatus.completed;
      result = and_then (pstr json ev.payload "result") WorkflowResult.from_db;
      completed_at = some ev.created_at;
      current_activity_id = none;
    };
  }

  unfoldable pub on_errored : ReplayedProjection Time → ReplayedProjection Time
  on_errored s = record s { instance = record s.instance { status = WorkflowStatus.errored } }

  abbrev pub rework_to :
      DefinitionSnapshot
      → J
      → String
      → String
      → ℤ
      → ReplayedProjection Time
      → ReplayedProjection Time
  rework_to snapshot p id def_id round s = record {
    instance = record s.instance {
      status = WorkflowStatus.returned_waiting;
      current_activity_id = some id;
    };
    activities = s.activities ++ new_activity json snapshot p id def_id round ∷ [];
  }

  unfoldable pub on_returned :
      DefinitionSnapshot → EventRecord Time J → ReplayedProjection Time → ReplayedProjection Time
  on_returned snapshot ev s =
      let p = ev.payload in
      let def_id = or_else (pstr json p "rework_target") "" in
      let round = or_else (pi32 json p "round") (pos 1) in
      rework_to snapshot p (or_else (pstr json p "activity_id") (placeholder json def_id round))
        def_id round s

  unfoldable pub on_resumed : ReplayedProjection Time → ReplayedProjection Time
  on_resumed s = record s { instance = record s.instance { status = WorkflowStatus.active } }

  unfoldable pub on_reactivated : ReplayedProjection Time → ReplayedProjection Time
  on_reactivated s = record s {
    instance = record s.instance {
      status = WorkflowStatus.active;
      result = none;
      completed_at = none;
    };
  }

  abbrev pub escalate :
      Option String → Option String → ReplayedProjection Time → ReplayedProjection Time
  escalate (some id) (some role) s = record s {
    activities = update_first (by_id id) (λ a. record a { assignee_role = some role }) s.activities;
  }
  escalate _ _ s = s

  unfoldable pub on_escalated :
      EventRecord Time J → ReplayedProjection Time → ReplayedProjection Time
  on_escalated ev s =
      escalate (pstr json ev.payload "activity_id") (pstr json ev.payload "to_role") s

  unfoldable pub on_fanned_out : ReplayedProjection Time → ReplayedProjection Time
  on_fanned_out s = record s { instance = record s.instance { current_activity_id = none } }

  -- The `match ev.event_type`; other events change nothing.
  unfoldable pub step :
      DefinitionSnapshot → ReplayedProjection Time → EventRecord Time J → ReplayedProjection Time
  step snapshot s ev =
      if ev.event_type == EventType.started
      then on_started json ev s
      else if ev.event_type == EventType.activity_scheduled
      then on_scheduled json snapshot ev s
      else if ev.event_type == EventType.signal_received
      then on_signal json ev s
      else if ev.event_type == EventType.activity_completed
      then on_activity_completed json ev s
      else if ev.event_type == EventType.activity_skipped
      then on_skipped json ev s
      else if ev.event_type == EventType.completed
      then on_completed ev s
      else if ev.event_type == EventType.errored
      then on_errored s
      else if ev.event_type == EventType.returned_to_rework
      then on_returned snapshot ev s
      else if ev.event_type == EventType.rework_resumed
      then on_resumed s
      else if ev.event_type == EventType.reactivated
      then on_reactivated s
      else if ev.event_type == EventType.approval_escalated
      then on_escalated ev s
      else if ev.event_type == EventType.parallel_split_scheduled
          || ev.event_type == EventType.for_each_fanned_out
      then on_fanned_out s
      else s

  abbrev pub fresh : ReplayedProjection Time
  fresh = record {
    instance = record {
      status = WorkflowStatus.pending;
      current_activity_id = none;
      result = none;
      started_at = none;
      completed_at = none;
    };
    activities = [];
  }

  unfoldable pub fold_events :
      DefinitionSnapshot → List (EventRecord Time J) → ReplayedProjection Time
  fold_events snapshot events = foldl (step snapshot) fresh events

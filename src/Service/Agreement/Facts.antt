-- ===== src/Service/Agreement/Facts.antt =====
-- What the replay does with the facts that the service appends, in the words of the service.
use mathlib.Core.Path.{fun_ext}
use fusions.Shared.{
  String, Option, none, some, List, [], ◌∷◌, ◌++◌, true, false, ◌||◌, ◌==◌, ◌≡◌, refl, ◌∙◌,
}
use fusions.Shared.Int.{ℤ, i32_of}
use fusions.Core.EventType
use fusions.Core.SignalType.{SignalType}
use fusions.Core.ActivityStatus
use fusions.Core.WorkflowStatus
use fusions.Core.WorkflowResult
use fusions.Core.WorkflowResult.{WorkflowResult}
use fusions.Core.WorkflowResult.Codec.{from_db-as_str}
use fusions.Core.Definition.{DefinitionSnapshot, EventRecord}
use fusions.Runtime.Replay.Model.{activity_type_for, ReplayedActivity, ReplayedProjection}
use fusions.Runtime.Replay.Activities.{
  pstr, update_first, by_id, is_terminal, on_scheduled, on_signal, on_activity_completed, signalled,
  completed_by,
}
use fusions.Runtime.Replay.Fold.{step, on_completed}
use fusions.Store.External.{External, IsLawful, field}
use fusions.Service.Agreement.Log.{pstr-object, pi32-object, as_str-text}
use fusions.Service.Log.{text_or_null}
use fusions.Core.ActivityType.{ActivityType}
use fusions.Service.Schedule.{scheduled_payload}
use fusions.Service.Complete.{completed_payload}
use fusions.Service.Signal.{signal_str, is_assignment}

no_assignment :
    (signal : SignalType)
    → is_assignment signal ≡ false
    → (signal_str signal == "claimed" || signal_str signal == "reassigned") ≡ false
unfolding signal_str
no_assignment SignalType.approved h = refl
no_assignment SignalType.returned h = refl
no_assignment SignalType.rejected h = refl
no_assignment SignalType.resubmitted h = refl
no_assignment SignalType.event_received h = refl
no_assignment SignalType.claimed h = cc
no_assignment SignalType.reassigned h = cc
no_assignment SignalType.completed h = refl

an_assignment :
    (signal : SignalType)
    → is_assignment signal ≡ true
    → (signal_str signal == "claimed" || signal_str signal == "reassigned") ≡ true
unfolding signal_str
an_assignment SignalType.claimed h = refl
an_assignment SignalType.reassigned h = refl
an_assignment SignalType.approved h = cc
an_assignment SignalType.returned h = cc
an_assignment SignalType.rejected h = cc
an_assignment SignalType.resubmitted h = cc
an_assignment SignalType.event_received h = cc
an_assignment SignalType.completed h = cc

module _ {Time J : Type 0} (x : External Time J) where
  abbrev pub event : ℤ → String → J → Time → EventRecord Time J
  event seq type payload now = record {
    seq = seq;
    event_type = type;
    payload = payload;
    created_at = now;
  }

  abbrev pub reviewed_by : ℤ → Option String → Time → ReplayedActivity Time → ReplayedActivity Time
  reviewed_by actor notes now a = record a {
    reviewed_by = some (x.json.display actor);
    review_notes = notes;
    reviewed_at = some now;
  }

  abbrev pub review_payload : SignalType → String → ℤ → Option String → J
  review_payload signal aid actor notes = x.object_value (
      ("signal_type", x.string_value (signal_str signal))
      ∷ ("target_activity_id", x.string_value aid)
      ∷ ("reviewer_id", x.string_value (x.json.display actor))
      ∷ ("review_notes", text_or_null x notes)
      ∷ [])

  abbrev pub assigned_to : Option String → ReplayedActivity Time → ReplayedActivity Time
  assigned_to assignee a = record a { assignee_id = assignee }

  abbrev pub assignment_payload : SignalType → String → Option String → J
  assignment_payload signal aid assignee = x.object_value (
      ("signal_type", x.string_value (signal_str signal))
      ∷ ("target_activity_id", x.string_value aid)
      ∷ ("assignee_id", text_or_null x assignee)
      ∷ [])

  abbrev pub done_with : Option String → ReplayedActivity Time → ReplayedActivity Time
  done_with result a = record a { status = ActivityStatus.completed; result = result }

  -- What the replay lists for a scheduled activity.
  abbrev pub opened :
      DefinitionSnapshot → String → String → ℤ → Option String → ReplayedActivity Time
  opened snapshot id node round role = record {
    id = id;
    activity_definition_id = node;
    activity_type = activity_type_for snapshot node;
    status = ActivityStatus.active;
    assignee_role = role;
    assignee_id = none;
    result = none;
    review_notes = none;
    reviewed_by = none;
    reviewed_at = none;
    round = i32_of round;
  }

  module _ (laws : IsLawful x) where
    text_under :
        (fs : List (String × J)) (key s : String)
        → field fs key ≡ some (x.string_value s)
        → pstr x.json (x.object_value fs) key ≡ some s
    text_under fs key s h = pstr-object x laws fs key ∙ (rw h (laws.as_str-string s))

    option_under :
        (fs : List (String × J)) (key : String) (o : Option String)
        → field fs key ≡ some (text_or_null x o)
        → pstr x.json (x.object_value fs) key ≡ o
    option_under fs key o h = pstr-object x laws fs key ∙ (rw h (as_str-text x laws o))

    signalled_lem :
        (signal : SignalType) (aid : String) (actor : ℤ) (notes : Option String) (seq : ℤ)
        (now : Time) (a : ReplayedActivity Time)
        → is_assignment signal ≡ false
        → signalled x.json
            (event seq EventType.signal_received (review_payload signal aid actor notes) now)
            a
          ≡ reviewed_by actor notes now a
    unfolding field
    signalled_lem signal aid actor notes seq now a h =
        rw
          (
            text_under _ "signal_type" (signal_str signal) refl,
            no_assignment signal h,
            text_under _ "reviewer_id" (x.json.display actor) refl,
            option_under _ "review_notes" notes refl,
          )
          refl

    pub step-review :
        (snapshot : DefinitionSnapshot) (s : ReplayedProjection Time) (signal : SignalType)
        (aid : String) (actor : ℤ) (notes : Option String) (seq : ℤ) (now : Time)
        → is_assignment signal ≡ false
        → step x.json snapshot s
            (event seq EventType.signal_received (review_payload signal aid actor notes) now)
          ≡ record s {
            activities = update_first (by_id aid) (reviewed_by actor notes now) s.activities;
          }
    unfolding step on_signal field
    step-review snapshot s signal aid actor notes seq now h =
        rw
          (
            text_under _ "target_activity_id" aid refl,
            fun_ext (λ a. signalled_lem signal aid actor notes seq now a h),
          )
          refl

    assigned_lem :
        (signal : SignalType) (aid : String) (assignee : Option String) (seq : ℤ) (now : Time)
        (a : ReplayedActivity Time)
        → is_assignment signal ≡ true
        → signalled x.json
            (event seq EventType.signal_received (assignment_payload signal aid assignee) now)
            a
          ≡ assigned_to assignee a
    unfolding field
    assigned_lem signal aid assignee seq now a h =
        rw
          (
            text_under _ "signal_type" (signal_str signal) refl,
            an_assignment signal h,
            option_under _ "assignee_id" assignee refl,
          )
          refl

    pub step-assignment :
        (snapshot : DefinitionSnapshot) (s : ReplayedProjection Time) (signal : SignalType)
        (aid : String) (assignee : Option String) (seq : ℤ) (now : Time)
        → is_assignment signal ≡ true
        → step x.json snapshot s
            (event seq EventType.signal_received (assignment_payload signal aid assignee) now)
          ≡ record s { activities = update_first (by_id aid) (assigned_to assignee) s.activities }
    unfolding step on_signal field
    step-assignment snapshot s signal aid assignee seq now h =
        rw
          (
            text_under _ "target_activity_id" aid refl,
            fun_ext (λ a. assigned_lem signal aid assignee seq now a h),
          )
          refl

    completed_by_lem :
        (aid : String) (result : Option String) (seq : ℤ) (now : Time) (a : ReplayedActivity Time)
        → completed_by x.json
            (event seq EventType.activity_completed (completed_payload x aid result) now)
            a
          ≡ done_with result a
    unfolding field completed_payload
    completed_by_lem aid result seq now a =
        rw (pstr-object x laws _ "source", option_under _ "result" result refl) refl

    pub step-completed :
        (snapshot : DefinitionSnapshot) (s : ReplayedProjection Time) (aid : String)
        (result : Option String) (seq : ℤ) (now : Time)
        → step x.json snapshot s
            (event seq EventType.activity_completed (completed_payload x aid result) now)
          ≡ record s { activities = update_first (by_id aid) (done_with result) s.activities }
    unfolding step on_activity_completed field completed_payload
    step-completed snapshot s aid result seq now =
        rw
          (
            text_under _ "activity_id" aid refl,
            fun_ext (λ a. completed_by_lem aid result seq now a),
          )
          refl

    pub step-scheduled :
        (snapshot : DefinitionSnapshot) (s : ReplayedProjection Time) (id node : String)
        (type : ActivityType) (round : ℤ) (role : Option String) (seq : ℤ) (now : Time)
        → is_terminal s.instance.status ≡ false
        → step x.json snapshot s (
            event seq EventType.activity_scheduled
              (scheduled_payload x id node type round role none)
              now)
          ≡ record {
            instance = record s.instance {
              current_activity_id = some id;
              status = WorkflowStatus.active;
            };
            activities = s.activities ++ opened snapshot id node round role ∷ [];
          }
    unfolding step on_scheduled field scheduled_payload
    step-scheduled snapshot s id node type round role seq now h =
        rw
          (
            text_under _ "activity_id" id refl,
            text_under _ "activity_definition_id" node refl,
            option_under _ "assignee_role" role refl,
            pi32-object x laws _ "round",
            laws.as_i64-number round,
            pstr-object x laws _ "via",
            h,
          )
          refl

    pub step-finished :
        (snapshot : DefinitionSnapshot) (s : ReplayedProjection Time) (result : WorkflowResult)
        (seq : ℤ) (now : Time)
        → step x.json snapshot s (
            event seq EventType.completed
              (x.object_value (("result", x.string_value (WorkflowResult.as_str result)) ∷ []))
              now)
          ≡ record s {
            instance = record s.instance {
              status = WorkflowStatus.completed;
              result = some result;
              completed_at = some now;
              current_activity_id = none;
            };
          }
    unfolding step on_completed field
    step-finished snapshot s result seq now =
        rw (text_under _ "result" (WorkflowResult.as_str result) refl, from_db-as_str result) refl

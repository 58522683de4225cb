-- ===== src/Tests/Replay.antt =====
-- The theorems on the replay at concrete logs.
use fusions.Shared.{
  ◌++◌, refl, ◌≡◌, ◌≢◌, ◌↔◌, List, [], ◌∷◌, some, none, false, true, String, All, contains,
}
use fusions.Shared.Int.{ℤ, pos}
use fusions.Core.WorkflowStatus
use fusions.Core.ActivityStatus
use fusions.Core.ActivityType
use fusions.Core.EventType
use fusions.Core.Definition.{WorkflowInstance, ActivityInstance, EventRecord}
use fusions.Runtime.Replay.Activities.{pstr}
use fusions.Runtime.Replay.Fold.{fold_events}
use fusions.Runtime.Replay.Fold.Invariant.{Inv}
use fusions.Runtime.Replay.Fold.History.{identities, fold_events-history}
use fusions.Runtime.Replay.Fold.Events.{fold_events-Inv}
use fusions.Runtime.Replay.Diff.{diff_projection, live_row, replayed_ids}
use fusions.Runtime.Replay.Diff.Agreement.{SameInstance, IsStored, diff_projection-nil}
use fusions.Runtime.Replay.Diff.Rework.{rework-reported}
use fusions.Tests.Data.{only_ids, snapshot, event}

abbrev log : List (EventRecord ℤ String)
log =
    event EventType.started
    ∷ event EventType.activity_scheduled
    ∷ event EventType.returned_to_rework
    ∷ event EventType.activity_completed
    ∷ []

fold_events-Inv_example : Inv snapshot (fold_events only_ids snapshot log)
fold_events-Inv_example = fold_events-Inv only_ids snapshot log

fold_events-history_example :
    (more : List (String × (String × (ActivityType.ActivityType × ℤ)))) × (identities
        (fold_events only_ids snapshot (log ++ event EventType.returned_to_rework ∷ []))
      ≡ identities (fold_events only_ids snapshot log) ++ more)
fold_events-history_example =
    fold_events-history only_ids snapshot log (event EventType.returned_to_rework ∷ [])

abbrev live : WorkflowInstance ℤ String
live = record {
  id = "w";
  tenant_id = "1";
  facility_id = "1";
  reference_no = "r";
  workflow_definition_id = "d";
  business_key = "k";
  business_type = "b";
  status = WorkflowStatus.returned_waiting;
  current_activity_id = some "t2";
  result = none;
  side_effects_executed = false;
  context = none;
  started_at = some (pos 0);
  completed_at = none;
  created_at = pos 0;
  updated_at = pos 0;
}

abbrev done : ActivityInstance ℤ
done = record {
  id = "t2";
  tenant_id = "1";
  workflow_instance_id = "w";
  activity_definition_id = "a";
  activity_type = ActivityType.approval;
  status = ActivityStatus.completed;
  assignee_role = none;
  assignee_id = none;
  result = none;
  review_notes = none;
  reviewed_by = none;
  reviewed_at = none;
  round = pos 2;
}

diff_projection-nil_example :
    (diff_projection (fold_events only_ids snapshot log) live (done ∷ []) ≡ []) ↔ (
      SameInstance (fold_events only_ids snapshot log).instance live
      × (All (IsStored (done ∷ [])) (fold_events only_ids snapshot log).activities
          × All
              (λ la.
                contains (replayed_ids (fold_events only_ids snapshot log).activities) la.id ≡ true)
              (done ∷ [])))
diff_projection-nil_example =
    diff_projection-nil (fold_events only_ids snapshot log) live (done ∷ [])

has_id : pstr only_ids "t2" "activity_id" ≡ some "t2"
unfolding pstr
has_id = refl

stored_t2 : live_row (done ∷ []) "t2" ≡ some done
unfolding live_row
stored_t2 = refl

-- A rework as the service logs it: the hand-back, the signal that ends it, and what follows.
abbrev before_hand_back : List (EventRecord ℤ String)
before_hand_back = event EventType.started ∷ []

abbrev after_hand_back : List (EventRecord ℤ String)
after_hand_back =
    event EventType.signal_received
    ∷ event EventType.activity_completed
    ∷ event EventType.rework_resumed
    ∷ []

rework-reported_example :
    diff_projection
      (fold_events only_ids snapshot (
        before_hand_back
        ++ event EventType.activity_scheduled
          ∷ event EventType.returned_to_rework
          ∷ after_hand_back))
      live
      (done ∷ [])
    ≢ []
rework-reported_example =
    rework-reported only_ids snapshot before_hand_back after_hand_back
      (event EventType.activity_scheduled) (event EventType.returned_to_rework) "t2" live
      (done ∷ []) done refl refl has_id has_id stored_t2 refl

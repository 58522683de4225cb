-- ===== src/Runtime/Replay/Diff.antt =====
-- `diff_projection` of crates/hetuflow-runtime/src/replay.rs. A line of the report is which value differs
-- and, for an activity, its id, without the two values printed.
pub mod Agreement
pub mod Rework
use native.Mathlib.Decide.{ℕ_discrete}
use fusions.Shared.{
  String, Option, none, some, List, [], ◌∷◌, ◌++◌, Bool, true, false, ◌==◌, ◌≡◌, if◌then◌else◌, map,
  contains, filter, String-discrete, ℤ-discrete, Option-String-discrete,
}
use fusions.Shared.Int.{ℤ}
use fusions.Core.WorkflowStatus.{WorkflowStatus}
use fusions.Core.WorkflowResult.{WorkflowResult}
use fusions.Core.ActivityStatus.{ActivityStatus}
use fusions.Core.Definition.{WorkflowInstance, ActivityInstance}
use fusions.Runtime.Replay.Model.{ReplayedInstance, ReplayedActivity, ReplayedProjection}

pub data Difference : Type 0 where
  status current_activity_id result : Difference
  missing_live missing_replay : String → Difference
  activity_status activity_result activity_round activity_assignee_role : String → Difference
  activity_assignee_id activity_review_notes activity_reviewed_by : String → Difference

-- The derived `PartialEq`
unfoldable pub WorkflowStatus-discrete : Discrete WorkflowStatus
WorkflowStatus-discrete = hlevel

unfoldable pub ActivityStatus-discrete : Discrete ActivityStatus
ActivityStatus-discrete = hlevel

abbrev WorkflowResult-discrete : Discrete WorkflowResult
WorkflowResult-discrete = hlevel

unfoldable pub Option-WorkflowResult-discrete : Discrete (Option WorkflowResult)
Option-WorkflowResult-discrete = hlevel WorkflowResult-discrete

-- `if a != b { diffs.push(line) }`
unfoldable pub unless : {P : Type 0} → Dec P → Difference → List Difference
unless (yes p) line = []
unless (no p) line = line ∷ []

-- What a loop over a list pushes.
unfoldable pub each {ℓ} : {A : Type ℓ} → (A → List Difference) → List A → List Difference
each f [] = []
each f (x ∷ xs) = f x ++ each f xs

abbrev pub replayed_ids : {Time : Type 0} → List (ReplayedActivity Time) → List String
replayed_ids activities = map (λ a. a.id) activities

abbrev pub or_earlier {ℓ} : {A : Type ℓ} → Option A → Option A → Option A
or_earlier (some later) earlier = some later
or_earlier none earlier = earlier

abbrev pub is_completed : ActivityStatus → Bool
is_completed ActivityStatus.completed = true
is_completed _ = false

module _ {Time : Type 0} where
  -- `live_by_id.get(id)`: of two rows with one id, the map has kept the later one.
  unfoldable pub live_row : List (ActivityInstance Time) → String → Option (ActivityInstance Time)
  live_row [] id = none
  live_row (a ∷ rows) id = or_earlier (live_row rows id) (if a.id == id then some a else none)

  unfoldable pub diff_instance :
      {J : Type 0} → ReplayedInstance Time → WorkflowInstance Time J → List Difference
  diff_instance ri li =
      unless (WorkflowStatus-discrete ri.status li.status) status
      ++ (unless (Option-String-discrete ri.current_activity_id li.current_activity_id)
            current_activity_id
          ++ (unless (Option-WorkflowResult-discrete ri.result li.result) result))

  unfoldable pub diff_row : ReplayedActivity Time → ActivityInstance Time → List Difference
  diff_row ra la =
      unless (ActivityStatus-discrete ra.status la.status) (activity_status ra.id)
      ++ (unless (Option-String-discrete ra.result la.result) (activity_result ra.id)
          ++ (unless (ℤ-discrete ra.round la.round) (activity_round ra.id)
              ++ (unless (Option-String-discrete ra.assignee_role la.assignee_role)
                    (activity_assignee_role ra.id)
                  ++ (unless (Option-String-discrete ra.assignee_id la.assignee_id)
                        (activity_assignee_id ra.id)
                      ++ (unless (Option-String-discrete ra.review_notes la.review_notes)
                            (activity_review_notes ra.id)
                          ++ (unless (Option-String-discrete ra.reviewed_by la.reviewed_by)
                              (activity_reviewed_by ra.id)))))))

  abbrev pub diff_found : ReplayedActivity Time → Option (ActivityInstance Time) → List Difference
  diff_found ra none = missing_live ra.id ∷ []
  diff_found ra (some la) = diff_row ra la

  abbrev pub diff_live : List String → ActivityInstance Time → List Difference
  diff_live ids la = if contains ids la.id then [] else missing_replay la.id ∷ []

  unfoldable pub diff_projection :
      {J : Type 0}
      → ReplayedProjection Time
      → WorkflowInstance Time J
      → List (ActivityInstance Time)
      → List Difference
  diff_projection replayed live rows =
      diff_instance replayed.instance live
      ++ (each (λ ra. diff_found ra (live_row rows ra.id)) replayed.activities
          ++ (each (diff_live (replayed_ids replayed.activities)) rows))

  -- `replay_completed_activities`
  unfoldable pub replay_completed_activities :
      ReplayedProjection Time → List (ReplayedActivity Time)
  replay_completed_activities proj = filter (λ a. is_completed a.status) proj.activities

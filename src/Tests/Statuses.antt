-- ===== src/Tests/Statuses.antt =====
-- The theorems of Core at concrete values.
use fusions.Shared.{refl, ◌≡◌, ◌↔◌, ok, List, [], inl, true, some, arith, min, ◌*◌, ◌^◌}
use fusions.Shared.Int.{pos, ◌≤ℤ◌}
use fusions.Core.WorkflowStatus
use fusions.Core.WorkflowStatus.{WorkflowStatus}
use fusions.Core.WorkflowStatus.Codec.{WorkflowStatus_codec}
use fusions.Core.ActivityStatus
use fusions.Core.ActivityStatus.Codec.{ActivityStatus_codec}
use fusions.Core.ActivityType
use fusions.Core.ActivityType.Codec.{ActivityType_codec}
use fusions.Core.WorkflowResult
use fusions.Core.WorkflowResult.Codec.{WorkflowResult_codec}
use fusions.Core.JoinStrategy.{n_of_m, is_satisfied}
use fusions.Core.JoinStrategy.Laws.{is_satisfied_mono, is_satisfied-all}
use fusions.Core.Backoff.{retry_backoff_secs}
use fusions.Core.Backoff.Bounds.{retry_backoff_secs_mono, retry_backoff_secs_exact}
use fusions.Core.Transition.{try_transition}
use fusions.Core.Transition.Graph.{◌⟶◌, follow, try_transition_iff, follow-final, follow-pending}

try_transition_iff_example :
    (try_transition WorkflowStatus.active WorkflowStatus.completed ≡ ok WorkflowStatus.completed)
    ↔ ((WorkflowStatus.active ⟶ WorkflowStatus.completed)
        × (WorkflowStatus.completed ≡ WorkflowStatus.completed))
try_transition_iff_example =
    try_transition_iff WorkflowStatus.active WorkflowStatus.completed WorkflowStatus.completed

abbrev no_requests : List WorkflowStatus
no_requests = []

stays_errored : follow WorkflowStatus.errored no_requests ≡ ok WorkflowStatus.errored
unfolding follow
stays_errored = refl

follow-final_example : (no_requests ≡ []) × (WorkflowStatus.errored ≡ WorkflowStatus.errored)
follow-final_example = follow-final WorkflowStatus.errored no_requests (inl refl) stays_errored

stays_pending : follow WorkflowStatus.pending no_requests ≡ ok WorkflowStatus.pending
unfolding follow
stays_pending = refl

follow-pending_example : (no_requests ≡ []) × (WorkflowStatus.pending ≡ WorkflowStatus.pending)
follow-pending_example = follow-pending WorkflowStatus.pending no_requests stays_pending

WorkflowStatus_codec_example :
    ((WorkflowStatus.from_db "active" ≡ WorkflowStatus.active)
      ↔ ("active" ≡ WorkflowStatus.as_str WorkflowStatus.active))
    × ((WorkflowStatus.from_i16 (pos 2) ≡ WorkflowStatus.active)
        ↔ (pos 2 ≡ WorkflowStatus.as_i16 WorkflowStatus.active))
WorkflowStatus_codec_example = WorkflowStatus_codec WorkflowStatus.active "active" (pos 2) (λ e. cc)

ActivityStatus_codec_example :
    ((ActivityStatus.from_db "active" ≡ ActivityStatus.active)
      ↔ ("active" ≡ ActivityStatus.as_str ActivityStatus.active))
    × ((ActivityStatus.from_i16 (pos 2) ≡ ActivityStatus.active)
        ↔ (pos 2 ≡ ActivityStatus.as_i16 ActivityStatus.active))
ActivityStatus_codec_example = ActivityStatus_codec ActivityStatus.active "active" (pos 2) (λ e. cc)

ActivityType_codec_example :
    (ActivityType.from_db (ActivityType.as_str ActivityType.merge) ≡ ActivityType.merge)
    × ((ActivityType.from_i16 (pos 3) ≡ ActivityType.merge)
        ↔ (pos 3 ≡ ActivityType.as_i16 ActivityType.merge))
ActivityType_codec_example = ActivityType_codec ActivityType.merge (pos 3) (λ e. cc)

WorkflowResult_codec_example :
    ((WorkflowResult.from_db "returned" ≡ some WorkflowResult.returned)
      ↔ ("returned" ≡ WorkflowResult.as_str WorkflowResult.returned))
    × ((WorkflowResult.from_i16 (pos 3) ≡ some WorkflowResult.returned)
        ↔ (pos 3 ≡ WorkflowResult.as_i16 WorkflowResult.returned))
WorkflowResult_codec_example = WorkflowResult_codec WorkflowResult.returned "returned" (pos 3)

two_of_three : is_satisfied (n_of_m (pos 2)) (pos 2) (pos 3) ≡ true
unfolding is_satisfied
two_of_three = refl

is_satisfied_mono_example : is_satisfied (n_of_m (pos 2)) (pos 3) (pos 3) ≡ true
is_satisfied_mono_example =
    is_satisfied_mono (n_of_m (pos 2)) (pos 2) (pos 3) (pos 3) (omega arith) two_of_three

is_satisfied-all_example : is_satisfied (n_of_m (pos 2)) (pos 3) (pos 3) ≡ true
is_satisfied-all_example =
    is_satisfied-all (n_of_m (pos 2)) (pos 3) (pos 3) (omega arith) (omega arith)

retry_backoff_secs_mono_example :
    retry_backoff_secs (pos 1) (pos 5) (pos 300) ≤ℤ retry_backoff_secs (pos 3) (pos 5) (pos 300)
retry_backoff_secs_mono_example = retry_backoff_secs_mono 1 3 5 (pos 300) (omega arith)

retry_backoff_secs_exact_example :
    retry_backoff_secs (pos 3) (pos 5) (pos 300) ≡ pos (min (5 * 2 ^ 3) 300)
retry_backoff_secs_exact_example = retry_backoff_secs_exact 3 5 300 (omega arith) (omega arith)

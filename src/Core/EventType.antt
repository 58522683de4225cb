-- ===== src/Core/EventType.antt =====
-- `event_type` of crates/hetuflow-core/src/lib.rs: the names of the events that the service appends.
use fusions.Shared.{String}

abbrev pub started : String
started = "workflow.started.v1"

abbrev pub activity_scheduled : String
activity_scheduled = "activity.scheduled.v1"

abbrev pub signal_received : String
signal_received = "workflow.signal_received.v1"

abbrev pub activity_completed : String
activity_completed = "activity.completed.v1"

abbrev pub activity_skipped : String
activity_skipped = "activity.skipped.v1"

abbrev pub completed : String
completed = "workflow.completed.v1"

abbrev pub errored : String
errored = "workflow.errored.v1"

abbrev pub returned_to_rework : String
returned_to_rework = "workflow.returned_to_rework.v1"

abbrev pub rework_resumed : String
rework_resumed = "workflow.rework_resumed.v1"

abbrev pub reactivated : String
reactivated = "workflow.reactivated.v1"

abbrev pub approval_escalated : String
approval_escalated = "workflow.approval_escalated.v1"

abbrev pub parallel_split_scheduled : String
parallel_split_scheduled = "workflow.parallel_split_scheduled.v1"

abbrev pub for_each_fanned_out : String
for_each_fanned_out = "workflow.for_each_fanned_out.v1"

abbrev pub activity_failed : String
activity_failed = "activity.failed.v1"

abbrev pub timer_fired : String
timer_fired = "workflow.timer_fired.v1"

abbrev pub branch_reached_join : String
branch_reached_join = "workflow.branch_reached_join.v1"

abbrev pub parallel_join_satisfied : String
parallel_join_satisfied = "workflow.parallel_join_satisfied.v1"

abbrev pub merge_passed : String
merge_passed = "workflow.merge_passed.v1"

abbrev pub context_updated : String
context_updated = "workflow.context_updated.v1"

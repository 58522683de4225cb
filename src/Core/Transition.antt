-- ===== src/Core/Transition.antt =====
-- `WorkflowStatus::try_transition` of crates/hetuflow-core/src/lib.rs.
pub mod Graph
use fusions.Shared.{ok, err}
use fusions.Core.WorkflowStatus.{
  WorkflowStatus, pending, active, completed, errored, cancelled, returned_waiting,
}
use fusions.Core.Error.{FlowResult, invalid_state, cannot_transition}

unfoldable pub try_transition : WorkflowStatus → WorkflowStatus → FlowResult WorkflowStatus
try_transition pending active = ok active
try_transition active completed = ok completed
try_transition active errored = ok errored
try_transition active cancelled = ok cancelled
try_transition completed active = ok active
try_transition active returned_waiting = ok returned_waiting
try_transition returned_waiting active = ok active
try_transition returned_waiting completed = ok completed
try_transition from target = err (invalid_state (cannot_transition from target))

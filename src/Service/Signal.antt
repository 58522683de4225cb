-- ===== src/Service/Signal.antt =====
-- `check_signal_against_node`, `signal_result` and `signal_str` of crates/hetuflow-service/src/service.rs.
use fusions.Shared.{String, Option, none, some, Bool, true, false, ok, err, ◌==◌, if◌then◌else◌}
use fusions.Shared.Int.{ℤ}
use fusions.Core.NodeKind.{NodeKind}
use fusions.Core.SignalType.{SignalType}
use fusions.Core.Node.{WorkflowNode, kind, event_wait_of}
use fusions.Core.Error.{FlowResult, validation, Message}

abbrev misplaced : SignalType → NodeKind → FlowResult (Unit {0})
misplaced signal k = err (validation (Message.signal_misplaced signal k))

abbrev check_event : String → String → Option String → FlowResult (Unit {0})
check_event node declared none = err (validation Message.event_type_required)
check_event node declared (some given) =
    if given == declared
    then ok tt
    else err (validation (Message.event_type_differs given node declared))

abbrev check_event_wait :
    WorkflowNode
    → Option (String × Option ℤ × Option String)
    → Option String
    → FlowResult (Unit {0})
check_event_wait node none given = misplaced SignalType.event_received (kind node)
check_event_wait node (some (declared, _, _)) given = check_event node.id declared given

abbrev takes_review : NodeKind → Bool
takes_review NodeKind.approval = true
takes_review _ = false

abbrev takes_assignee : NodeKind → Bool
takes_assignee NodeKind.approval = true
takes_assignee NodeKind.assignment = true
takes_assignee _ = false

abbrev takes_completion : NodeKind → Bool
takes_completion NodeKind.notification = true
takes_completion NodeKind.assignment = true
takes_completion _ = false

abbrev must_take : Bool → SignalType → NodeKind → FlowResult (Unit {0})
must_take true signal k = ok tt
must_take false signal k = misplaced signal k

unfoldable pub check_signal_against_node :
    WorkflowNode → SignalType → Option String → FlowResult (Unit {0})
check_signal_against_node node SignalType.claimed given =
    must_take (takes_assignee (kind node)) SignalType.claimed (kind node)
check_signal_against_node node SignalType.reassigned given =
    must_take (takes_assignee (kind node)) SignalType.reassigned (kind node)
check_signal_against_node node SignalType.approved given =
    must_take (takes_review (kind node)) SignalType.approved (kind node)
check_signal_against_node node SignalType.rejected given =
    must_take (takes_review (kind node)) SignalType.rejected (kind node)
check_signal_against_node node SignalType.returned given =
    must_take (takes_review (kind node)) SignalType.returned (kind node)
check_signal_against_node node SignalType.completed given =
    must_take (takes_completion (kind node)) SignalType.completed (kind node)
check_signal_against_node node SignalType.event_received given =
    check_event_wait node (event_wait_of node.config) given
check_signal_against_node node SignalType.resubmitted given =
    err (validation Message.resubmitted_is_no_signal)

unfoldable pub signal_result : SignalType → Option String
signal_result SignalType.approved = some "approved"
signal_result SignalType.rejected = some "rejected"
signal_result SignalType.returned = some "returned"
signal_result SignalType.completed = some "completed"
signal_result _ = none

unfoldable pub signal_str : SignalType → String
signal_str SignalType.approved = "approved"
signal_str SignalType.returned = "returned"
signal_str SignalType.rejected = "rejected"
signal_str SignalType.resubmitted = "resubmitted"
signal_str SignalType.event_received = "event_received"
signal_str SignalType.claimed = "claimed"
signal_str SignalType.reassigned = "reassigned"
signal_str SignalType.completed = "completed"

-- `matches!(signal, SignalType::Claimed | SignalType::Reassigned)`
abbrev pub is_assignment : SignalType → Bool
is_assignment SignalType.claimed = true
is_assignment SignalType.reassigned = true
is_assignment _ = false

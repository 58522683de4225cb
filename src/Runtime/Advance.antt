-- ===== src/Runtime/Advance.antt =====
-- `decide_start`, `decide_advance` and `decide_event_wait_timeout` of crates/hetuflow-runtime/src/lib.rs.
pub mod Targets
use fusions.Shared.{String, Option, none, some, List, [], find}
use fusions.Shared.Int.{ℤ}
use fusions.Core.NodeKind.{is_approval}
use fusions.Core.WorkflowResult
use fusions.Core.SignalType
use fusions.Core.SignalType.{SignalType}
use fusions.Core.Node.{WorkflowNode, kind, assignee_role, event_wait_of}
use fusions.Core.Definition.{WorkflowTransition}
use fusions.Core.Outcome.{AdvanceOutcome, advance, complete, rework, error}
use fusions.Runtime.Guard.{Cel}
use fusions.Runtime.Resolve.{
  Resolved, no_trace, resolve_fuel, find_node, find_next_transition, resolve_target,
}

abbrev entry : Option WorkflowNode → Option (String × Option String)
entry none = none
entry (some n) = some (n.id, assignee_role n)

-- The first approval node in the order of the list, whatever the edges of the start node.
unfoldable pub decide_start : List WorkflowNode → Option (String × Option String)
decide_start nodes = entry (find (λ n. is_approval (kind n)) nodes)

-- A hand-back settles at a node to do again, or it is an error.
unfoldable pub as_rework : {J : Type 0} → AdvanceOutcome J → AdvanceOutcome J
as_rework (advance target role) = rework target role
as_rework _ = error

module _ {J : Type 0} (cel : Cel J) (nodes : List WorkflowNode)
    (transitions : List WorkflowTransition) (context : Option J) where
  abbrev pub resolve : String → Resolved J
  resolve = resolve_target cel nodes transitions context resolve_fuel [] no_trace

  abbrev pub go_on : Option WorkflowTransition → Resolved J
  go_on none = (error, no_trace)
  go_on (some t) = resolve t.to

  abbrev pub hand_back : Option WorkflowTransition → Resolved J
  hand_back none = (complete WorkflowResult.returned, no_trace)
  hand_back (some t) = let (outcome, trace) = resolve t.to in (as_rework outcome, trace)

  unfoldable pub decide_advance : String → SignalType → Resolved J
  decide_advance current SignalType.rejected = (complete WorkflowResult.rejected, no_trace)
  decide_advance current SignalType.returned =
      hand_back (find_next_transition transitions current SignalType.returned)
  decide_advance current SignalType.resubmitted = (error, no_trace)
  decide_advance current SignalType.claimed = (error, no_trace)
  decide_advance current SignalType.reassigned = (error, no_trace)
  decide_advance current SignalType.approved =
      go_on (find_next_transition transitions current SignalType.approved)
  decide_advance current SignalType.event_received =
      go_on (find_next_transition transitions current SignalType.event_received)
  decide_advance current SignalType.completed =
      go_on (find_next_transition transitions current SignalType.completed)

  abbrev time_out : Option (String × Option ℤ × Option String) → Resolved J
  time_out none = (error, no_trace)
  time_out (some (_, _, none)) = (error, no_trace)
  time_out (some (_, _, some target)) = resolve target

  abbrev time_out_at : Option WorkflowNode → Resolved J
  time_out_at none = (error, no_trace)
  time_out_at (some node) = time_out (event_wait_of node.config)

  unfoldable pub decide_event_wait_timeout : String → Resolved J
  decide_event_wait_timeout current = time_out_at (find_node nodes current)

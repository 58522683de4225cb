-- ===== src/Runtime/Validate/Split.antt =====
-- A parallel split of a definition that passes `validate_definition` opens, and its branches meet.
use fusions.Shared.{String, Option, some, none, List, true, ◌≡◌}
use fusions.Core.NodeKind.{NodeKind}
use fusions.Core.JoinStrategy.{JoinStrategy}
use fusions.Core.ActivityType.{ActivityType}
use fusions.Core.SignalType.{SignalType}
use fusions.Core.Node.{WorkflowNode, kind, assignee_role}
use fusions.Core.Definition.{WorkflowTransition}
use fusions.Core.Outcome.{ParallelTarget, advance}
use fusions.Runtime.Guard.{Cel}
use fusions.Runtime.Resolve.{no_trace, find_node, find_next_transition}
use fusions.Runtime.Replay.Model.{instantiated_activity_type}
use fusions.Runtime.Advance.{decide_advance}
use fusions.Runtime.Check.Parallel.{completion_signal, is_join}

-- The target is a node of the definition, of the type of the activity that the service inserts there,
-- with the node's role, and it carries no item.
abbrev pub Opens : {A : Type 0} → List WorkflowNode → ParallelTarget A → Type 0
Opens nodes target =
    (n : WorkflowNode) × (find_node nodes target.node_id ≡ some n)
    × (target.activity_type ≡ instantiated_activity_type (kind n))
    × (target.assignee_role ≡ assignee_role n)
    × (target.item_index ≡ none)
    × (target.item_payload ≡ none)

module _ (nodes : List WorkflowNode) (transitions : List WorkflowTransition) where
  -- The branch is a node with an edge to the join for the signal that ends it.
  abbrev LeadsTo : String → String → Type 0
  LeadsTo join branch =
      (n : WorkflowNode) × (signal : SignalType) × (t : WorkflowTransition) × (find_node nodes
          branch
        ≡ some n)
      × (completion_signal (kind n) ≡ some signal)
      × (find_next_transition transitions branch signal ≡ some t)
      × (t.to ≡ join)
      × (is_join (find_node nodes join) ≡ true)

module _ {J : Type 0} (cel : Cel J) (nodes : List WorkflowNode)
    (transitions : List WorkflowTransition) (context : Option J) where
  -- The signal that ends the branch brings it to the join.
  abbrev pub Completes : String → String → Type 0
  Completes join branch =
      (n : WorkflowNode) × (signal : SignalType) × (find_node nodes branch ≡ some n)
      × (completion_signal (kind n) ≡ some signal)
      × (decide_advance cel nodes transitions context branch signal ≡ (advance join none, no_trace))

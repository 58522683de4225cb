-- ===== src/Runtime/Validate.antt =====
-- `validate_definition` and `validate_domain_driven` of crates/hetuflow-runtime/src/lib.rs.
pub mod Sound
pub mod Split
pub mod Join
pub mod DomainDriven
use fusions.Shared.{
  ℕ, String, List, [], ◌∷◌, Bool, true, false, map, length, filter, contains, for_each, ltb, nat_eq,
  ok, ◌>>=◌, ◌>>◌,
}
use fusions.Core.NodeKind
use fusions.Core.NodeKind.{NodeKind, is_start, is_end}
use fusions.Core.Config.{NodeConfig}
use fusions.Core.Node.{WorkflowNode, kind, when_nonempty}
use fusions.Core.Definition.{WorkflowTransition}
use fusions.Core.Error.{Message}
use fusions.Runtime.Guard.{Cel}
use fusions.Runtime.Check.Base.{Checked, fail, must, must_not}
use fusions.Runtime.Check.Activities.{
  check_context_writes, check_notification, check_assignment, check_approval, check_event_wait,
  check_sub_workflow,
}
use fusions.Runtime.Check.Routing.{check_condition, check_merge}
use fusions.Runtime.Check.Parallel.{check_split, check_join, check_for_each}

abbrev pub node_ids : List WorkflowNode → List String
node_ids nodes = map (λ n. n.id) nodes

-- `count(kind)` over `nodes`
abbrev pub count_kind : (NodeKind → Bool) → List WorkflowNode → ℕ
count_kind is nodes = length (filter (λ n. is (kind n)) nodes)

-- The loop that fills `seen_ids`.
unfoldable pub check_unique : List String → List WorkflowNode → Checked
check_unique seen [] = ok tt
check_unique seen (n ∷ ns) =
    let rest = check_unique (n.id ∷ seen) ns in
    do must_not (contains seen n.id) (Message.duplicate_node_id n.id); rest

-- The body of the loop over the transitions; `ids` is `seen_ids`.
unfoldable pub check_transition : List String → WorkflowTransition → Checked
check_transition ids t = do
  must (contains ids t.from) (Message.transition_from_unknown t.from)
  must (contains ids t.to) (Message.transition_to_unknown t.to)

module _ {J : Type 0} (cel : Cel J) (nodes : List WorkflowNode)
    (transitions : List WorkflowTransition) where
  -- The `match node.kind()`.
  unfoldable pub check_config : String → NodeConfig → Checked
  check_config id NodeConfig.parallel = fail (Message.unsupported_kind NodeKind.parallel)
  check_config id NodeConfig.timer = fail (Message.unsupported_kind NodeKind.timer)
  check_config id (NodeConfig.notification config) = check_notification transitions id config
  check_config id (NodeConfig.assignment config) = check_assignment transitions id config
  check_config id (NodeConfig.approval role sla escalation escalation_role) =
      check_approval transitions id role sla escalation escalation_role
  check_config id (NodeConfig.condition default branches) =
      check_condition cel (node_ids nodes) id default branches
  check_config id (NodeConfig.event_wait event_type _ target _ _) =
      check_event_wait transitions id (node_ids nodes) event_type (when_nonempty target)
  check_config id (NodeConfig.parallel_split targets) =
      check_split nodes transitions (node_ids nodes) id targets
  check_config id (NodeConfig.parallel_join strategy) = check_join nodes transitions id strategy
  check_config id NodeConfig.merge = check_merge nodes transitions id
  check_config id (NodeConfig.for_each items template join _) =
      check_for_each cel nodes transitions id items template join
  check_config id (NodeConfig.sub_workflow child _ failed) =
      check_sub_workflow transitions id (node_ids nodes) child failed
  check_config id NodeConfig.start = ok tt
  check_config id (NodeConfig.end _) = ok tt

  unfoldable pub check_node : WorkflowNode → Checked
  check_node node = check_context_writes node >> check_config node.id node.config

  unfoldable pub validate_definition : Checked
  validate_definition = do
    check_unique [] nodes
    must (nat_eq (count_kind is_start nodes) 1) (Message.start_nodes (count_kind is_start nodes))
    must_not (nat_eq (count_kind is_end nodes) 0) Message.no_end_node
    for_each check_node nodes
    for_each (check_transition (node_ids nodes)) transitions

abbrev pub domain_driven_kind : NodeKind → Bool
domain_driven_kind NodeKind.start = true
domain_driven_kind NodeKind.approval = true
domain_driven_kind NodeKind.condition = true
domain_driven_kind NodeKind.end = true
domain_driven_kind NodeKind.merge = true
domain_driven_kind _ = false

-- The body of the loop over the nodes.
unfoldable pub check_domain_driven : WorkflowNode → Checked
check_domain_driven node =
    must (domain_driven_kind (kind node)) (Message.not_domain_driven node.id (kind node))

unfoldable pub validate_domain_driven : List WorkflowNode → Checked
validate_domain_driven nodes = for_each check_domain_driven nodes

-- ===== src/Runtime/Check/Parallel.antt =====
-- The checks at parallel splits, parallel joins and for-each nodes.
use fusions.Shared.{
  ℕ, String, Option, none, some, List, [], ◌∷◌, Bool, true, false, not, ◌&&◌, ◌==◌, ltb, ok, ◌>>=◌,
  ◌>>◌, contains, any, filter, length,
}
use fusions.Shared.Int.{ℤ, pos, ltb_ℤ, pos_part}
use fusions.Core.NodeKind.{NodeKind, is_parallel_join}
use fusions.Core.SignalType.{SignalType}
use fusions.Core.JoinStrategy.{JoinStrategy, n_of_m}
use fusions.Core.Node.{WorkflowNode, kind, is_empty, for_each_of}
use fusions.Core.Definition.{WorkflowTransition}
use fusions.Core.Error.{Message, FlowResult}
use fusions.Runtime.Guard.{Cel, validate_expression}
use fusions.Runtime.Resolve.{find_node, find_next_transition}
use fusions.Runtime.Check.Base.{Checked, fail, must, must_not, has_edge, is_join_incoming_signal}
use fusions.Runtime.Check.Routing.{compiles}

-- The signal that ends a branch of each kind.
unfoldable pub completion_signal : NodeKind → Option SignalType
completion_signal NodeKind.approval = some SignalType.approved
completion_signal NodeKind.assignment = some SignalType.completed
completion_signal NodeKind.notification = some SignalType.completed
completion_signal NodeKind.event_wait = some SignalType.event_received
completion_signal _ = none

abbrev or_fail {ℓ} : {A : Type ℓ} → Option A → Message → FlowResult A
or_fail none m = fail m
or_fail (some a) m = ok a

abbrev no_writes : List String → Bool
no_writes [] = true
no_writes _ = false

abbrev pub is_join : Option WorkflowNode → Bool
is_join none = false
is_join (some n) = is_parallel_join (kind n)

module _ (nodes : List WorkflowNode) (transitions : List WorkflowTransition) (ids : List String)
    (id : String) where
  -- One round of the loop over the branch targets: the join that the branch reaches.
  unfoldable pub check_split_branch : String → FlowResult String
  check_split_branch branch = do
    must (contains ids branch) (Message.split_branch_unknown id branch)
    node ← or_fail (find_node nodes branch) (Message.split_branch_unknown id branch)
    signal ←
        or_fail (completion_signal (kind node)) (Message.split_branch_kind id branch (kind node))
    must (no_writes node.context_writes) (Message.split_branch_writes id branch)
    t ←
        or_fail (find_next_transition transitions branch signal)
          (Message.split_branch_no_completion id branch signal)
    must (is_join (find_node nodes t.to)) (Message.split_branch_not_to_join id branch t.to)
    ok t.to

  abbrev converges : Option String → String → Checked
  converges none target = ok tt
  converges (some existing) target =
      must (existing == target) (Message.split_branches_diverge id existing target)

  -- `join` is the join that the branches before have reached.
  unfoldable pub check_split_branches : Option String → List String → Checked
  check_split_branches join [] = ok tt
  check_split_branches join (branch ∷ branches) = check_split_branch branch >>= λ target.
      converges join target >> check_split_branches (some target) branches

  unfoldable pub check_split : List String → Checked
  check_split targets = do
    must_not (ltb (length targets) 2) (Message.too_few_branches id (length targets))
    check_split_branches none targets

module _ (nodes : List WorkflowNode) (transitions : List WorkflowTransition) (id : String) where
  unfoldable pub incoming_count : ℕ
  incoming_count =
      length (filter (λ t. t.to == id && is_join_incoming_signal t.on_signal) transitions)

  abbrev joins_at : Option (String × String × String × Option ℤ) → Bool
  joins_at none = false
  joins_at (some (_, _, join, _)) = join == id

  unfoldable pub is_for_each_join : Bool
  is_for_each_join = any (λ n. joins_at (for_each_of n.config)) nodes

  abbrev check_threshold : Bool → ℕ → JoinStrategy → Checked
  check_threshold fed incoming (n_of_m n) = do
    must_not (ltb_ℤ n (pos 1)) (Message.join_threshold_too_small id n)
    must_not (not fed && ltb incoming (pos_part n)) (Message.join_threshold_too_large id n incoming)
  check_threshold fed incoming _ = ok tt

  unfoldable pub check_join : JoinStrategy → Checked
  check_join strategy = do
    must_not (not is_for_each_join && ltb incoming_count 2)
        (Message.too_few_incoming id incoming_count)
    must (has_edge transitions id SignalType.approved) (Message.join_no_outgoing id)
    check_threshold is_for_each_join incoming_count strategy

unfoldable pub is_template_kind : NodeKind → Bool
is_template_kind NodeKind.approval = true
is_template_kind NodeKind.assignment = true
is_template_kind NodeKind.event_wait = true
is_template_kind _ = false

module _ {J : Type 0} (cel : Cel J) (nodes : List WorkflowNode)
    (transitions : List WorkflowTransition) (id : String) where
  unfoldable pub check_for_each : String → String → String → Checked
  check_for_each items_path template join = do
    must_not (is_empty items_path) (Message.items_path_empty id)
    compiles (validate_expression cel items_path) (Message.items_path_invalid id)
    node ← or_fail (find_node nodes template) (Message.template_unknown id template)
    must (is_template_kind (kind node)) (Message.template_kind id template (kind node))
    must (no_writes node.context_writes) (Message.template_writes id template)
    at ← or_fail (find_node nodes join) (Message.join_target_unknown id join)
    must (is_parallel_join (kind at)) (Message.join_target_kind id join (kind at))
    must
        (any (λ t. t.from == template && t.to == join && is_join_incoming_signal t.on_signal)
          transitions)
        (Message.template_no_join_edge id template join)

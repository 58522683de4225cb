-- ===== src/Runtime/Validate/Join.antt =====
-- A parallel join of a definition that passes lets the flow go on when its branches are in.
use fusions.Shared.{ℕ, ◌≤◌, String, some, List, true, false, ◌≡◌, ok, arith}
use fusions.Shared.Int.{pos}
use fusions.Core.Config.{NodeConfig}
use fusions.Core.JoinStrategy.{JoinStrategy, wait_all, wait_any, n_of_m, is_satisfied}
use fusions.Core.Node.{WorkflowNode}
use fusions.Core.SignalType
use fusions.Core.Definition.{WorkflowTransition}
use fusions.Runtime.Guard.{Cel}
use fusions.Runtime.Resolve.{find_node}
use fusions.Runtime.Check.Base.{has_edge}
use fusions.Runtime.Check.Parallel.{check_join, incoming_count, is_for_each_join}
use fusions.Runtime.Validate.{check_config, validate_definition}
use fusions.Runtime.Validate.Sound.{node_passed}

module _ (nodes : List WorkflowNode) (transitions : List WorkflowTransition) (id : String) where
  check_join-is_satisfied :
      (s : JoinStrategy) (arrived : ℕ)
      → check_join nodes transitions id s ≡ ok tt
      → is_for_each_join nodes transitions id ≡ false
      → incoming_count nodes transitions id ≤ arrived
      → is_satisfied s (pos arrived) (pos (incoming_count nodes transitions id)) ≡ true
  unfolding check_join is_satisfied
  check_join-is_satisfied wait_all arrived h f le = ground arith
  check_join-is_satisfied wait_any arrived h f le = ground arith
  check_join-is_satisfied (n_of_m n) arrived h f le = ground arith

  check_join-leaves :
      (s : JoinStrategy)
      → check_join nodes transitions id s ≡ ok tt
      → has_edge transitions id SignalType.approved ≡ true
  unfolding check_join
  check_join-leaves s h = ground arith

module _ {J : Type 0} (cel : Cel J) (nodes : List WorkflowNode)
    (transitions : List WorkflowTransition) where
  join_passed :
      (id : String) (n : WorkflowNode) (s : JoinStrategy)
      → validate_definition cel nodes transitions ≡ ok tt
      → find_node nodes id ≡ some n
      → n.config ≡ NodeConfig.parallel_join s
      → check_join nodes transitions n.id s ≡ ok tt
  unfolding check_config
  join_passed id n s h f c = let p = node_passed cel nodes transitions id n h f in rw c at p

  -- In a definition that passes, a parallel join that no for-each node feeds is satisfied once as many branches have
  -- arrived as edges lead to it for the signals that complete a branch, and an edge leads on from it.
  pub join_completes :
      (id : String) (n : WorkflowNode) (s : JoinStrategy) (arrived : ℕ)
      → validate_definition cel nodes transitions ≡ ok tt
      → find_node nodes id ≡ some n
      → n.config ≡ NodeConfig.parallel_join s
      → is_for_each_join nodes transitions n.id ≡ false
      → incoming_count nodes transitions n.id ≤ arrived
      → (is_satisfied s (pos arrived) (pos (incoming_count nodes transitions n.id)) ≡ true)
        × (has_edge transitions n.id SignalType.approved ≡ true)
  join_completes id n s arrived h f c fed le =
      let p = join_passed id n s h f c in
      (
        check_join-is_satisfied nodes transitions n.id s arrived p fed le,
        check_join-leaves nodes transitions n.id s p,
      )

-- ===== src/Runtime/Resolve/Routes.antt =====
-- Routing as a relation, with no fuel and no set of visited nodes.
pub mod Sound
pub mod Complete
use fusions.Shared.{
  ℕ, zero, suc, String, Option, some, none, List, [], ◌∷◌, ◌++◌, Bool, true, false, ok, ◌≡◌,
}
use fusions.Core.SignalType
use fusions.Core.Config.{NodeConfig, ConditionBranch}
use fusions.Core.Node.{WorkflowNode}
use fusions.Core.Definition.{WorkflowTransition}
use fusions.Core.Outcome.{AdvanceOutcome}
use fusions.Runtime.Guard.{Cel, eval_guard}
use fusions.Runtime.Resolve.{ResolveTrace, no_trace, find_node, find_next_transition, enter}

-- Conditions and merges pass the flow on; every other node settles it.
abbrev pub is_router : NodeConfig → Bool
is_router (NodeConfig.condition _ _) = true
is_router NodeConfig.merge = true
is_router _ = false

module _ {J : Type 0} (cel : Cel J) (context : Option J) where
  -- `Chosen branches default target`: the guards before the one that decides are false.
  pub data Chosen : List ConditionBranch → String → String → Type 0 where
    by_default : {d target : String} → d ≡ target → Chosen [] d target
    taken :
        {b : ConditionBranch} {bs : List ConditionBranch} {d target : String}
        → eval_guard cel b.guard_expression context ≡ ok true
        → b.target ≡ target
        → Chosen (b ∷ bs) d target
    skipped :
        {b : ConditionBranch} {bs : List ConditionBranch} {d target : String}
        → eval_guard cel b.guard_expression context ≡ ok false
        → Chosen bs d target
        → Chosen (b ∷ bs) d target

module _ {J : Type 0} (cel : Cel J) (transitions : List WorkflowTransition)
    (context : Option J) where
  -- `Hop id config ms next`: a router leads to the node `next`, by way of the merges `ms`.
  pub data Hop (id : String) : NodeConfig → List String → String → Type 0 where
    through_merge :
        {t : WorkflowTransition} {next : String}
        → find_next_transition transitions id SignalType.approved ≡ some t
        → t.to ≡ next
        → Hop id NodeConfig.merge (id ∷ []) next
    through_condition :
        {bs : List ConditionBranch} {d next : String}
        → Chosen cel context bs d next
        → Hop id (NodeConfig.condition d bs) [] next

module _ {J : Type 0} (cel : Cel J) (nodes : List WorkflowNode)
    (transitions : List WorkflowTransition) (context : Option J) where
  -- `Routes h id ms o`: from `id` the flow passes `h` routers, of which `ms` are merges, and settles
  -- with the outcome `o`.
  pub data Routes : ℕ → String → List String → AdvanceOutcome J → Type 0 where
    settle :
        {id : String} {n : WorkflowNode} {o : AdvanceOutcome J}
        → find_node nodes id ≡ some n
        → is_router n.config ≡ false
        → (enter cel nodes transitions context id n.config no_trace
            (λ trace _. (AdvanceOutcome.error, trace))).0
          ≡ o
        → Routes zero id [] o
    pass :
        {h : ℕ} {id next : String} {n : WorkflowNode} {c : NodeConfig} {ms rest : List String}
        {o : AdvanceOutcome J}
        → find_node nodes id ≡ some n
        → n.config ≡ c
        → Hop cel transitions context id c ms next
        → Routes h next rest o
        → Routes (suc h) id (ms ++ rest) o

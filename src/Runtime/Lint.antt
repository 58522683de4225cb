-- ===== src/Runtime/Lint.antt =====
-- `lint_definition` of crates/hetuflow-runtime/src/lib.rs: the faults of a whole graph. A finding has no text.
pub mod Fuel
pub mod Reach
pub mod Closed
pub mod Joins
pub mod Gaps
use fusions.Shared.{
  ℕ, zero, suc, ◌+◌, String, Option, none, some, List, [], ◌∷◌, ◌++◌, Bool, true, false, not, ◌&&◌,
  ◌||◌, ◌==◌, map, filter, contains, if◌then◌else◌, length,
}
use fusions.Core.NodeKind.{NodeKind, is_start, is_end, is_parallel_split, is_parallel_join}
use fusions.Core.Config.{NodeConfig, ConditionBranch}
use fusions.Core.Node.{WorkflowNode, kind, when_nonempty, parallel_split_of}
use fusions.Core.Definition.{WorkflowTransition}
use fusions.Runtime.Resolve.{find_node}
use fusions.Runtime.Check.Parallel.{is_join}
use fusions.Runtime.Validate.{node_ids}

pub record LintFinding : Type 0 where
  pub severity : String
  pub code : String
  pub node_id : Option String

abbrev pub error : String → String → LintFinding
error code id = record { severity = "error"; code = code; node_id = some id }

abbrev pub warning : String → String → LintFinding
warning code id = record { severity = "warning"; code = code; node_id = some id }

abbrev timeout_of : Option String → List String
timeout_of none = []
timeout_of (some target) = target ∷ []

-- The targets in the node's own configuration.
unfoldable pub config_targets : NodeConfig → List String
config_targets (NodeConfig.parallel_split branches) = branches
config_targets (NodeConfig.condition default branches) = default ∷ map (λ b. b.target) branches
config_targets (NodeConfig.event_wait _ _ target _ _) = timeout_of (when_nonempty target)
config_targets _ = []

unfoldable pub static_out_targets : WorkflowNode → List WorkflowTransition → List String
static_out_targets node transitions =
    map (λ t. t.to) (filter (λ t. t.from == node.id) transitions) ++ config_targets node.config

-- What a loop over a list pushes.
unfoldable pub gather {ℓ κ} : {A : Type ℓ} {B : Type κ} → (A → List B) → List A → List B
gather f [] = []
gather f (x ∷ xs) = f x ++ gather f xs

abbrev pub targets_of : List WorkflowTransition → Option WorkflowNode → List String
targets_of transitions none = []
targets_of transitions (some node) = static_out_targets node transitions

abbrev pub finished : Option (List String) → List String
finished none = []
finished (some visited) = visited

abbrev pub found : Option Bool → Bool
found none = false
found (some b) = b

module _ (nodes : List WorkflowNode) (transitions : List WorkflowTransition) where
  -- Of the node with this id; no node has no targets.
  abbrev pub targets_at : String → List String
  targets_at id = targets_of transitions (find_node nodes id)

  -- The loop over the targets; the head of the stack is its top.
  unfoldable pub push_targets : List String → List String → List String → List String
  push_targets visited [] stack = stack
  push_targets visited (t ∷ ts) stack =
      push_targets visited ts
        (if contains (node_ids nodes) t && not (contains visited t) then t ∷ stack else stack)

  -- One round of the loop at the popped `cur`: the visited ids and the stack after it.
  unfoldable pub advance_search : List String → String → List String → List String × List String
  advance_search visited cur stack =
      if contains visited cur
      then (visited, stack)
      else (cur ∷ visited, push_targets (cur ∷ visited) (targets_at cur) stack)

  -- `while let Some(cur) = stack.pop()`; `none` is fuel that ran out.
  unfoldable pub explore : ℕ → List String → List String → Option (List String)
  explore fuel visited [] = some visited
  explore zero visited (cur ∷ stack) = none
  explore (suc fuel) visited (cur ∷ stack) =
      let next = advance_search visited cur stack in explore fuel next.0 next.1

  -- One for the start and one for each edge, which is pushed once at most.
  unfoldable pub search_fuel : ℕ
  search_fuel = suc (length (gather (λ n. static_out_targets n transitions) nodes))

  unfoldable pub reachable : String → List String
  reachable start = finished (explore search_fuel [] (start ∷ []))

  abbrev dangling_ends : WorkflowTransition → List LintFinding
  dangling_ends t =
      (if contains (node_ids nodes) t.from then [] else error "dangling_edge" t.from ∷ [])
      ++ (if contains (node_ids nodes) t.to then [] else error "dangling_edge" t.to ∷ [])

  unfoldable pub dangling_edges : List LintFinding
  dangling_edges = gather dangling_ends transitions

  abbrev pub unreached : List String → WorkflowNode → List LintFinding
  unreached ids node =
      if not (is_start (kind node)) && not (contains ids node.id)
      then error "unreachable_node" node.id ∷ []
      else []

  -- Only with exactly one start.
  abbrev unreached_from : List WorkflowNode → List LintFinding
  unreached_from (start ∷ []) = gather (unreached (reachable start.id)) nodes
  unreached_from _ = []

  unfoldable pub unreachable_nodes : List LintFinding
  unreachable_nodes = unreached_from (filter (λ n. is_start (kind n)) nodes)

  abbrev pub stuck : NodeKind → List String → String → List LintFinding
  stuck kind [] id = if is_end kind || is_start kind then [] else error "deadlock_node" id ∷ []
  stuck kind (t ∷ ts) id = []

  abbrev pub stuck_node : WorkflowNode → List LintFinding
  stuck_node node = stuck (kind node) (static_out_targets node transitions) node.id

  unfoldable pub deadlock_nodes : List LintFinding
  deadlock_nodes = gather stuck_node nodes

  -- `branch_reaches_join`: a join that is popped for the first time ends the search.
  unfoldable pub search_join : ℕ → List String → List String → Option Bool
  search_join fuel visited [] = some false
  search_join zero visited (cur ∷ stack) = none
  search_join (suc fuel) visited (cur ∷ stack) =
      let next = advance_search visited cur stack in
      let rest = search_join fuel next.0 next.1 in
      if not (contains visited cur) && is_join (find_node nodes cur) then some true else rest

  unfoldable pub branch_reaches_join : String → Bool
  branch_reaches_join start = found (search_join search_fuel [] (start ∷ []))

  abbrev open_branch : String → List LintFinding
  open_branch branch =
      if contains (node_ids nodes) branch && not (branch_reaches_join branch)
      then warning "parallel_unclosed" branch ∷ []
      else []

  abbrev open_branches : Option (List String) → List LintFinding
  open_branches none = []
  open_branches (some branches) = gather open_branch branches

  unfoldable pub unclosed_branches : List LintFinding
  unclosed_branches = gather (λ n. open_branches (parallel_split_of n.config)) nodes

  unfoldable pub lint_definition : List LintFinding
  lint_definition = dangling_edges ++ (unreachable_nodes ++ (deadlock_nodes ++ unclosed_branches))

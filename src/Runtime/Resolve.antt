-- ===== src/Runtime/Resolve.antt =====
-- `resolve_target` of crates/hetuflow-runtime/src/lib.rs: from a node the flow goes through conditions and
-- merges to a node where it settles.
pub mod Routes
use fusions.Shared.{
  ℕ, zero, suc, ◌+◌, String, Option, none, some, List, [], ◌∷◌, ◌++◌, Bool, true, false, ◌&&◌, ◌==◌,
  ltb, if◌then◌else◌, find, contains, length, ok, err,
}
use fusions.Shared.Int.{ℤ, pos_part, to_i32}
use fusions.Core.NodeKind
use fusions.Core.NodeKind.{NodeKind}
use fusions.Core.ActivityType
use fusions.Core.ActivityType.{ActivityType}
use fusions.Core.WorkflowResult
use fusions.Core.WorkflowResult.{WorkflowResult}
use fusions.Core.SignalType
use fusions.Core.SignalType.{SignalType}
use fusions.Core.Config.{NodeConfig, ConditionBranch}
use fusions.Core.Node.{WorkflowNode, kind, assignee_role, when_positive}
use fusions.Core.Definition.{WorkflowTransition}
use fusions.Core.Outcome.{AdvanceOutcome, advance, advance_multi, complete, error, ParallelTarget}
use fusions.Runtime.Guard.{Cel, eval_guard, eval_array}

pub record ForEachFanOut : Type 0 where
  pub for_each_node : String
  pub join_target : String

pub record ResolveTrace : Type 0 where
  pub merges_passed : List String
  pub loops_passed : List String
  pub for_each_fan_out : Option ForEachFanOut

abbrev pub no_trace : ResolveTrace
no_trace = record { merges_passed = []; loops_passed = []; for_each_fan_out = none }

-- `nodes.iter().find(|n| n.id == id)`
unfoldable pub find_node : List WorkflowNode → String → Option WorkflowNode
find_node nodes id = find (λ n. n.id == id) nodes

unfoldable pub find_next_transition :
    List WorkflowTransition → String → SignalType → Option WorkflowTransition
find_next_transition transitions from signal =
    find (λ t. t.from == from && SignalType.eq t.on_signal signal) transitions

-- `depth > MAX_RESOLVE_DEPTH` is an error, so nine nested calls look at a node.
abbrev pub resolve_fuel : ℕ
resolve_fuel = 9

-- The kinds that a branch of a split, and a branch template of a for-each, may have.
unfoldable pub split_branch_type : NodeKind → Option ActivityType
split_branch_type NodeKind.approval = some ActivityType.approval
split_branch_type NodeKind.assignment = some ActivityType.assignment
split_branch_type NodeKind.event_wait = some ActivityType.event_wait
split_branch_type NodeKind.notification = some ActivityType.notification
split_branch_type _ = none

unfoldable pub template_type : NodeKind → Option ActivityType
template_type NodeKind.approval = some ActivityType.approval
template_type NodeKind.assignment = some ActivityType.assignment
template_type NodeKind.event_wait = some ActivityType.event_wait
template_type _ = none

-- `node.end_result_code().and_then(WorkflowResult::from_db).unwrap_or(WorkflowResult::Approved)`
unfoldable pub end_result : Option String → WorkflowResult
end_result none = WorkflowResult.approved
end_result (some code) = elim (WorkflowResult.from_db code) [
  | none ↦ WorkflowResult.approved
  | some r ↦ r
]

module _ {J : Type 0} (nodes : List WorkflowNode) where
  abbrev pub branch_target : WorkflowNode → String → ActivityType → ParallelTarget J
  branch_target node id type = record {
    node_id = id;
    activity_type = type;
    assignee_role = assignee_role node;
    item_index = none;
    item_payload = none;
  }

  abbrev add_branch :
      String
      → Option WorkflowNode
      → Option (List (ParallelTarget J))
      → Option (List (ParallelTarget J))
  add_branch id none rest = none
  add_branch id (some node) rest = elim (split_branch_type (kind node)) [
    | none ↦ none
    | some type ↦ elim rest [
      | none ↦ none
      | some targets ↦ some (branch_target node id type ∷ targets)
    ]
  ]

  -- The loop over `branch_targets`; `none` is `return AdvanceOutcome::Error`.
  unfoldable pub split_targets : List String → Option (List (ParallelTarget J))
  split_targets [] = some []
  split_targets (id ∷ ids) = let rest = split_targets ids in add_branch id (find_node nodes id) rest

-- The loop of `enumerate` over the items, from index `i`.
unfoldable pub item_targets :
    {J : Type 0} → String → ActivityType → Option String → ℕ → List J → List (ParallelTarget J)
item_targets template type role i [] = []
item_targets template type role i (item ∷ items) =
    record {
      node_id = template;
      activity_type = type;
      assignee_role = role;
      item_index = some (to_i32 i);
      item_payload = some item;
    }
    ∷ item_targets template type role (i + 1) items

-- `max_fanout` set and passed
unfoldable pub over_cap : Option ℤ → ℕ → Bool
over_cap none n = false
over_cap (some limit) n = ltb (pos_part limit) n

abbrev pub Resolved : Type 0 → Type 0
Resolved J = AdvanceOutcome J × ResolveTrace

abbrev fan_out_by : {J : Type 0} → String → List J → Option WorkflowNode → AdvanceOutcome J
fan_out_by template items none = error
fan_out_by template items (some node) = elim (template_type (kind node)) [
  | none ↦ error
  | some type ↦ advance_multi (item_targets template type (assignee_role node) 0 items)
]

unfoldable pub fan_out :
    {J : Type 0}
    → Cel J
    → List WorkflowNode
    → Option J
    → String
    → String
    → Option ℤ
    → AdvanceOutcome J
fan_out cel nodes context items_path template limit = elim (eval_array cel items_path context) [
  | err e ↦ error
  | ok items ↦
      if over_cap limit (length items)
      then error
      else fan_out_by template items (find_node nodes template)
]

-- The loop over a condition's branches: the target of the first whose guard is true, or the default.
unfoldable pub choose :
    {J : Type 0} → Cel J → Option J → List ConditionBranch → String → Option String
choose cel context [] default = some default
choose cel context (b ∷ bs) default =
    let rest = choose cel context bs default in
    elim (eval_guard cel b.guard_expression context) [
      | ok true ↦ some b.target
      | ok false ↦ rest
      | err e ↦ none
    ]

abbrev pub follow_to :
    {J : Type 0} → Option String → ResolveTrace → (ResolveTrace → String → Resolved J) → Resolved J
follow_to none trace next = (error, trace)
follow_to (some id) trace next = next trace id

abbrev multi : {J : Type 0} → Option (List (ParallelTarget J)) → AdvanceOutcome J
multi none = error
multi (some targets) = advance_multi targets

abbrev pub to_of : Option WorkflowTransition → Option String
to_of none = none
to_of (some t) = some t.to

module _ {J : Type 0} (cel : Cel J) (nodes : List WorkflowNode)
    (transitions : List WorkflowTransition) (context : Option J) where
  -- The `match node.kind()`, with `next` for the recursive call. A kind and the accessor that reads its
  -- configuration are matched at once.
  unfoldable pub enter :
      String → NodeConfig → ResolveTrace → (ResolveTrace → String → Resolved J) → Resolved J
  enter id (NodeConfig.approval role _ _ _) trace next = (advance id role, trace)
  enter id (NodeConfig.event_wait _ _ _ _ _) trace next = (advance id none, trace)
  enter id (NodeConfig.notification _) trace next = (advance id none, trace)
  enter id (NodeConfig.assignment _) trace next = (advance id none, trace)
  enter id (NodeConfig.sub_workflow _ _ _) trace next = (advance id none, trace)
  enter id (NodeConfig.parallel_join _) trace next = (advance id none, trace)
  enter id NodeConfig.merge trace next =
      follow_to (to_of (find_next_transition transitions id SignalType.approved))
        (record trace { merges_passed = trace.merges_passed ++ id ∷ [] }) next
  enter id (NodeConfig.parallel_split targets) trace next =
      (multi (split_targets nodes targets), trace)
  enter id (NodeConfig.for_each items template join limit) trace next = (
    fan_out cel nodes context items template (when_positive limit),
    record trace { for_each_fan_out = some (record { for_each_node = id; join_target = join }) },
  )
  enter id (NodeConfig.end code) trace next = (complete (end_result code), trace)
  enter id (NodeConfig.condition default branches) trace next =
      follow_to (choose cel context branches default) trace next
  enter id NodeConfig.start trace next = (error, trace)
  enter id NodeConfig.parallel trace next = (error, trace)
  enter id NodeConfig.timer trace next = (error, trace)

  abbrev enter_found :
      String
      → Option WorkflowNode
      → ResolveTrace
      → (ResolveTrace → String → Resolved J)
      → Resolved J
  enter_found id none trace next = (error, trace)
  enter_found id (some node) trace next = enter id node.config trace next

  -- `visited` holds the nodes on the way, so a cycle ends in an error.
  unfoldable pub resolve_target : ℕ → List String → ResolveTrace → String → Resolved J
  resolve_target zero visited trace id = (error, trace)
  resolve_target (suc fuel) visited trace id =
      if contains visited id
      then (error, trace)
      else enter_found id (find_node nodes id) trace (resolve_target fuel (id ∷ visited))

-- ===== src/Service/Join.antt =====
-- `branch_reached_join` and `try_satisfy_join` of crates/hetuflow-service/src/service.rs. `next` stands for
-- `apply_outcome`, which they call again.
use fusions.Shared.{
  ℕ, String, Option, none, some, List, [], ◌∷◌, ◌&&◌, ◌==◌, ok, err, filter, map, length, ltb,
  if◌then◌else◌,
}
use fusions.Shared.Int.{ℤ, pos}
use fusions.Core.EventType
use fusions.Core.SignalType
use fusions.Core.JoinStrategy.{
  JoinStrategy, wait_all, is_satisfied, skips_remaining_on_satisfaction,
}
use fusions.Core.Node.{WorkflowNode, join_strategy_of, for_each_of}
use fusions.Core.Definition.{WorkflowTransition, DefinitionSnapshot, ActivityInstance}
use fusions.Core.Error.{FlowResult, invalid_state, Message}
use fusions.Core.Outcome.{AdvanceOutcome}
use fusions.Runtime.Guard.{Cel}
use fusions.Runtime.Resolve.{ResolveTrace}
use fusions.Runtime.Advance.{decide_advance}
use fusions.Runtime.Check.Base.{is_join_incoming_signal}
use fusions.Runtime.Replay.Activities.{or_else}
use fusions.Store.External.{External}
use fusions.Store.Scope.{parse_uuid}
use fusions.Store.Events.{for_each_branch_count}
use fusions.Store.Instances.{clear_current_activity}
use fusions.Store.Activities.{count_completed_branches, skip_other_active_activities}
use fusions.Service.Config.{InstanceCtx}
use fusions.Service.Log.{append}
use fusions.Service.Run.{Action, ◌>>=◌, ◌>>◌, read, write, write_only, pure, attempt}

-- The expected number of branches, and the nodes whose activities count.
abbrev pub Expected : Type 0
Expected = ℤ × List String

abbrev template_to :
    String → Option (String × String × String × Option ℤ) → Option String → Option String
template_to join none rest = rest
template_to join (some (items, template, target, limit)) rest =
    if target == join then some template else rest

-- `find_map` over the nodes.
unfoldable pub template_of : String → List WorkflowNode → Option String
template_of join [] = none
template_of join (n ∷ ns) = template_to join (for_each_of n.config) (template_of join ns)

unfoldable pub incoming_branches : String → List WorkflowTransition → List String
incoming_branches join transitions =
    map (λ t. t.from)
      (filter (λ t. t.to == join && is_join_incoming_signal t.on_signal) transitions)

unfoldable pub expected_at : DefinitionSnapshot → String → Option ℤ → FlowResult Expected
expected_at snapshot join none =
    let ids = incoming_branches join snapshot.transitions in ok (pos (length ids), ids)
expected_at snapshot join (some n) = elim (template_of join snapshot.nodes) [
  | none ↦ err (invalid_state (Message.fan_out_without_source join))
  | some template ↦ ok (n, template ∷ [])
]

module _ {Time J : Type 0} (x : External Time J) (cel : Cel J) where
  abbrev pub Next : Type 0
  Next =
      InstanceCtx J
      → AdvanceOutcome J
      → ResolveTrace
      → ActivityInstance Time
      → ℤ
      → Action Time J (Unit {0})

  abbrev pub log_skipped : InstanceCtx J → WorkflowNode → ℕ → Action Time J (Unit {0})
  log_skipped ctx join count =
      if ltb 0 count
      then append ctx EventType.activity_skipped
          (x.object_value
            (("join_node", x.string_value join.id) ∷ ("count", x.number_value (pos count)) ∷ []))
          none
      else pure tt

  abbrev pub skip_others : InstanceCtx J → WorkflowNode → Option String → Action Time J (Unit {0})
  skip_others ctx join exclude = do
    count ← write (skip_other_active_activities ctx.instance_id (or_else exclude x.nil_uuid))
    log_skipped ctx join count

  unfoldable pub satisfied :
      Next
      → InstanceCtx J
      → WorkflowNode
      → JoinStrategy
      → ActivityInstance Time
      → ℤ
      → Option String
      → ℤ
      → ℤ
      → Action Time J (Unit {0})
  satisfied next ctx join strategy source round exclude arrived expected = do
    append ctx EventType.parallel_join_satisfied
        (x.object_value (
          ("join_node", x.string_value join.id)
          ∷ ("arrived", x.number_value arrived)
          ∷ ("expected", x.number_value expected)
          ∷ ("round", x.number_value round)
          ∷ []))
        none
    (if skips_remaining_on_satisfaction strategy then skip_others ctx join exclude else pure tt)
    let decision =
        decide_advance cel ctx.snapshot.nodes ctx.snapshot.transitions ctx.context join.id
          SignalType.approved
    next ctx decision.0 decision.1 source round

  unfoldable pub try_satisfy_join :
      Next
      → InstanceCtx J
      → WorkflowNode
      → ActivityInstance Time
      → ℤ
      → Option String
      → Action Time J (Unit {0})
  try_satisfy_join next ctx join source round exclude = do
    let strategy = or_else (join_strategy_of join.config) wait_all
    dynamic ← read (for_each_branch_count x ctx.instance_id join.id round)
    wanted ← attempt (expected_at ctx.snapshot join.id dynamic)
    arrived ← read (count_completed_branches ctx.instance_id wanted.1 round)
    (if is_satisfied strategy arrived wanted.0
        then satisfied next ctx join strategy source round exclude arrived wanted.0
        else write_only (clear_current_activity ctx.instance_id))

  unfoldable pub branch_reached_join :
      Next → InstanceCtx J → WorkflowNode → ActivityInstance Time → ℤ → Action Time J (Unit {0})
  branch_reached_join next ctx join source round = do
    append ctx EventType.branch_reached_join
        (x.object_value (
          ("branch_node", x.string_value source.activity_definition_id)
          ∷ ("join_node", x.string_value join.id)
          ∷ ("round", x.number_value round)
          ∷ []))
        none
    exclude ← attempt (parse_uuid x source.id)
    try_satisfy_join next ctx join source round (some exclude)

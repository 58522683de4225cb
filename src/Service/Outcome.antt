-- ===== src/Service/Outcome.antt =====
-- `apply_outcome` and `fan_out` of crates/hetuflow-service/src/service.rs: the rows and the facts of a
-- decision. A join that is satisfied applies a further outcome, so the methods take fuel.
use Prim.Native.String.{◌++◌ as append_text}
use fusions.Shared.{
  ℕ, zero, suc, String, Option, none, some, List, [], ◌∷◌, Bool, true, false, ok, err, map, length,
  if◌then◌else◌,
}
use fusions.Shared.Int.{ℤ, pos, ◌+ℤ◌}
use fusions.Core.EventType
use fusions.Core.NodeKind.{NodeKind}
use fusions.Core.Node.{WorkflowNode, kind}
use fusions.Core.Definition.{ActivityInstance}
use fusions.Core.Error.{FlowResult, conflict, Message}
use fusions.Core.Outcome.{
  AdvanceOutcome, advance, advance_multi, complete, rework, error, ParallelTarget,
}
use fusions.Runtime.Guard.{Cel}
use fusions.Runtime.Resolve.{ResolveTrace, ForEachFanOut}
use fusions.Store.External.{External}
use fusions.Store.Scope.{parse_uuid}
use fusions.Store.Instances.{
  clear_current_activity, update_current_activity, enter_returned_waiting,
}
use fusions.Store.Activities.{max_round}
use fusions.Service.Config.{WorkflowService, InstanceCtx, node_of, check_round}
use fusions.Service.Log.{append, text_or_null}
use fusions.Service.Schedule.{schedule_activity}
use fusions.Service.Finish.{complete_instance, fail_instance}
use fusions.Service.Join.{Next, try_satisfy_join, branch_reached_join}
use fusions.Service.Run.{
  Action, ◌>>=◌, ◌>>◌, read, write, write_only, pure, fail, attempt, must, exhausted,
}

abbrev pub is_join : NodeKind → Bool
is_join NodeKind.parallel_join = true
is_join _ = false

abbrev pub via_of : Option ForEachFanOut → String
via_of none = "parallel_split"
via_of (some fan) = "for_each"

module _ {Time J : Type 0} (x : External Time J) (cel : Cel J) (service : WorkflowService J) where
  abbrev pub log_merge :
      InstanceCtx J → ActivityInstance Time → ℤ → String → Action Time J (Unit {0})
  log_merge ctx source round merge =
      append ctx EventType.merge_passed
        (x.object_value (
          ("from", x.string_value source.activity_definition_id)
          ∷ ("merge_node", x.string_value merge)
          ∷ ("round", x.number_value round)
          ∷ []))
        none

  unfoldable pub log_merges :
      InstanceCtx J → ActivityInstance Time → ℤ → List String → Action Time J (Unit {0})
  log_merges ctx source round [] = pure tt
  log_merges ctx source round (m ∷ ms) = do
    log_merge ctx source round m
    log_merges ctx source round ms

  unfoldable pub log_fan_out :
      InstanceCtx J
      → Option ForEachFanOut
      → List (ParallelTarget J)
      → ActivityInstance Time
      → ℤ
      → Action Time J (Unit {0})
  log_fan_out ctx (some fan) targets source round =
      append ctx EventType.for_each_fanned_out
        (x.object_value (
          ("for_each_node", x.string_value fan.for_each_node)
          ∷ ("join_node", x.string_value fan.join_target)
          ∷ ("branch_count", x.number_value (pos (length targets)))
          ∷ ("round", x.number_value round)
          ∷ []))
        none
  log_fan_out ctx none targets source round =
      append ctx EventType.parallel_split_scheduled
        (x.object_value (
          ("from", x.string_value source.activity_definition_id)
          ∷ ("branch_targets", x.strings_value (map (λ t. t.node_id) targets))
          ∷ ("round", x.number_value round)
          ∷ []))
        none

  unfoldable pub schedule_branches :
      InstanceCtx J → String → ℤ → List (ParallelTarget J) → Action Time J (Unit {0})
  schedule_branches ctx via round [] = pure tt
  schedule_branches ctx via round (target ∷ targets) = do
    node ← attempt (node_of ctx target.node_id)
    activity ← schedule_activity x service.config ctx node target.assignee_role round (
        some (record {
          via = via;
          item_index = target.item_index;
          item_payload = target.item_payload;
        }))
    schedule_branches ctx via round targets

  -- An empty list of items satisfies the join at once.
  abbrev pub close_empty :
      Next x cel
      → InstanceCtx J
      → List (ParallelTarget J)
      → Option ForEachFanOut
      → ActivityInstance Time
      → ℤ
      → Action Time J (Unit {0})
  close_empty next ctx [] (some fan) source round = do
    join ← attempt (node_of ctx fan.join_target)
    try_satisfy_join x cel next ctx join source round none
  close_empty next ctx [] none source round = pure tt
  close_empty next ctx (t ∷ ts) fan source round = pure tt

  unfoldable pub fan_out :
      Next x cel
      → InstanceCtx J
      → List (ParallelTarget J)
      → ResolveTrace
      → ActivityInstance Time
      → ℤ
      → Action Time J (Unit {0})
  fan_out next ctx targets trace source round = do
    write_only (clear_current_activity ctx.instance_id)
    log_fan_out ctx trace.for_each_fan_out targets source round
    schedule_branches ctx (via_of trace.for_each_fan_out) round targets
    close_empty next ctx targets trace.for_each_fan_out source round

  unfoldable pub advance_to :
      InstanceCtx J → WorkflowNode → Option String → ℤ → Action Time J (Unit {0})
  advance_to ctx node role round = do
    activity ← schedule_activity x service.config ctx node role round none
    activity_id ← attempt (parse_uuid x activity.id)
    write_only (update_current_activity ctx.instance_id activity_id)

  unfoldable pub hand_back_to :
      InstanceCtx J → String → Option String → ActivityInstance Time → ℤ → Action Time J (Unit {0})
  hand_back_to ctx target role source round = do
    node ← attempt (node_of ctx target)
    activity ← schedule_activity x service.config ctx node role round none
    activity_id ← attempt (parse_uuid x activity.id)
    waiting ← write (enter_returned_waiting ctx.instance_id activity_id)
    must waiting (conflict Message.left_active)
    append ctx EventType.returned_to_rework
        (x.object_value (
          ("from_node", x.string_value source.activity_definition_id)
          ∷ ("rework_target", x.string_value node.id)
          ∷ ("round", x.number_value round)
          ∷ ("activity_id", x.string_value activity.id)
          ∷ ("assignee_role", text_or_null x role)
          ∷ []))
        none

  -- Past the limit on rounds the instance is failed, and the error is returned nevertheless.
  abbrev pub rework_within :
      FlowResult (Unit {0})
      → InstanceCtx J
      → String
      → Option String
      → ActivityInstance Time
      → ℤ
      → Action Time J (Unit {0})
  rework_within (ok _) ctx target role source round = hand_back_to ctx target role source round
  rework_within (err e) ctx target role source round = do
    fail_instance x ctx (x.error_text e)
    fail e

  -- `format!("no legal transition from '{}' (round {round})", …)`
  abbrev no_transition : ActivityInstance Time → ℤ → String
  no_transition source round = append_text "no legal transition from '" (
      append_text source.activity_definition_id
        (append_text "' (round " (append_text (x.json.display round) ")")))

  -- The `match outcome`.
  unfoldable pub apply_decision :
      Next x cel
      → InstanceCtx J
      → AdvanceOutcome J
      → ResolveTrace
      → ActivityInstance Time
      → ℤ
      → Action Time J (Unit {0})
  apply_decision next ctx (advance target role) trace source round = do
    node ← attempt (node_of ctx target)
    (if is_join (kind node)
        then branch_reached_join x cel next ctx node source round
        else advance_to ctx node role round)
  apply_decision next ctx (advance_multi targets) trace source round =
      fan_out next ctx targets trace source round
  apply_decision next ctx (complete result) trace source round =
      complete_instance x service.registry ctx result
  apply_decision next ctx (rework target role) trace source round = do
    last ← read (max_round ctx.instance_id)
    rework_within (check_round service.config ctx.snapshot (last +ℤ pos 1)) ctx target role source
        (last +ℤ pos 1)
  apply_decision next ctx error trace source round =
      fail_instance x ctx (no_transition source round)

  unfoldable pub apply_outcome :
      ℕ
      → InstanceCtx J
      → AdvanceOutcome J
      → ResolveTrace
      → ActivityInstance Time
      → ℤ
      → Action Time J (Unit {0})
  apply_outcome zero ctx outcome trace source round s = exhausted
  apply_outcome (suc fuel) ctx outcome trace source round s =
      (do
        log_merges ctx source round trace.merges_passed
        apply_decision (apply_outcome fuel) ctx outcome trace source round)
        s

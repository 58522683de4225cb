-- ===== src/Tests/Engine.antt =====
-- The theorems of Runtime at concrete definitions.
use fusions.Shared.{
  ℕ, ◌≤◌, refl, ◌≡◌, ◌↔◌, ok, [], ◌∷◌, true, some, none, find, contains, filter, for_each, any,
}
use fusions.Core.SignalType
use fusions.Core.Config.{NodeConfig}
use fusions.Core.Node.{kind_of, for_each_of, parallel_split_of, WorkflowNode}
use fusions.Core.Definition.{WorkflowTransition}
use fusions.Core.Outcome.{advance, rework}
use fusions.Shared.{false, arith}
use fusions.Shared.Int.{pos}
use fusions.Core.JoinStrategy.{wait_all, is_satisfied}
use fusions.Runtime.Validate.Join.{join_completes}
use fusions.Runtime.Guard.{eval_guard, validate_expression}
use fusions.Runtime.Resolve.{
  enter, choose, find_node, find_next_transition, resolve_target, resolve_fuel, no_trace,
}
use fusions.Runtime.Resolve.Routes.{Routes}
use fusions.Runtime.Resolve.Routes.Complete.{resolve_target_iff}
use fusions.Runtime.Advance.{as_rework, decide_advance}
use fusions.Runtime.Advance.Targets.{
  is_forward, StopsAt, decide_advance-StopsAt, decide_advance-rework,
}
use fusions.Runtime.Check.Base.{has_edge, is_join_incoming_signal}
use fusions.Runtime.Check.Activities.{
  check_context_writes, check_approval, check_assignment, check_escalation, check_event_wait,
  check_keys, check_notification, check_sub_workflow,
}
use fusions.Runtime.Check.Routing.{
  approved_from, check_branch, check_condition, check_merge, check_merged_branch,
  check_merged_split,
}
use fusions.Runtime.Check.Parallel.{
  check_split, check_split_branches, check_split_branch, completion_signal, check_for_each,
  check_join, incoming_count, is_for_each_join, is_template_kind,
}
use fusions.Runtime.Validate.{
  check_unique, check_node, check_config, check_transition, check_domain_driven,
  validate_definition, validate_domain_driven,
}
use fusions.Runtime.Validate.Sound.{WellFormed, validate_definition-WellFormed}
use fusions.Runtime.Validate.DomainDriven.{WaitsOrEnds, decide_advance-WaitsOrEnds}
use fusions.Tests.Data.{words, serial_nodes, serial_edges, split_nodes, split_edges}

resolve_target_iff_example :
    ((resolve_target words serial_nodes serial_edges none resolve_fuel [] no_trace "c").0
        ≡ advance "b" (some "lead"))
      × ((resolve_target words serial_nodes serial_edges none resolve_fuel [] no_trace
            "c").1.merges_passed
          ≡ "m" ∷ [])
    ↔ ((h : ℕ) × (h ≤ 8)
        × Routes words serial_nodes serial_edges none h "c" ("m" ∷ []) (advance "b" (some "lead")))
resolve_target_iff_example =
    resolve_target_iff words serial_nodes serial_edges none "c" ("m" ∷ [])
      (advance "b" (some "lead")) (λ e. cc)

approved_to_b :
    (decide_advance words serial_nodes serial_edges none "a" SignalType.approved).0
    ≡ advance "b" (some "lead")
unfolding decide_advance resolve_target find_next_transition find find_node SignalType.eq enter
    choose eval_guard contains as_rework
approved_to_b = refl

decide_advance-StopsAt_example :
    (is_forward SignalType.approved ≡ true)
    × StopsAt words serial_nodes serial_edges none "b" (some "lead")
    × ((t : WorkflowTransition) × (find_next_transition serial_edges "a" SignalType.approved
          ≡ some t)
        × ((resolve_target words serial_nodes serial_edges none resolve_fuel [] no_trace t.to).0
            ≡ advance "b" (some "lead")))
decide_advance-StopsAt_example =
    decide_advance-StopsAt words serial_nodes serial_edges none "a" SignalType.approved "b"
      (some "lead") approved_to_b

returned_to_a :
    (decide_advance words serial_nodes serial_edges none "b" SignalType.returned).0
    ≡ rework "a" (some "lead")
unfolding decide_advance resolve_target find_next_transition find find_node SignalType.eq enter
    choose eval_guard contains as_rework
returned_to_a = refl

decide_advance-rework_example :
    (SignalType.returned ≡ SignalType.returned)
    × StopsAt words serial_nodes serial_edges none "a" (some "lead")
    × ((t : WorkflowTransition) × (find_next_transition serial_edges "b" SignalType.returned
          ≡ some t)
        × ((resolve_target words serial_nodes serial_edges none resolve_fuel [] no_trace t.to).0
            ≡ advance "a" (some "lead")))
decide_advance-rework_example =
    decide_advance-rework words serial_nodes serial_edges none "b" SignalType.returned "a"
      (some "lead") returned_to_a

serial_passes : validate_definition words serial_nodes serial_edges ≡ ok tt
unfolding validate_definition check_unique contains filter kind_of for_each check_node
    check_context_writes check_config check_split check_split_branches check_split_branch find_node
    find completion_signal find_next_transition SignalType.eq check_approval for_each_of
    parallel_split_of check_assignment check_escalation check_event_wait check_keys
    check_notification check_sub_workflow has_edge is_join_incoming_signal check_for_each check_join
    incoming_count is_for_each_join is_template_kind approved_from check_branch check_condition
    check_merge check_merged_branch check_merged_split validate_expression check_transition any
serial_passes = refl

validate_definition-WellFormed_example : WellFormed words serial_nodes serial_edges
validate_definition-WellFormed_example =
    validate_definition-WellFormed words serial_nodes serial_edges serial_passes

split_passes : validate_definition words split_nodes split_edges ≡ ok tt
unfolding validate_definition check_unique contains filter kind_of for_each check_node
    check_context_writes check_config check_split check_split_branches check_split_branch find_node
    find completion_signal find_next_transition SignalType.eq check_approval for_each_of
    parallel_split_of check_assignment check_escalation check_event_wait check_keys
    check_notification check_sub_workflow has_edge is_join_incoming_signal check_for_each check_join
    incoming_count is_for_each_join is_template_kind approved_from check_branch check_condition
    check_merge check_merged_branch check_merged_split validate_expression check_transition any
split_passes = refl

abbrev split : WorkflowNode
split = record {
  id = "p";
  name = "p";
  context_writes = [];
  config = NodeConfig.parallel_split ("x" ∷ "y" ∷ []);
}

serial_domain_driven : validate_domain_driven serial_nodes ≡ ok tt
unfolding validate_domain_driven for_each check_domain_driven kind_of
serial_domain_driven = refl

decide_advance-WaitsOrEnds_example :
    WaitsOrEnds serial_nodes
      (decide_advance words serial_nodes serial_edges none "a" SignalType.approved).0
decide_advance-WaitsOrEnds_example =
    decide_advance-WaitsOrEnds words serial_nodes serial_edges none "a" SignalType.approved
      serial_domain_driven

abbrev join : WorkflowNode
join = record {
  id = "j";
  name = "j";
  context_writes = [];
  config = NodeConfig.parallel_join wait_all;
}

found_join : find_node split_nodes "j" ≡ some join
unfolding find_node find
found_join = refl

not_of_for_each : is_for_each_join split_nodes split_edges "j" ≡ false
unfolding is_for_each_join any for_each_of
not_of_for_each = refl

two_come_in : incoming_count split_nodes split_edges "j" ≤ 2
unfolding incoming_count filter is_join_incoming_signal
two_come_in = omega arith

join_completes_example :
    (is_satisfied wait_all (pos 2) (pos (incoming_count split_nodes split_edges "j")) ≡ true)
    × (has_edge split_edges "j" SignalType.approved ≡ true)
join_completes_example =
    join_completes words split_nodes split_edges "j" join wait_all 2 split_passes found_join refl
      not_of_for_each two_come_in

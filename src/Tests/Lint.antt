-- ===== src/Tests/Lint.antt =====
-- The theorems on the lint at concrete definitions.
use fusions.Shared.{
  refl, ◌≡◌, ◌↔◌, ok, List, [], ◌∷◌, true, some, none, String, find, contains, filter, for_each,
  any,
}
use fusions.Core.SignalType
use fusions.Core.Node.{kind_of, for_each_of, parallel_split_of}
use fusions.Runtime.Guard.{validate_expression}
use fusions.Runtime.Resolve.{find_node, find_next_transition}
use fusions.Runtime.Check.Base.{has_edge, is_join_incoming_signal}
use fusions.Runtime.Check.Activities.{
  check_context_writes, check_approval, check_assignment, check_escalation, check_event_wait,
  check_keys, check_notification, check_sub_workflow,
}
use fusions.Runtime.Check.Routing.{
  approved_from, check_branch, check_condition, check_merge, check_merged_branch,
  check_merged_split,
}
use fusions.Runtime.Check.Parallel.{
  check_split, check_split_branches, check_split_branch, completion_signal, check_for_each,
  check_join, incoming_count, is_for_each_join, is_template_kind,
}
use fusions.Runtime.Validate.{
  check_unique, check_node, check_config, check_transition, validate_definition,
}
use fusions.Tests.Data.{words, split_nodes, split_edges}
use mathlib.Core.List.{Memᴰ}
use fusions.Shared.{contains, ◌≢◌}
use fusions.Runtime.Lint.{
  error, explore, search_fuel, search_join, reachable, branch_reaches_join, lint_definition,
}
use fusions.Runtime.Lint.Reach.{Reach}
use fusions.Runtime.Lint.Closed.{reachable_iff}
use fusions.Runtime.Lint.Joins.{at_join, branch_reaches_join_iff}
use fusions.Runtime.Lint.Gaps.{for_each-deadlock}
use fusions.Tests.Data.{loop_nodes, loop_edges, item_loop}

reachable_iff_example :
    ((w : List String) × (explore split_nodes split_edges
          (search_fuel split_nodes split_edges)
          []
          ("p" ∷ [])
        ≡ some w)
      × (reachable split_nodes split_edges "p" ≡ w))
    × ((contains (reachable split_nodes split_edges "p") "e" ≡ true)
        ↔ Reach split_nodes split_edges "p" "e")
reachable_iff_example = reachable_iff split_nodes split_edges "p" "e"

branch_reaches_join_iff_example :
    (search_join split_nodes split_edges (search_fuel split_nodes split_edges) [] ("x" ∷ []) ≢ none)
    × ((branch_reaches_join split_nodes split_edges "x" ≡ true) ↔ (
        (j : String) × Reach split_nodes split_edges "x" j
        × (at_join split_nodes split_edges j ≡ true)))
branch_reaches_join_iff_example = branch_reaches_join_iff split_nodes split_edges "x"

-- The definition is one that passes.
loop_passes : validate_definition words loop_nodes loop_edges ≡ ok tt
unfolding validate_definition check_unique contains filter kind_of for_each check_node
    check_context_writes check_config check_split check_split_branches check_split_branch find_node
    find completion_signal find_next_transition SignalType.eq check_approval for_each_of
    parallel_split_of check_assignment check_escalation check_event_wait check_keys
    check_notification check_sub_workflow has_edge is_join_incoming_signal check_for_each check_join
    incoming_count is_for_each_join is_template_kind approved_from check_branch check_condition
    check_merge check_merged_branch check_merged_split validate_expression check_transition any
loop_passes = refl

for_each-deadlock_example : Memᴰ (error "deadlock_node" "f") (lint_definition loop_nodes loop_edges)
unfolding any
for_each-deadlock_example =
    for_each-deadlock loop_nodes loop_edges item_loop "items" "x" "j" none
      (Memᴰ.tail (Memᴰ.tail (Memᴰ.head refl))) refl refl

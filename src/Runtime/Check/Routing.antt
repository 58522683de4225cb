-- ===== src/Runtime/Check/Routing.antt =====
-- The checks at conditions and merges.
use fusions.Shared.{
  String, Option, none, some, List, [], ◌∷◌, Bool, false, ◌&&◌, ◌==◌, ok, err, Result, ◌>>◌,
  contains, for_each, any, filter, length,
}
use fusions.Core.NodeKind.{is_parallel_split}
use fusions.Core.SignalType
use fusions.Core.Config.{ConditionBranch}
use fusions.Core.Node.{WorkflowNode, kind, is_empty, parallel_split_of}
use fusions.Core.Definition.{WorkflowTransition}
use fusions.Core.Error.{Message}
use fusions.Runtime.Guard.{Cel, EvalError, validate_expression}
use fusions.Runtime.Resolve.{find_node}
use fusions.Runtime.Check.Base.{Checked, fail, must, must_not}

-- `validate_expression(..).map_err(..)?`
abbrev pub compiles : Result EvalError (Unit {0}) → Message → Checked
compiles (ok _) m = ok tt
compiles (err _) m = fail m

module _ {J : Type 0} (cel : Cel J) (ids : List String) (id : String) where
  unfoldable pub check_branch : ConditionBranch → Checked
  check_branch branch = do
    must (contains ids branch.target) (Message.branch_target_unknown id branch.target)
    compiles (validate_expression cel branch.guard_expression) (Message.guard_invalid id)

  unfoldable pub check_condition : String → List ConditionBranch → Checked
  check_condition default branches = do
    must_not (is_empty default) (Message.default_target_empty id)
    must (contains ids default) (Message.default_target_unknown id default)
    for_each check_branch branches

abbrev is_split : Option WorkflowNode → Bool
is_split none = false
is_split (some n) = is_parallel_split (kind n)

module _ (nodes : List WorkflowNode) (transitions : List WorkflowTransition) (id : String) where
  unfoldable pub approved_from : List WorkflowTransition
  approved_from =
      filter (λ t. t.from == id && SignalType.eq t.on_signal SignalType.approved) transitions

  -- No branch of a split may converge here.
  unfoldable pub check_merged_branch : String → Checked
  check_merged_branch branch =
      must_not
        (any (λ t. t.from == branch && SignalType.eq t.on_signal SignalType.approved && t.to == id)
          transitions)
        (Message.merge_of_parallel id branch)

  abbrev check_split_branches : Option (List String) → Checked
  check_split_branches none = ok tt
  check_split_branches (some targets) = for_each check_merged_branch targets

  -- The body of the loop over all nodes; only a split has branch targets.
  unfoldable pub check_merged_split : WorkflowNode → Checked
  check_merged_split split = check_split_branches (parallel_split_of split.config)

  only_edge : List WorkflowTransition → Checked
  only_edge (t ∷ []) = must_not (is_split (find_node nodes t.to)) (Message.merge_to_split id)
  only_edge outgoing = fail (Message.merge_outgoing id (length outgoing))

  unfoldable pub check_merge : Checked
  unfolding only_edge
  check_merge = do only_edge approved_from; for_each check_merged_split nodes

-- ===== src/Tests/Data.antt =====
-- A small definition, an expression language and event payloads to evaluate.
use fusions.Shared.{
  String, Option, none, some, List, [], ◌∷◌, Bool, true, false, ◌==◌, if◌then◌else◌,
}
use fusions.Shared.Int.{ℤ, pos}
use fusions.Core.SignalType
use fusions.Core.JoinStrategy.{wait_all}
use fusions.Core.Config.{NodeConfig, ConditionBranch}
use fusions.Core.Node.{WorkflowNode}
use fusions.Core.Definition.{WorkflowTransition, DefinitionSnapshot, EventRecord}
use fusions.Runtime.Guard.{Cel}
use fusions.Runtime.Replay.Model.{Json}

-- An expression is its own program and value; "yes" and "no" are the Booleans.
abbrev truth : String → Option Bool
truth v = if v == "yes" then some true else if v == "no" then some false else none

abbrev pub words : Cel String
words = record {
  Program = String;
  Context = String;
  Value = String;
  compile = λ s. some s;
  empty_object = "{}";
  add_variable = λ j. some j;
  execute = λ p c. some p;
  as_bool = truth;
  json = λ v. some v;
  as_array = λ v. some (v ∷ []);
}

abbrev pub node : String → NodeConfig → WorkflowNode
node id config = record { id = id; name = id; context_writes = []; config = config }

abbrev pub edge : String → SignalType.SignalType → String → WorkflowTransition
edge from signal to = record { from = from; to = to; on_signal = signal }

abbrev pub lead : NodeConfig
lead = NodeConfig.approval (some "lead") none none none

abbrev branch : String → String → ConditionBranch
branch guard target = record { guard_expression = guard; target = target }

abbrev pub serial_nodes : List WorkflowNode
serial_nodes =
    node "s" NodeConfig.start
    ∷ node "a" lead
    ∷ node "c" (NodeConfig.condition "e" (branch "no" "e" ∷ branch "yes" "m" ∷ []))
    ∷ node "m" NodeConfig.merge
    ∷ node "b" lead
    ∷ node "e" (NodeConfig.end none)
    ∷ []

abbrev pub serial_edges : List WorkflowTransition
serial_edges =
    edge "a" SignalType.approved "c"
    ∷ edge "m" SignalType.approved "b"
    ∷ edge "b" SignalType.approved "e"
    ∷ edge "b" SignalType.returned "a"
    ∷ []

abbrev pub split_nodes : List WorkflowNode
split_nodes =
    node "s" NodeConfig.start
    ∷ node "p" (NodeConfig.parallel_split ("x" ∷ "y" ∷ []))
    ∷ node "x" lead
    ∷ node "y" lead
    ∷ node "j" (NodeConfig.parallel_join wait_all)
    ∷ node "e" (NodeConfig.end none)
    ∷ []

abbrev pub split_edges : List WorkflowTransition
split_edges =
    edge "x" SignalType.approved "j"
    ∷ edge "y" SignalType.approved "j"
    ∷ edge "j" SignalType.approved "e"
    ∷ []

-- A payload is the id of its activity.
abbrev pub only_ids : Json String
only_ids = record {
  get = λ p key. if key == "activity_id" then some p else none;
  as_str = λ p. some p;
  as_i64 = λ p. none;
  display = λ n. "n";
}

abbrev pub snapshot : DefinitionSnapshot
snapshot = record {
  flow_type = "serial";
  version = pos 1;
  nodes = serial_nodes;
  transitions = serial_edges;
  max_round = pos 3;
}

-- An event of this type about activity "t2", at time zero.
abbrev pub event : String → EventRecord ℤ String
event type = record { seq = pos 1; event_type = type; payload = "t2"; created_at = pos 0 }

abbrev pub item_loop : WorkflowNode
item_loop = node "f" (NodeConfig.for_each "items" "x" "j" none)

abbrev pub loop_nodes : List WorkflowNode
loop_nodes =
    node "s" NodeConfig.start
    ∷ node "a" lead
    ∷ item_loop
    ∷ node "x" lead
    ∷ node "j" (NodeConfig.parallel_join wait_all)
    ∷ node "e" (NodeConfig.end none)
    ∷ []

abbrev pub loop_edges : List WorkflowTransition
loop_edges =
    edge "a" SignalType.approved "f"
    ∷ edge "x" SignalType.approved "j"
    ∷ edge "j" SignalType.approved "e"
    ∷ []

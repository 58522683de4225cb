-- ===== src/Runtime/Check/Base.antt =====
-- What several checks share.
use fusions.Shared.{
  String, Option, none, some, List, Bool, true, false, ◌&&◌, ◌==◌, any, ok, err, require, refuse,
  contains,
}
use fusions.Core.SignalType
use fusions.Core.SignalType.{SignalType}
use fusions.Core.Node.{is_empty}
use fusions.Core.Definition.{WorkflowTransition}
use fusions.Core.Error.{Message, FlowResult, validation}

abbrev pub Checked : Type 0
Checked = FlowResult (Unit {0})

abbrev pub fail {ℓ} : {A : Type ℓ} → Message → FlowResult A
fail m = err (validation m)

abbrev pub must : Bool → Message → Checked
must test m = require test (validation m)

abbrev pub must_not : Bool → Message → Checked
must_not test m = refuse test (validation m)

-- `transitions.iter().any(|t| t.from == from && t.on_signal == signal)`
unfoldable pub has_edge : List WorkflowTransition → String → SignalType → Bool
has_edge transitions from signal =
    any (λ t. t.from == from && SignalType.eq t.on_signal signal) transitions

-- `option.as_deref().unwrap_or("").is_empty()`
abbrev pub absent : Option String → Bool
absent none = true
absent (some s) = is_empty s

-- A target that is set must be the id of a node.
abbrev pub known_target : List String → Option String → (String → Message) → Checked
known_target ids none m = ok tt
known_target ids (some target) m = must (contains ids target) (m target)

-- `is_join_incoming_signal`
unfoldable pub is_join_incoming_signal : SignalType → Bool
is_join_incoming_signal SignalType.approved = true
is_join_incoming_signal SignalType.completed = true
is_join_incoming_signal SignalType.event_received = true
is_join_incoming_signal _ = false

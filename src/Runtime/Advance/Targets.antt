-- ===== src/Runtime/Advance/Targets.antt =====
-- Where an advance or a hand-back can lead.
use fusions.Shared.{
  ℕ, String, Option, some, List, [], none, Bool, true, false, ◌≡◌, ◌≢◌, ◌⊎◌, inl, inr, ◌∙◌, arith,
  Option-cases,
}
use fusions.Core.NodeKind.{NodeKind}
use fusions.Core.SignalType.{SignalType}
use fusions.Core.Config.{NodeConfig}
use fusions.Core.Node.{WorkflowNode, kind_of, assignee_role_of}
use fusions.Core.Definition.{WorkflowTransition}
use fusions.Core.Outcome.{AdvanceOutcome, advance, rework, error}
use fusions.Runtime.Guard.{Cel}
use fusions.Runtime.Resolve.{
  no_trace, resolve_fuel, find_node, find_next_transition, fan_out, enter, resolve_target,
}
use fusions.Runtime.Resolve.Routes.{is_router, Routes, settle, pass}
use fusions.Runtime.Resolve.Routes.Sound.{resolve_target_sound}
use fusions.Runtime.Advance.{as_rework, decide_advance}

-- The kinds of nodes at which the service opens an activity that waits for a signal or a delivery.
abbrev pub holds_activity : NodeKind → Bool
holds_activity NodeKind.approval = true
holds_activity NodeKind.event_wait = true
holds_activity NodeKind.notification = true
holds_activity NodeKind.assignment = true
holds_activity _ = false

-- The flow stops at a node that holds an activity, under the node's role, at a join, where the service
-- counts the arrival, or at a sub-workflow, which `schedule_activity` of the service refuses; the last two
-- have no role.
abbrev pub Stops : NodeConfig → Option String → Type 0
Stops config role =
    ((holds_activity (kind_of config) ≡ true) × (role ≡ assignee_role_of config))
    ⊎ (((kind_of config ≡ NodeKind.parallel_join) ⊎ (kind_of config ≡ NodeKind.sub_workflow))
        × (role ≡ none))

-- The signals that send the flow on along an edge.
abbrev pub is_forward : SignalType → Bool
is_forward SignalType.approved = true
is_forward SignalType.event_received = true
is_forward SignalType.completed = true
is_forward _ = false

module _ {J : Type 0} (cel : Cel J) (nodes : List WorkflowNode)
    (transitions : List WorkflowTransition) (context : Option J) where
  -- The outcome of a route is that of the node where it settles.
  Routes-settles :
      {h : ℕ} {id : String} {ms : List String} {o : AdvanceOutcome J}
      → Routes cel nodes transitions context h id ms o
      → (x : String) × (n : WorkflowNode) × (find_node nodes x ≡ some n)
        × (is_router n.config ≡ false)
        × ((enter cel nodes transitions context x n.config no_trace (λ tr _. (error, tr))).0 ≡ o)
  Routes-settles (settle {id = id} {n = n} f l e) = (id, n, f, l, e)
  Routes-settles (pass f c hop r) = Routes-settles r

  pub resolve-settles :
      (id : String)
      → (resolve_target cel nodes transitions context resolve_fuel [] no_trace id).0 ≢ error
      → (x : String) × (n : WorkflowNode) × (find_node nodes x ≡ some n)
        × (is_router n.config ≡ false)
        × ((enter cel nodes transitions context x n.config no_trace (λ tr _. (error, tr))).0
            ≡ (resolve_target cel nodes transitions context resolve_fuel [] no_trace id).0)
  resolve-settles id ne =
      let (h, ms, lt, r, m) =
        resolve_target_sound cel nodes transitions context resolve_fuel [] no_trace id ne in
      Routes-settles r

  abbrev pub StopsAt : String → Option String → Type 0
  StopsAt target role = (n : WorkflowNode) × (find_node nodes target ≡ some n) × Stops n.config role

  stop_of_enter :
      (x target : String) (role : Option String) (c : NodeConfig)
      → is_router c ≡ false
      → (enter cel nodes transitions context x c no_trace (λ tr _. (error, tr))).0
        ≡ advance target role
      → (x ≡ target) × Stops c role
  unfolding enter kind_of assignee_role_of fan_out
  stop_of_enter x target role c l e = ground arith

  resolve-StopsAt :
      (id target : String) (role : Option String)
      → (resolve_target cel nodes transitions context resolve_fuel [] no_trace id).0
        ≡ advance target role
      → StopsAt target role
  resolve-StopsAt id target role e =
      let (x, n, f, l, p) = resolve-settles id (λ q. cc) in
      let (at, stop) = stop_of_enter x target role n.config l (p ∙ e) in (n, rw (← at) f, stop)

  Follows : String → SignalType → AdvanceOutcome J → Type 0
  Follows current signal o =
      (t : WorkflowTransition) × (find_next_transition transitions current signal ≡ some t)
      × ((resolve_target cel nodes transitions context resolve_fuel [] no_trace t.to).0 ≡ o)

  Follows-advance :
      (current : String) (signal : SignalType) {target : String} {role : Option String}
      → (decide_advance cel nodes transitions context current signal).0 ≡ advance target role
      → Follows current signal (advance target role)
  unfolding decide_advance Follows as_rework
  Follows-advance current signal e =
      elim (Option-cases (find_next_transition transitions current signal)) [
        | inl p ↦ absurd (ground arith)
        | inr (t, p) ↦ (t, p, ground arith)
      ]

  forward_of_advance :
      (current : String) (signal : SignalType) {target : String} {role : Option String}
      → (decide_advance cel nodes transitions context current signal).0 ≡ advance target role
      → is_forward signal ≡ true
  unfolding decide_advance as_rework
  forward_of_advance current signal e = ground arith

  enter-ne-rework :
      (x target : String) (role : Option String) (c : NodeConfig)
      → is_router c ≡ false
      → (enter cel nodes transitions context x c no_trace (λ tr _. (error, tr))).0
        ≢ rework target role
  unfolding enter fan_out
  enter-ne-rework x target role c l = ground arith

  pub resolve-ne-rework :
      (id target : String) (role : Option String)
      → (resolve_target cel nodes transitions context resolve_fuel [] no_trace id).0
        ≢ rework target role
  resolve-ne-rework id target role e =
      let (x, n, f, l, p) = resolve-settles id (λ q. cc) in
      enter-ne-rework x target role n.config l (p ∙ e)

  Follows-rework :
      (current : String) (signal : SignalType) {target : String} {role : Option String}
      → (decide_advance cel nodes transitions context current signal).0 ≡ rework target role
      → (signal ≡ SignalType.returned) × Follows current SignalType.returned (advance target role)
  unfolding decide_advance Follows as_rework
  Follows-rework current signal {target} {role} e =
      elim (Option-cases (find_next_transition transitions current signal)) [
        | inl p ↦ absurd (ground arith)
        | inr (t, p) ↦
            let ne = resolve-ne-rework t.to target role in
            (ground arith, (t, ground arith, ground arith))
      ]

  -- When decide_advance advances to a node, the signal was approved, completed or event_received, the
  -- advance follows the first edge for that signal, and the node is one of the definition: an
  -- approval, an event wait, a notification or an assignment, with its own role, or a parallel join or
  -- a sub-workflow, with no role.
  pub decide_advance-StopsAt :
      (current : String) (signal : SignalType) (target : String) (role : Option String)
      → (decide_advance cel nodes transitions context current signal).0 ≡ advance target role
      → (is_forward signal ≡ true)
        × StopsAt target role
        × ((t : WorkflowTransition) × (find_next_transition transitions current signal ≡ some t)
            × ((resolve_target cel nodes transitions context resolve_fuel [] no_trace t.to).0
                ≡ advance target role))
  unfolding Follows
  decide_advance-StopsAt current signal target role e =
      let (t, f, r) = Follows-advance current signal e in
      (forward_of_advance current signal e, resolve-StopsAt t.to target role r, (t, f, r))

  -- decide_advance answers rework only to the signal returned, along the first edge for it, which
  -- resolves to the named node of the definition: an approval, an event wait, a notification or an
  -- assignment, with its own role, or a parallel join or a sub-workflow, with no role.
  pub decide_advance-rework :
      (current : String) (signal : SignalType) (target : String) (role : Option String)
      → (decide_advance cel nodes transitions context current signal).0 ≡ rework target role
      → (signal ≡ SignalType.returned)
        × StopsAt target role
        × ((t : WorkflowTransition) × (find_next_transition transitions current SignalType.returned
              ≡ some t)
            × ((resolve_target cel nodes transitions context resolve_fuel [] no_trace t.to).0
                ≡ advance target role))
  unfolding Follows
  decide_advance-rework current signal target role e =
      let (s, (t, f, r)) = Follows-rework current signal e in
      (s, resolve-StopsAt t.to target role r, (t, f, r))

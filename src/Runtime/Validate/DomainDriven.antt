-- ===== src/Runtime/Validate/DomainDriven.antt =====
-- A domain-driven definition advances on a caller's signal only.
use fusions.Shared.{
  String, Option, some, List, [], true, false, ◌≡◌, ◌≢◌, ◌⊎◌, inl, inr, refl, subst, none, arith,
  ok, for_each-ok, find-mem,
}
use fusions.Core.NodeKind.{NodeKind}
use fusions.Core.SignalType.{SignalType}
use fusions.Core.Config.{NodeConfig}
use fusions.Core.Node.{WorkflowNode, kind, kind_of}
use fusions.Core.Definition.{WorkflowTransition}
use fusions.Core.Outcome.{AdvanceOutcome, advance, advance_multi, complete, rework, error}
use fusions.Runtime.Guard.{Cel}
use fusions.Runtime.Resolve.{find_node, no_trace, enter, resolve_target, resolve_fuel}
use fusions.Runtime.Resolve.Routes.{is_router}
use fusions.Runtime.Advance.{decide_advance, as_rework, go_on, hand_back}
use fusions.Runtime.Advance.Targets.{resolve-settles}
use fusions.Runtime.Validate.{domain_driven_kind, check_domain_driven, validate_domain_driven}

kind_ok :
    (nodes : List WorkflowNode) (id : String) {n : WorkflowNode}
    → validate_domain_driven nodes ≡ ok tt
    → find_node nodes id ≡ some n
    → domain_driven_kind (kind n) ≡ true
unfolding validate_domain_driven check_domain_driven find_node
kind_ok nodes id h f = ground (arith, for_each-ok check_domain_driven nodes h (find-mem _ nodes f))

-- The outcomes that wait for a signal at an approval, or end the flow.
abbrev pub WaitsOrEnds : {J : Type 0} → List WorkflowNode → AdvanceOutcome J → Type 0
WaitsOrEnds nodes (AdvanceOutcome.advance id role) =
    (n : WorkflowNode) × (find_node nodes id ≡ some n) × (kind n ≡ NodeKind.approval)
WaitsOrEnds nodes (AdvanceOutcome.rework id role) =
    (n : WorkflowNode) × (find_node nodes id ≡ some n) × (kind n ≡ NodeKind.approval)
WaitsOrEnds nodes (AdvanceOutcome.advance_multi targets) = ⊥
WaitsOrEnds nodes (AdvanceOutcome.complete result) = Unit
WaitsOrEnds nodes AdvanceOutcome.error = Unit

error-cases : {J : Type 0} (o : AdvanceOutcome J) → (o ≡ error) ⊎ (o ≢ error)
error-cases error = inl refl
error-cases (advance _ _) = inr (λ e. cc)
error-cases (advance_multi _) = inr (λ e. cc)
error-cases (complete _) = inr (λ e. cc)
error-cases (rework _ _) = inr (λ e. cc)

module _ {J : Type 0} (cel : Cel J) (nodes : List WorkflowNode)
    (transitions : List WorkflowTransition) (context : Option J) where
  enter-WaitsOrEnds :
      (x : String) (n : WorkflowNode) (c : NodeConfig)
      → n.config ≡ c
      → find_node nodes x ≡ some n
      → is_router c ≡ false
      → domain_driven_kind (kind_of c) ≡ true
      → WaitsOrEnds nodes (enter cel nodes transitions context x c no_trace (λ tr _. (error, tr))).0
  unfolding enter kind_of
  enter-WaitsOrEnds x n (NodeConfig.approval role sla secs to) e f l d = (n, f, rw e)
  enter-WaitsOrEnds x n NodeConfig.start e f l d = tt
  enter-WaitsOrEnds x n (NodeConfig.end code) e f l d = tt
  enter-WaitsOrEnds x n _ e f l d = absurd (ground arith)

  resolve-WaitsOrEnds :
      (id : String)
      → validate_domain_driven nodes ≡ ok tt
      → WaitsOrEnds nodes
          (resolve_target cel nodes transitions context resolve_fuel [] no_trace id).0
  resolve-WaitsOrEnds id h =
      elim (error-cases
        (resolve_target cel nodes transitions context resolve_fuel [] no_trace id).0) [
          | inl e ↦ rw e tt
          | inr ne ↦
              let (x, n, f, l, e) = resolve-settles cel nodes transitions context id ne in
              subst (WaitsOrEnds nodes) e
                (enter-WaitsOrEnds x n n.config refl f l (kind_ok nodes x h f))
        ]

  -- A hand-back keeps what waits, and turns the rest into an error.
  as_rework-WaitsOrEnds :
      (o : AdvanceOutcome J) → WaitsOrEnds nodes o → WaitsOrEnds nodes (as_rework o)
  unfolding as_rework
  as_rework-WaitsOrEnds (advance _ _) w = w
  as_rework-WaitsOrEnds (advance_multi _) w = tt
  as_rework-WaitsOrEnds (complete _) w = tt
  as_rework-WaitsOrEnds (rework _ _) w = tt
  as_rework-WaitsOrEnds error w = tt

  go_on-WaitsOrEnds :
      (found : Option WorkflowTransition)
      → validate_domain_driven nodes ≡ ok tt
      → WaitsOrEnds nodes (go_on cel nodes transitions context found).0
  go_on-WaitsOrEnds none h = tt
  go_on-WaitsOrEnds (some t) h = resolve-WaitsOrEnds t.to h

  hand_back-WaitsOrEnds :
      (found : Option WorkflowTransition)
      → validate_domain_driven nodes ≡ ok tt
      → WaitsOrEnds nodes (hand_back cel nodes transitions context found).0
  hand_back-WaitsOrEnds none h = tt
  hand_back-WaitsOrEnds (some t) h = as_rework-WaitsOrEnds _ (resolve-WaitsOrEnds t.to h)

  -- In a domain-driven definition every signal leads to an approval, which waits for the next signal, to
  -- the end of the flow, or to an error: no fan-out, and no node that the engine completes by itself.
  pub decide_advance-WaitsOrEnds :
      (current : String) (signal : SignalType)
      → validate_domain_driven nodes ≡ ok tt
      → WaitsOrEnds nodes (decide_advance cel nodes transitions context current signal).0
  unfolding decide_advance
  decide_advance-WaitsOrEnds current SignalType.rejected h = tt
  decide_advance-WaitsOrEnds current SignalType.returned h = hand_back-WaitsOrEnds _ h
  decide_advance-WaitsOrEnds current SignalType.approved h = go_on-WaitsOrEnds _ h
  decide_advance-WaitsOrEnds current SignalType.event_received h = go_on-WaitsOrEnds _ h
  decide_advance-WaitsOrEnds current SignalType.completed h = go_on-WaitsOrEnds _ h
  decide_advance-WaitsOrEnds current _ h = tt

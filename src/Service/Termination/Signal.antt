-- ===== src/Service/Termination/Signal.antt =====
-- A signal to an instance of a domain-driven definition comes to an end.
use fusions.Shared.{
  ℕ, suc, String, Option, none, List, [], ◌∷◌, ok, err, ◌≡◌, ap, ◌∙◌, Bool-cases, inl, inr,
}
use fusions.Shared.Int.{ℤ}
use fusions.Core.NodeKind.{NodeKind}
use fusions.Core.Node.{WorkflowNode, kind}
use fusions.Core.Definition.{ActivityInstance, WorkflowInstance, DefinitionSnapshot}
use fusions.Core.WorkflowStatus.{WorkflowStatus}
use fusions.Core.Error.{FlowResult}
use fusions.Core.Outcome.{AdvanceOutcome, advance, advance_multi, complete, rework, error}
use fusions.Runtime.Guard.{Cel}
use fusions.Runtime.Resolve.{ResolveTrace}
use fusions.Runtime.Validate.{validate_domain_driven}
use fusions.Runtime.Validate.DomainDriven.{WaitsOrEnds, decide_advance-WaitsOrEnds}
use fusions.Store.External.{External}
use fusions.Store.Tables.{Tables}
use fusions.Store.Instances.{load_snapshot}
use fusions.Store.Events.{idempotency_seen}
use fusions.Service.Command.{SignalCommand}
use fusions.Service.Config.{WorkflowService, InstanceCtx, node_of}
use fusions.Service.Signal.{is_assignment}
use fusions.Service.Log.{append, reload}
use fusions.Service.Join.{Next}
use fusions.Service.Outcome.{
  apply_outcome, apply_decision, log_merges, advance_to, hand_back_to, rework_within,
}
use fusions.Service.Handle.{
  log_review, review_in, review, assign, act_on, handle_in, handle, signal,
}
use fusions.Service.Agreement.Outcome.{node_of-found, no_join}
use fusions.Service.Agreement.Handle.{ctx_of-names}
use fusions.Service.Termination.{
  Ends, Ends-and_run, Ends-attempt, Ends-or_fail, Ends-must, Ends-must_not,
}
use fusions.Service.Termination.Steps.{
  complete_activity-Ends, apply_context_writes-Ends, resume-Ends, resolve_target_activity-Ends,
  schedule_activity-Ends, complete_instance-Ends, fail_instance-Ends, apply_context_writes-same,
}

ok-injective :
    {a b : DefinitionSnapshot}
    → (the : FlowResult DefinitionSnapshot) → the ≡ ok a
    → the ≡ ok b
    → a ≡ b
ok-injective the h k = cc

module _ {Time J : Type 0} (x : External Time J) (cel : Cel J) (service : WorkflowService J) where
  log_merges-Ends :
      (ctx : InstanceCtx J) (source : ActivityInstance Time) (round : ℤ) (merges : List String)
      (t : Tables Time J)
      → Ends (log_merges x cel service ctx source round merges t)
  unfolding log_merges append
  log_merges-Ends ctx source round [] t = tt
  log_merges-Ends ctx source round (m ∷ ms) t = log_merges-Ends ctx source round ms _

  advance_to-Ends :
      (ctx : InstanceCtx J) (node : WorkflowNode) (role : Option String) (round : ℤ)
      (t : Tables Time J)
      → Ends (advance_to x cel service ctx node role round t)
  unfolding advance_to
  advance_to-Ends ctx node role round t =
      Ends-and_run _ _ (schedule_activity-Ends x service.config ctx node role round none t)
        (λ activity u _. Ends-attempt _ u _ (λ id _. tt))

  hand_back_to-Ends :
      (ctx : InstanceCtx J) (target : String) (role : Option String)
      (source : ActivityInstance Time) (round : ℤ) (t : Tables Time J)
      → Ends (hand_back_to x cel service ctx target role source round t)
  unfolding hand_back_to append
  hand_back_to-Ends ctx target role source round t = Ends-attempt _ t _ (λ node _.
      Ends-and_run _ _ (schedule_activity-Ends x service.config ctx node role round none t)
        (λ activity u _. Ends-attempt _ u _ (λ id _. Ends-must _ _ _ _ tt)))

  rework_within-Ends :
      (limit : FlowResult (Unit {0})) (ctx : InstanceCtx J) (target : String) (role : Option String)
      (source : ActivityInstance Time) (round : ℤ) (t : Tables Time J)
      → Ends (rework_within x cel service limit ctx target role source round t)
  unfolding append
  rework_within-Ends (ok _) ctx target role source round t =
      hand_back_to-Ends ctx target role source round t
  rework_within-Ends (err e) ctx target role source round t =
      Ends-and_run _ _ (fail_instance-Ends x ctx _ t) (λ _ u _. tt)

  apply_decision-Ends :
      (next : Next x cel) (ctx : InstanceCtx J) (o : AdvanceOutcome J) (trace : ResolveTrace)
      (source : ActivityInstance Time) (round : ℤ) (t : Tables Time J)
      → WaitsOrEnds ctx.snapshot.nodes o
      → Ends (apply_decision x cel service next ctx o trace source round t)
  unfolding apply_decision
  apply_decision-Ends next ctx (advance target role) trace source round t w =
      let (n, f, k) = w in
      Ends-attempt (node_of ctx target) t _ (λ node q.
        let is_approval : kind node ≡ NodeKind.approval =
          ap kind (node_of-found ctx target f q) ∙ k in
        rw (no_join node is_approval, Ends) (advance_to-Ends ctx node role round t))
  apply_decision-Ends next ctx (advance_multi targets) trace source round t w = absurd w
  apply_decision-Ends next ctx (complete result) trace source round t w =
      complete_instance-Ends x service.registry ctx result t
  apply_decision-Ends next ctx (rework target role) trace source round t w =
      rework_within-Ends _ ctx target role source _ t
  apply_decision-Ends next ctx error trace source round t w = fail_instance-Ends x ctx _ t

  apply_outcome-Ends :
      (fuel : ℕ) (ctx : InstanceCtx J) (o : AdvanceOutcome J) (trace : ResolveTrace)
      (source : ActivityInstance Time) (round : ℤ) (t : Tables Time J)
      → WaitsOrEnds ctx.snapshot.nodes o
      → Ends (apply_outcome x cel service (suc fuel) ctx o trace source round t)
  unfolding apply_outcome
  apply_outcome-Ends fuel ctx o trace source round t w =
      Ends-and_run _ _ (log_merges-Ends ctx source round trace.merges_passed t)
        (λ _ u _. apply_decision-Ends _ ctx o trace source round u w)

  review_in-Ends :
      (fuel : ℕ) (cmd : SignalCommand J) (status : WorkflowStatus)
      (activity : ActivityInstance Time) (ctx : InstanceCtx J) (t : Tables Time J)
      → validate_domain_driven ctx.snapshot.nodes ≡ ok tt
      → Ends (review_in x cel service (suc fuel) cmd status activity ctx t)
  unfolding review_in log_review append
  review_in-Ends fuel cmd status activity ctx t domain =
      Ends-and_run _ _ (complete_activity-Ends x ctx activity _ _ _ _) (λ _ u _.
        Ends-and_run _ _ (resume-Ends x ctx status activity u) (λ _ v _.
          apply_outcome-Ends fuel ctx _ _ activity activity.round v (
            decide_advance-WaitsOrEnds cel ctx.snapshot.nodes ctx.snapshot.transitions ctx.context
              activity.activity_definition_id cmd.signal domain)))

  review-Ends :
      (fuel : ℕ) (cmd : SignalCommand J) (status : WorkflowStatus)
      (activity : ActivityInstance Time) (node : WorkflowNode) (ctx : InstanceCtx J)
      (t : Tables Time J)
      → validate_domain_driven ctx.snapshot.nodes ≡ ok tt
      → Ends (review x cel service (suc fuel) ctx cmd status activity node t)
  unfolding review
  review-Ends fuel cmd status activity node ctx t domain =
      Ends-and_run _ _ (apply_context_writes-Ends x ctx node activity.round cmd.context_patch t)
        (λ ctx' u wrote. review_in-Ends fuel cmd status activity ctx' u (
          ap (λ s. validate_domain_driven s.nodes)
            (apply_context_writes-same x ctx node activity.round cmd.context_patch t wrote)
          ∙ domain))

  assign-Ends :
      (ctx : InstanceCtx J) (cmd : SignalCommand J) (activity : ActivityInstance Time) (id : String)
      (t : Tables Time J)
      → Ends (assign x ctx cmd activity id t)
  unfolding assign append
  assign-Ends ctx cmd activity id t = tt

  act_on-Ends :
      (fuel : ℕ) (cmd : SignalCommand J) (status : WorkflowStatus) (ctx : InstanceCtx J)
      (activity : ActivityInstance Time) (t : Tables Time J)
      → validate_domain_driven ctx.snapshot.nodes ≡ ok tt
      → Ends (act_on x cel service (suc fuel) cmd status ctx activity t)
  unfolding act_on
  act_on-Ends fuel cmd status ctx activity t domain = Ends-attempt _ t _ (λ id _.
      Ends-attempt _ t _ (λ node _. Ends-attempt _ t _ (λ _ _.
        elim (Bool-cases (is_assignment cmd.signal)) [
          | inl e ↦ rw (e, Ends) (assign-Ends ctx cmd activity id t)
          | inr e ↦ rw (e, Ends) (review-Ends fuel cmd status activity node ctx t domain)
        ])))

  handled_in-Ends :
      (fuel : ℕ) (cmd : SignalCommand J) (instance : WorkflowInstance Time J)
      (snapshot : DefinitionSnapshot) (t : Tables Time J)
      → load_snapshot x cmd.instance_id t ≡ ok snapshot
      → validate_domain_driven snapshot.nodes ≡ ok tt
      → Ends (handle x cel service (suc fuel) cmd instance t)
  unfolding handle handle_in reload
  handled_in-Ends fuel cmd instance snapshot t loaded domain = Ends-attempt _ t _ (λ s same.
      Ends-attempt _ t _ (λ ctx made.
        let (same_id, named) = ctx_of-names x cmd.instance_id instance s made in
        Ends-and_run _ _
          (Ends-and_run _ _ (resolve_target_activity-Ends x cmd.instance_id cmd.activity_id t)
            (λ activity u _. act_on-Ends fuel cmd instance.status ctx activity u (
              ap (λ d. validate_domain_driven d.nodes) (named ∙ ok-injective _ same loaded)
              ∙ domain)))
          (λ _ v _. Ends-or_fail _ _ v _ (λ after. tt))))

  -- A signal that finds a domain-driven definition.
  pub signal-Ends :
      (fuel : ℕ) (cmd : SignalCommand J) (t : Tables Time J) {snapshot : DefinitionSnapshot}
      → load_snapshot x cmd.instance_id t ≡ ok snapshot
      → validate_domain_driven snapshot.nodes ≡ ok tt
      → Ends (signal x cel service (suc fuel) cmd t)
  unfolding signal
  signal-Ends fuel cmd t {snapshot} loaded domain = Ends-must_not _ _ t _ (
      Ends-attempt _ t _ (λ found _. Ends-or_fail _ _ t _ (λ instance.
        elim (Bool-cases (idempotency_seen cmd.instance_id cmd.idempotency_key t)) [
          | inl e ↦ rw (e, Ends) tt
          | inr e ↦
              rw (e, Ends)
                (Ends-must_not _ _ t _ (handled_in-Ends fuel cmd instance snapshot t loaded domain))
        ])))

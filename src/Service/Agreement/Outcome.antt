-- ===== src/Service/Agreement/Outcome.antt =====
-- The outcome of a decision in a domain-driven definition: the next approval, the end, or an error.
use fusions.Shared.{ℕ, zero, suc, String, some, false, ◌≡◌, ap, ◌∙◌, arith, ok}
use fusions.Shared.Int.{ℤ, pos, i32_of}
use fusions.Core.NodeKind.{NodeKind}
use fusions.Core.Node.{WorkflowNode, kind}
use fusions.Core.Definition.{ActivityInstance}
use fusions.Core.Outcome.{AdvanceOutcome, advance, advance_multi, complete, rework, error}
use fusions.Runtime.Guard.{Cel}
use fusions.Runtime.Resolve.{ResolveTrace, find_node}
use fusions.Runtime.Validate.DomainDriven.{WaitsOrEnds}
use fusions.Store.External.{External, IsLawful}
use fusions.Store.Tables.{Tables}
use fusions.Service.Config.{WorkflowService, InstanceCtx, node_of}
use fusions.Service.Join.{Next}
use fusions.Service.Outcome.{apply_outcome, apply_decision, log_merges, is_join}
use fusions.Service.Run.{Ensures, Ensures-and_run, Ensures-attempt}
use fusions.Service.Agreement.{Consistent, AgreesWith}
use fusions.Service.Agreement.Silent.{log_merges-Agrees}
use fusions.Service.Agreement.Status.{complete_instance-Agrees, fail_instance-Agrees}
use fusions.Service.Agreement.Advance.{advance_to-Agrees}

-- The outcomes that the replay follows: all but a rework, which it lists twice.
abbrev pub IsRework : {J : Type 0} → AdvanceOutcome J → Type 0
IsRework (rework _ _) = Unit
IsRework _ = ⊥

pub node_of-found :
    {J : Type 0} (ctx : InstanceCtx J) (id : String) {n node : WorkflowNode}
    → find_node ctx.snapshot.nodes id ≡ some n
    → node_of ctx id ≡ ok node
    → node ≡ n
unfolding node_of find_node
node_of-found ctx id f e = ground arith

pub no_join : (node : WorkflowNode) → kind node ≡ NodeKind.approval → is_join (kind node) ≡ false
no_join node h = ground arith

module _ {Time J : Type 0} (x : External Time J) (laws : IsLawful x) (cel : Cel J)
    (service : WorkflowService J) (ctx : InstanceCtx J) where
  apply_decision-Agrees :
      (next : Next x cel) (o : AdvanceOutcome J) (trace : ResolveTrace)
      (source : ActivityInstance Time) (round : ℤ) (t : Tables Time J)
      (before : Consistent x ctx.instance_id ctx.snapshot t)
      → WaitsOrEnds ctx.snapshot.nodes o
      → ¬ IsRework o
      → before.row.status ≡ pos 2
      → i32_of round ≡ round
      → Ensures
          (λ _ u. Consistent x ctx.instance_id ctx.snapshot u)
          (apply_decision x cel service next ctx o trace source round t)
  unfolding apply_decision
  apply_decision-Agrees next (advance target role) trace source round t before w r e s =
      let (n, f, k) = w in
      Ensures-attempt _ (node_of ctx target) _ _ (λ node q.
        let is_approval : kind node ≡ NodeKind.approval =
          ap kind (node_of-found ctx target f q) ∙ k in
        rw (no_join node is_approval, Ensures)
          (advance_to-Agrees x laws cel service ctx t before node role round is_approval e s))
  apply_decision-Agrees next (advance_multi targets) trace source round t before w r e s = absurd w
  apply_decision-Agrees next (complete result) trace source round t before w r e s =
      complete_instance-Agrees x laws ctx t before service.registry result e
  apply_decision-Agrees next (rework target role) trace source round t before w r e s =
      absurd (r tt)
  apply_decision-Agrees next error trace source round t before w r e s =
      fail_instance-Agrees x laws ctx t before _ e

  pub apply_outcome-Agrees :
      (fuel : ℕ) (o : AdvanceOutcome J) (trace : ResolveTrace) (source : ActivityInstance Time)
      (round : ℤ) (t : Tables Time J) (before : Consistent x ctx.instance_id ctx.snapshot t)
      → WaitsOrEnds ctx.snapshot.nodes o
      → ¬ IsRework o
      → before.row.status ≡ pos 2
      → i32_of round ≡ round
      → Ensures
          (λ _ u. Consistent x ctx.instance_id ctx.snapshot u)
          (apply_outcome x cel service fuel ctx o trace source round t)
  unfolding apply_outcome
  apply_outcome-Agrees zero o trace source round t before w r e s = tt
  apply_outcome-Agrees (suc fuel) o trace source round t before w r e s =
      Ensures-and_run (λ _ u. AgreesWith x ctx.instance_id ctx.snapshot before.row u) _
        (log_merges x cel service ctx source round trace.merges_passed t) _
        (log_merges-Agrees x cel service ctx source round trace.merges_passed t before)
        (λ _ u h.
          apply_decision-Agrees (apply_outcome x cel service fuel) o trace source round u h.0 w r
            (ap (λ q. q.status) h.1 ∙ e) s)

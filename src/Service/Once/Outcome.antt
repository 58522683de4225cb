-- ===== src/Service/Once/Outcome.antt =====
-- `apply_outcome` of crates/hetuflow-service/src/service.rs, whatever the decision, with its joins and
-- fan-outs, adds to the log and keeps the instances.
use fusions.Shared.{
  ℕ, zero, suc, String, Option, none, some, List, [], ◌∷◌, Bool, true, false, ok, err, refl,
  if◌then◌else◌, Bool-cases, inl, inr, ltb,
}
use fusions.Shared.Int.{ℤ}
use fusions.Core.Node.{WorkflowNode, kind, join_strategy_of}
use fusions.Core.JoinStrategy.{
  JoinStrategy, is_satisfied, skips_remaining_on_satisfaction, wait_all,
}
use fusions.Core.Definition.{ActivityInstance}
use fusions.Core.Error.{FlowResult}
use fusions.Core.Outcome.{
  AdvanceOutcome, advance, advance_multi, complete, rework, error, ParallelTarget,
}
use fusions.Runtime.Guard.{Cel}
use fusions.Runtime.Resolve.{ResolveTrace, ForEachFanOut}
use fusions.Runtime.Replay.Activities.{or_else}
use fusions.Store.External.{External}
use fusions.Store.Tables.{Tables}
use fusions.Store.Activities.{count_completed_branches, skip_other_active_activities}
use fusions.Service.Config.{WorkflowService, InstanceCtx}
use fusions.Service.Join.{
  Next, log_skipped, skip_others, satisfied, try_satisfy_join, branch_reached_join,
}
use fusions.Service.Outcome.{
  apply_outcome, apply_decision, log_merges, log_fan_out, schedule_branches, close_empty, fan_out,
  advance_to, hand_back_to, rework_within, is_join, via_of,
}
use fusions.Service.Run.{Ensures, pure}
use fusions.Service.Once.{
  Later-refl, Later-same, Adds, Adds-from, Adds-and_run, Adds-attempt, Adds-must, append-Adds,
}
use fusions.Service.Once.Steps.{
  clear_current_activity-Later, update_current_activity-Later, enter_returned_waiting-Later,
  schedule_activity-Adds, complete_instance-Adds, fail_instance-Adds,
}

module _ {Time J : Type 0} (x : External Time J) (cel : Cel J) where
  abbrev pub NextAdds : Next x cel → Type 0
  NextAdds next =
      (ctx : InstanceCtx J) (o : AdvanceOutcome J) (trace : ResolveTrace)
      (source : ActivityInstance Time) (round : ℤ) (t : Tables Time J)
      → Adds x t (next ctx o trace source round t)

  module _ (next : Next x cel) (next-Adds : NextAdds next) where
    log_skipped-Adds :
        (ctx : InstanceCtx J) (join : WorkflowNode) (count : ℕ) (t : Tables Time J)
        → Adds x t (log_skipped x cel ctx join count t)
    log_skipped-Adds ctx join count t = elim (Bool-cases (ltb 0 count)) [
      | inl e ↦ rw (e, Ensures) (append-Adds x ctx _ _ _ t)
      | inr e ↦ rw (e, Ensures) (Later-refl x t)
    ]

    skip_others-Adds :
        (ctx : InstanceCtx J) (join : WorkflowNode) (exclude : Option String) (t : Tables Time J)
        → Adds x t (skip_others x cel ctx join exclude t)
    unfolding skip_other_active_activities
    skip_others-Adds ctx join exclude t =
        Adds-from x t _ _ (Later-same x t _ refl refl) (log_skipped-Adds ctx join _ _)

    skipping-Adds :
        (skips : Bool) (ctx : InstanceCtx J) (join : WorkflowNode) (exclude : Option String)
        (t : Tables Time J)
        → Adds x t ((if skips then skip_others x cel ctx join exclude else pure tt) t)
    skipping-Adds true ctx join exclude t = skip_others-Adds ctx join exclude t
    skipping-Adds false ctx join exclude t = Later-refl x t

    satisfied-Adds :
        (ctx : InstanceCtx J) (join : WorkflowNode) (strategy : JoinStrategy)
        (source : ActivityInstance Time) (round : ℤ) (exclude : Option String)
        (arrived expected : ℤ) (t : Tables Time J)
        → Adds x t (satisfied x cel next ctx join strategy source round exclude arrived expected t)
    unfolding satisfied
    satisfied-Adds ctx join strategy source round exclude arrived expected t =
        Adds-and_run x t _ _ (append-Adds x ctx _ _ _ t) (λ _ u.
          Adds-and_run x u _ _
            (skipping-Adds (skips_remaining_on_satisfaction strategy) ctx join exclude u)
            (λ _ v. next-Adds ctx _ _ source round v))

    try_satisfy_join-Adds :
        (ctx : InstanceCtx J) (join : WorkflowNode) (source : ActivityInstance Time) (round : ℤ)
        (exclude : Option String) (t : Tables Time J)
        → Adds x t (try_satisfy_join x cel next ctx join source round exclude t)
    unfolding try_satisfy_join
    try_satisfy_join-Adds ctx join source round exclude t = Adds-attempt x _ t _ (λ wanted.
        elim (Bool-cases (
          is_satisfied (or_else (join_strategy_of join.config) wait_all)
            (count_completed_branches ctx.instance_id wanted.1 round t) wanted.0)) [
              | inl e ↦ rw (e, Ensures) (satisfied-Adds ctx join _ source round exclude _ _ t)
              | inr e ↦ rw (e, Ensures) (clear_current_activity-Later x ctx.instance_id t)
            ])

    branch_reached_join-Adds :
        (ctx : InstanceCtx J) (join : WorkflowNode) (source : ActivityInstance Time) (round : ℤ)
        (t : Tables Time J)
        → Adds x t (branch_reached_join x cel next ctx join source round t)
    unfolding branch_reached_join
    branch_reached_join-Adds ctx join source round t =
        Adds-and_run x t _ _ (append-Adds x ctx _ _ _ t) (λ _ u.
          Adds-attempt x _ u _ (λ id. try_satisfy_join-Adds ctx join source round (some id) u))

module _ {Time J : Type 0} (x : External Time J) (cel : Cel J) (service : WorkflowService J) where
  log_merges-Adds :
      (ctx : InstanceCtx J) (source : ActivityInstance Time) (round : ℤ) (merges : List String)
      (t : Tables Time J)
      → Adds x t (log_merges x cel service ctx source round merges t)
  unfolding log_merges
  log_merges-Adds ctx source round [] t = Later-refl x t
  log_merges-Adds ctx source round (m ∷ ms) t =
      Adds-and_run x t _ _ (append-Adds x ctx _ _ _ t)
        (λ _ u. log_merges-Adds ctx source round ms u)

  pub advance_to-Adds :
      (ctx : InstanceCtx J) (node : WorkflowNode) (role : Option String) (round : ℤ)
      (t : Tables Time J)
      → Adds x t (advance_to x cel service ctx node role round t)
  unfolding advance_to
  advance_to-Adds ctx node role round t =
      Adds-and_run x t _ _ (schedule_activity-Adds x service.config ctx node role round none t)
        (λ activity u.
          Adds-attempt x _ u _ (λ id. update_current_activity-Later x ctx.instance_id id u))

  hand_back_to-Adds :
      (ctx : InstanceCtx J) (target : String) (role : Option String)
      (source : ActivityInstance Time) (round : ℤ) (t : Tables Time J)
      → Adds x t (hand_back_to x cel service ctx target role source round t)
  unfolding hand_back_to
  hand_back_to-Adds ctx target role source round t = Adds-attempt x _ t _ (λ node.
      Adds-and_run x t _ _ (schedule_activity-Adds x service.config ctx node role round none t)
        (λ activity u. Adds-attempt x _ u _ (λ id. Adds-must x _ _ u _ _ (
          Adds-from x u _ _ (enter_returned_waiting-Later x ctx.instance_id id u)
            (append-Adds x ctx _ _ _ _)))))

  rework_within-Adds :
      (limit : FlowResult (Unit {0})) (ctx : InstanceCtx J) (target : String) (role : Option String)
      (source : ActivityInstance Time) (round : ℤ) (t : Tables Time J)
      → Adds x t (rework_within x cel service limit ctx target role source round t)
  rework_within-Adds (ok _) ctx target role source round t =
      hand_back_to-Adds ctx target role source round t
  rework_within-Adds (err e) ctx target role source round t =
      Adds-and_run x t _ _ (fail_instance-Adds x ctx _ t) (λ _ u. tt)

  schedule_branches-Adds :
      (ctx : InstanceCtx J) (via : String) (round : ℤ) (targets : List (ParallelTarget J))
      (t : Tables Time J)
      → Adds x t (schedule_branches x cel service ctx via round targets t)
  unfolding schedule_branches
  schedule_branches-Adds ctx via round [] t = Later-refl x t
  schedule_branches-Adds ctx via round (target ∷ targets) t = Adds-attempt x _ t _ (λ node.
      Adds-and_run x t _ _
        (schedule_activity-Adds x service.config ctx node target.assignee_role round _ t)
        (λ activity u. schedule_branches-Adds ctx via round targets u))

  log_fan_out-Adds :
      (ctx : InstanceCtx J) (fan : Option ForEachFanOut) (targets : List (ParallelTarget J))
      (source : ActivityInstance Time) (round : ℤ) (t : Tables Time J)
      → Adds x t (log_fan_out x cel service ctx fan targets source round t)
  unfolding log_fan_out
  log_fan_out-Adds ctx none targets source round t = append-Adds x ctx _ _ _ t
  log_fan_out-Adds ctx (some fan) targets source round t = append-Adds x ctx _ _ _ t

  module _ (next : Next x cel) (next-Adds : NextAdds x cel next) where
    close_empty-Adds :
        (ctx : InstanceCtx J) (targets : List (ParallelTarget J)) (fan : Option ForEachFanOut)
        (source : ActivityInstance Time) (round : ℤ) (t : Tables Time J)
        → Adds x t (close_empty x cel service next ctx targets fan source round t)
    close_empty-Adds ctx [] (some fan) source round t =
        Adds-attempt x _ t _
          (λ join. try_satisfy_join-Adds x cel next next-Adds ctx join source round none t)
    close_empty-Adds ctx [] none source round t = Later-refl x t
    close_empty-Adds ctx (target ∷ targets) fan source round t = Later-refl x t

    fan_out-Adds :
        (ctx : InstanceCtx J) (targets : List (ParallelTarget J)) (trace : ResolveTrace)
        (source : ActivityInstance Time) (round : ℤ) (t : Tables Time J)
        → Adds x t (fan_out x cel service next ctx targets trace source round t)
    unfolding fan_out
    fan_out-Adds ctx targets trace source round t =
        Adds-from x t _ _ (clear_current_activity-Later x ctx.instance_id t) (
          Adds-and_run x _ _ _ (log_fan_out-Adds ctx trace.for_each_fan_out targets source round _)
            (λ _ u.
              Adds-and_run x u _ _
                (schedule_branches-Adds ctx (via_of trace.for_each_fan_out) round targets u)
                (λ _ v. close_empty-Adds ctx targets trace.for_each_fan_out source round v)))

    apply_decision-Adds :
        (ctx : InstanceCtx J) (o : AdvanceOutcome J) (trace : ResolveTrace)
        (source : ActivityInstance Time) (round : ℤ) (t : Tables Time J)
        → Adds x t (apply_decision x cel service next ctx o trace source round t)
    unfolding apply_decision
    apply_decision-Adds ctx (advance target role) trace source round t =
        Adds-attempt x _ t _ (λ node. elim (Bool-cases (is_join (kind node))) [
          | inl e ↦
              rw (e, Ensures)
                (branch_reached_join-Adds x cel next next-Adds ctx node source round t)
          | inr e ↦ rw (e, Ensures) (advance_to-Adds ctx node role round t)
        ])
    apply_decision-Adds ctx (advance_multi targets) trace source round t =
        fan_out-Adds ctx targets trace source round t
    apply_decision-Adds ctx (complete result) trace source round t =
        complete_instance-Adds x service.registry ctx result t
    apply_decision-Adds ctx (rework target role) trace source round t =
        rework_within-Adds _ ctx target role source _ t
    apply_decision-Adds ctx error trace source round t = fail_instance-Adds x ctx _ t

  pub apply_outcome-Adds : (fuel : ℕ) → NextAdds x cel (apply_outcome x cel service fuel)
  unfolding apply_outcome
  apply_outcome-Adds zero ctx o trace source round t = tt
  apply_outcome-Adds (suc fuel) ctx o trace source round t =
      Adds-and_run x t _ _ (log_merges-Adds ctx source round trace.merges_passed t) (λ _ u.
        apply_decision-Adds (apply_outcome x cel service fuel) (apply_outcome-Adds fuel) ctx o trace
          source round u)

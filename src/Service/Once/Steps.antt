-- ===== src/Service/Once/Steps.antt =====
-- The steps of a signal add to the log and keep the instances.
use fusions.Shared.{
  String, Option, none, some, List, [], ◌∷◌, Bool, true, false, ok, ◌≡◌, refl, subst, Bool-cases,
  inl, inr, arith,
}
use fusions.Shared.Int.{ℤ}
use fusions.Core.Config.{NotificationConfig}
use fusions.Core.Node.{WorkflowNode}
use fusions.Core.Definition.{ActivityInstance}
use fusions.Core.WorkflowResult.{WorkflowResult}
use fusions.Core.WorkflowStatus.{WorkflowStatus}
use fusions.Store.External.{External}
use fusions.Store.Tables.{Tables}
use fusions.Store.Instances.{
  clear_current_activity, update_current_activity, enter_returned_waiting,
  resume_from_returned_waiting, complete_workflow_cas, error_workflow, merge_instance_context,
  change_instances, has_id, context_merged,
}
use fusions.Store.Activities.{complete_activity_cas, change_activities, insert_activity}
use fusions.Store.Timers.{cancel_timers_for_activity, schedule_timer}
use fusions.Store.Outbox.{enqueue_outbox}
use fusions.Service.Command.{TerminalCallback}
use fusions.Service.Registry.{Handler}
use fusions.Service.Config.{WorkflowConfig, InstanceCtx}
use fusions.Service.Complete.{complete_activity, apply_context_writes, write_context}
use fusions.Service.Finish.{
  complete_instance, fail_instance, run_callback, enqueue_callback, terminal_callback, is_approved,
}
use fusions.Service.Handle.{resume, log_resumed, is_waiting, resolve_target_activity}
use fusions.Service.Notify.{enqueue_notification}
use fusions.Service.Schedule.{schedule_activity, schedule_timers, deliver_if, timer_if, FanoutMark}
use fusions.Service.Run.{Ensures, Ensures-last, Ensures-to_run}
use fusions.Service.Once.{
  Later, Later-refl, Later-same, change_instances-Later, Adds, Adds-from, Adds-and_run,
  Adds-attempt, Adds-or_fail, Adds-must, Adds-must_not, append-Adds,
}

module _ {Time J : Type 0} (x : External Time J) where
  -- The statements.
  pub clear_current_activity-Later :
      (id : String) (t : Tables Time J) → Later x t (clear_current_activity id t).1
  unfolding clear_current_activity
  clear_current_activity-Later id t = change_instances-Later x _ _ t (λ r. (refl, refl, refl))

  pub update_current_activity-Later :
      (id activity : String) (t : Tables Time J)
      → Later x t (update_current_activity id activity t).1
  unfolding update_current_activity
  update_current_activity-Later id activity t =
      change_instances-Later x _ _ t (λ r. (refl, refl, refl))

  pub enter_returned_waiting-Later :
      (id activity : String) (t : Tables Time J)
      → Later x t (enter_returned_waiting id activity t).1
  unfolding enter_returned_waiting
  enter_returned_waiting-Later id activity t =
      change_instances-Later x _ _ t (λ r. (refl, refl, refl))

  resume_from_returned_waiting-Later :
      (id : String) (t : Tables Time J) → Later x t (resume_from_returned_waiting id t).1
  unfolding resume_from_returned_waiting
  resume_from_returned_waiting-Later id t = change_instances-Later x _ _ t (λ r. (refl, refl, refl))

  complete_workflow_cas-Later :
      (id : String) (result : ℤ) (t : Tables Time J)
      → Later x t (complete_workflow_cas id result t).1
  unfolding complete_workflow_cas
  complete_workflow_cas-Later id result t = change_instances-Later x _ _ t (λ r. (refl, refl, refl))

  error_workflow-Later : (id : String) (t : Tables Time J) → Later x t (error_workflow id t).1
  unfolding error_workflow
  error_workflow-Later id t = change_instances-Later x _ _ t (λ r. (refl, refl, refl))

  merge_instance_context-Later :
      (id : String) (patch merged : J) (t u : Tables Time J)
      → merge_instance_context x id patch t ≡ ok (merged, u)
      → Later x t u
  unfolding merge_instance_context
  merge_instance_context-Later id patch merged t u e =
      let same : (change_instances (has_id id) (context_merged x patch t.now) t).1 ≡ u =
        ground arith in
      subst (Later x t) same (change_instances-Later x _ _ t (λ r. (refl, refl, refl)))

  enqueue_outbox-Later :
      (tenant : ℤ) (facility instance activity type : String) (payload : J) (t : Tables Time J)
      → Later x t (enqueue_outbox x tenant facility instance activity type payload t)
  unfolding enqueue_outbox
  enqueue_outbox-Later tenant facility instance activity type payload t =
      Later-same x t _ (ground arith) (ground arith)

  schedule_timer-Later :
      (tenant : ℤ) (facility instance activity kind : String) (secs : ℤ) (t : Tables Time J)
      → Later x t (schedule_timer x tenant facility instance activity kind secs t)
  unfolding schedule_timer
  schedule_timer-Later tenant facility instance activity kind secs t =
      Later-same x t _ (ground arith) (ground arith)

  -- The methods.
  pub complete_activity-Adds :
      (ctx : InstanceCtx J) (activity : ActivityInstance Time) (result : Option String) (actor : ℤ)
      (notes : Option String) (t : Tables Time J)
      → Adds x t (complete_activity x ctx activity result actor notes t)
  unfolding complete_activity complete_activity_cas change_activities cancel_timers_for_activity
  complete_activity-Adds ctx activity result actor notes t = Adds-attempt x _ t _ (λ id.
      Adds-must x _ _ t _ _
        (Adds-from x t _ _ (Later-same x t _ refl refl) (append-Adds x ctx _ _ _ _)))

  write_context-Adds :
      (ctx : InstanceCtx J) (node : WorkflowNode) (round : ℤ) (patch : Option J)
      (keys : List String) (t : Tables Time J)
      → Adds x t (write_context x ctx node round patch keys t)
  write_context-Adds ctx node round patch [] t = Later-refl x t
  write_context-Adds ctx node round patch (key ∷ keys) t = Adds-attempt x _ t _ (λ given.
      Adds-attempt x _ t _ (λ filtered. Ensures-to_run _ _ _ (λ merged u e.
        Adds-from x t u _ (merge_instance_context-Later _ _ merged t u e)
          (Adds-and_run x u _ _ (append-Adds x _ _ _ _ u) (λ _ v. Later-refl x v)))))

  pub apply_context_writes-Adds :
      (ctx : InstanceCtx J) (node : WorkflowNode) (round : ℤ) (patch : Option J) (t : Tables Time J)
      → Adds x t (apply_context_writes x ctx node round patch t)
  unfolding apply_context_writes
  apply_context_writes-Adds ctx node round patch t =
      write_context-Adds ctx node round patch node.context_writes t

  log_resumed-Adds :
      (ctx : InstanceCtx J) (activity : ActivityInstance Time) (resumed : Bool) (t : Tables Time J)
      → Adds x t (log_resumed x ctx activity resumed t)
  log_resumed-Adds ctx activity true t = append-Adds x ctx _ _ _ t
  log_resumed-Adds ctx activity false t = Later-refl x t

  pub resume-Adds :
      (ctx : InstanceCtx J) (status : WorkflowStatus) (activity : ActivityInstance Time)
      (t : Tables Time J)
      → Adds x t (resume x ctx status activity t)
  unfolding resume
  resume-Adds ctx status activity t = elim (Bool-cases (is_waiting status)) [
    | inl e ↦
        rw (e, Ensures)
          (Adds-from x t _ _ (resume_from_returned_waiting-Later ctx.instance_id t)
            (log_resumed-Adds ctx activity _ _))
    | inr e ↦ rw (e, Ensures) (Later-refl x t)
  ]

  pub resolve_target_activity-Adds :
      (id : String) (given : Option String) (t : Tables Time J)
      → Adds x t (resolve_target_activity x id given t)
  unfolding resolve_target_activity
  resolve_target_activity-Adds id none t = Ensures-last _ _ t (λ a e. Later-refl x t)
  resolve_target_activity-Adds id (some a) t =
      Adds-or_fail x _ _ t _ (λ activity. Ensures-last _ _ t (λ b e. Later-refl x t))

  timer_if-Adds :
      (ctx : InstanceCtx J) (id name : String) (secs : Option ℤ) (t : Tables Time J)
      → Adds x t (timer_if x ctx id name secs t)
  unfolding timer_if
  timer_if-Adds ctx id name none t = Later-refl x t
  timer_if-Adds ctx id name (some secs) t = schedule_timer-Later _ _ _ id name secs t

  schedule_timers-Adds :
      (ctx : InstanceCtx J) (node : WorkflowNode) (id : String) (t : Tables Time J)
      → Adds x t (schedule_timers x ctx node id t)
  unfolding schedule_timers
  schedule_timers-Adds ctx node id t =
      Adds-and_run x t _ _ (timer_if-Adds ctx id _ _ t) (λ _ u.
        Adds-and_run x u _ _ (timer_if-Adds ctx id _ _ u) (λ _ v. timer_if-Adds ctx id _ _ v))

  deliver_if-Adds :
      (config : WorkflowConfig) (ctx : InstanceCtx J) (activity : ActivityInstance Time)
      (n : Option NotificationConfig) (t : Tables Time J)
      → Adds x t (deliver_if x config ctx activity n t)
  unfolding deliver_if enqueue_notification
  deliver_if-Adds config ctx activity none t = Later-refl x t
  deliver_if-Adds config ctx activity (some n) t =
      Adds-or_fail x _ _ t _
        (λ value. Adds-attempt x _ t _ (λ id. enqueue_outbox-Later _ _ _ id _ value t))

  pub schedule_activity-Adds :
      (config : WorkflowConfig) (ctx : InstanceCtx J) (node : WorkflowNode) (role : Option String)
      (round : ℤ) (mark : Option (FanoutMark J)) (t : Tables Time J)
      → Adds x t (schedule_activity x config ctx node role round mark t)
  unfolding schedule_activity insert_activity
  schedule_activity-Adds config ctx node role round mark t = Adds-must_not x _ _ t _ (
      Adds-from x t _ _ (Later-same x t _ refl refl) (
        Adds-attempt x _ _ _ (λ id. Adds-and_run x _ _ _ (append-Adds x ctx _ _ _ _) (λ _ u.
          Adds-and_run x u _ _ (schedule_timers-Adds ctx node id u) (λ _ v.
            Adds-and_run x v _ _ (deliver_if-Adds config ctx _ _ v) (λ _ w. Later-refl x w))))))

  enqueue_callback-Adds :
      (registry : List (String × Handler J)) (ctx : InstanceCtx J)
      (tc : Option (TerminalCallback J)) (t : Tables Time J)
      → Adds x t (enqueue_callback x registry ctx tc t)
  enqueue_callback-Adds registry ctx none t = Later-refl x t
  enqueue_callback-Adds registry ctx (some tc) t = Adds-or_fail x _ _ t _ (λ anchor.
      Adds-or_fail x _ _ t _ (λ handler.
        Adds-or_fail x _ _ t _
          (λ value. Adds-attempt x _ t _ (λ id. enqueue_outbox-Later _ _ _ id _ value t))))

  run_callback-Adds :
      (registry : List (String × Handler J)) (ctx : InstanceCtx J) (result : WorkflowResult)
      (t : Tables Time J)
      → Adds x t (run_callback x registry ctx result t)
  unfolding run_callback terminal_callback
  run_callback-Adds registry ctx result t = elim (Bool-cases (is_approved result)) [
    | inl e ↦ rw (e, Ensures) (Adds-attempt x _ t _ (λ tc. enqueue_callback-Adds registry ctx tc t))
    | inr e ↦ rw (e, Ensures) (Later-refl x t)
  ]

  pub complete_instance-Adds :
      (registry : List (String × Handler J)) (ctx : InstanceCtx J) (result : WorkflowResult)
      (t : Tables Time J)
      → Adds x t (complete_instance x registry ctx result t)
  unfolding complete_instance
  complete_instance-Adds registry ctx result t = Adds-must x _ _ t _ _ (
      Adds-from x t _ _ (complete_workflow_cas-Later ctx.instance_id _ t) (
        Adds-and_run x _ _ _ (append-Adds x ctx _ _ _ _)
          (λ _ u. run_callback-Adds registry ctx result u)))

  pub fail_instance-Adds :
      (ctx : InstanceCtx J) (reason : String) (t : Tables Time J)
      → Adds x t (fail_instance x ctx reason t)
  unfolding fail_instance
  fail_instance-Adds ctx reason t =
      Adds-from x t _ _ (error_workflow-Later ctx.instance_id t) (append-Adds x ctx _ _ _ _)

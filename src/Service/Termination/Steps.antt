-- ===== src/Service/Termination/Steps.antt =====
-- The steps of a signal take no fuel.
use fusions.Shared.{
  String, Option, none, some, List, [], ◌∷◌, Bool, true, false, ◌≡◌, refl, Bool-cases, inl, inr,
}
use fusions.Shared.Int.{ℤ}
use fusions.Core.Config.{NotificationConfig}
use fusions.Core.Node.{WorkflowNode}
use fusions.Core.Definition.{ActivityInstance}
use fusions.Core.WorkflowResult.{WorkflowResult}
use fusions.Core.WorkflowStatus.{WorkflowStatus}
use fusions.Store.External.{External}
use fusions.Store.Tables.{Tables}
use fusions.Service.Command.{TerminalCallback}
use fusions.Service.Registry.{Handler}
use fusions.Service.Config.{WorkflowConfig, InstanceCtx}
use fusions.Service.Log.{append}
use fusions.Service.Complete.{complete_activity, apply_context_writes, write_context}
use fusions.Service.Finish.{
  complete_instance, fail_instance, run_callback, enqueue_callback, terminal_callback, is_approved,
}
use fusions.Service.Handle.{resume, log_resumed, is_waiting, resolve_target_activity}
use fusions.Service.Notify.{enqueue_notification}
use fusions.Service.Schedule.{schedule_activity, schedule_timers, deliver_if, timer_if, FanoutMark}
use fusions.Service.Run.{done, Ensures, Ensures-attempt, Ensures-to_run, Ensures-done}
use fusions.Service.Termination.{
  Ends, Ends-and_run, Ends-attempt, Ends-or_fail, Ends-must, Ends-must_not, Ends-last, Ends-to_run,
}

module _ {Time J : Type 0} (x : External Time J) where
  pub complete_activity-Ends :
      (ctx : InstanceCtx J) (activity : ActivityInstance Time) (result : Option String) (actor : ℤ)
      (notes : Option String) (t : Tables Time J)
      → Ends (complete_activity x ctx activity result actor notes t)
  unfolding complete_activity append
  complete_activity-Ends ctx activity result actor notes t =
      Ends-attempt _ t _ (λ id _. Ends-must _ _ _ _ tt)

  write_context-Ends :
      (ctx : InstanceCtx J) (node : WorkflowNode) (round : ℤ) (patch : Option J)
      (keys : List String) (t : Tables Time J)
      → Ends (write_context x ctx node round patch keys t)
  unfolding append
  write_context-Ends ctx node round patch [] t = tt
  write_context-Ends ctx node round patch (key ∷ keys) t =
      Ends-attempt _ t _
        (λ given _. Ends-attempt _ t _ (λ filtered _. Ends-to_run _ _ (λ merged u. tt)))

  write_context-same :
      (ctx : InstanceCtx J) (node : WorkflowNode) (round : ℤ) (patch : Option J)
      (keys : List String) (t : Tables Time J)
      → Ensures
          (λ (c : InstanceCtx J) _. c.snapshot ≡ ctx.snapshot)
          (write_context x ctx node round patch keys t)
  unfolding append
  write_context-same ctx node round patch [] t = refl
  write_context-same ctx node round patch (key ∷ keys) t =
      Ensures-attempt _ _ t _ (λ given _.
        Ensures-attempt _ _ t _ (λ filtered _. Ensures-to_run _ _ _ (λ merged u _. refl)))

  -- The writes leave the definition.
  pub apply_context_writes-same :
      (ctx : InstanceCtx J) (node : WorkflowNode) (round : ℤ) (patch : Option J) (t : Tables Time J)
      {ctx' : InstanceCtx J} {u : Tables Time J}
      → apply_context_writes x ctx node round patch t ≡ done ctx' u
      → ctx'.snapshot ≡ ctx.snapshot
  unfolding apply_context_writes
  apply_context_writes-same ctx node round patch t e =
      Ensures-done (λ (c : InstanceCtx J) _. c.snapshot ≡ ctx.snapshot) _
        (write_context-same ctx node round patch node.context_writes t) e

  pub apply_context_writes-Ends :
      (ctx : InstanceCtx J) (node : WorkflowNode) (round : ℤ) (patch : Option J) (t : Tables Time J)
      → Ends (apply_context_writes x ctx node round patch t)
  unfolding apply_context_writes
  apply_context_writes-Ends ctx node round patch t =
      write_context-Ends ctx node round patch node.context_writes t

  log_resumed-Ends :
      (ctx : InstanceCtx J) (activity : ActivityInstance Time) (resumed : Bool) (t : Tables Time J)
      → Ends (log_resumed x ctx activity resumed t)
  unfolding append
  log_resumed-Ends ctx activity true t = tt
  log_resumed-Ends ctx activity false t = tt

  pub resume-Ends :
      (ctx : InstanceCtx J) (status : WorkflowStatus) (activity : ActivityInstance Time)
      (t : Tables Time J)
      → Ends (resume x ctx status activity t)
  unfolding resume
  resume-Ends ctx status activity t = elim (Bool-cases (is_waiting status)) [
    | inl e ↦ rw (e, Ends) (log_resumed-Ends ctx activity _ _)
    | inr e ↦ rw (e, Ends) tt
  ]

  pub resolve_target_activity-Ends :
      (id : String) (given : Option String) (t : Tables Time J)
      → Ends (resolve_target_activity x id given t)
  unfolding resolve_target_activity
  resolve_target_activity-Ends id none t = Ends-last _ t
  resolve_target_activity-Ends id (some a) t = Ends-or_fail _ _ t _ (λ activity. Ends-last _ t)

  timer_if-Ends :
      (ctx : InstanceCtx J) (id name : String) (secs : Option ℤ) (t : Tables Time J)
      → Ends (timer_if x ctx id name secs t)
  unfolding timer_if
  timer_if-Ends ctx id name none t = tt
  timer_if-Ends ctx id name (some secs) t = tt

  schedule_timers-Ends :
      (ctx : InstanceCtx J) (node : WorkflowNode) (id : String) (t : Tables Time J)
      → Ends (schedule_timers x ctx node id t)
  unfolding schedule_timers
  schedule_timers-Ends ctx node id t =
      Ends-and_run _ _ (timer_if-Ends ctx id _ _ t) (λ _ u _.
        Ends-and_run _ _ (timer_if-Ends ctx id _ _ u) (λ _ v _. timer_if-Ends ctx id _ _ v))

  deliver_if-Ends :
      (config : WorkflowConfig) (ctx : InstanceCtx J) (activity : ActivityInstance Time)
      (n : Option NotificationConfig) (t : Tables Time J)
      → Ends (deliver_if x config ctx activity n t)
  unfolding deliver_if enqueue_notification
  deliver_if-Ends config ctx activity none t = tt
  deliver_if-Ends config ctx activity (some n) t =
      Ends-or_fail _ _ t _ (λ value. Ends-attempt _ t _ (λ id _. tt))

  pub schedule_activity-Ends :
      (config : WorkflowConfig) (ctx : InstanceCtx J) (node : WorkflowNode) (role : Option String)
      (round : ℤ) (mark : Option (FanoutMark J)) (t : Tables Time J)
      → Ends (schedule_activity x config ctx node role round mark t)
  unfolding schedule_activity append
  schedule_activity-Ends config ctx node role round mark t = Ends-must_not _ _ t _ (
      Ends-attempt _ _ _ (λ id _.
        Ends-and_run _ _ (schedule_timers-Ends ctx node id _)
          (λ _ u _. Ends-and_run _ _ (deliver_if-Ends config ctx _ _ u) (λ _ v _. tt))))

  enqueue_callback-Ends :
      (registry : List (String × Handler J)) (ctx : InstanceCtx J)
      (tc : Option (TerminalCallback J)) (t : Tables Time J)
      → Ends (enqueue_callback x registry ctx tc t)
  enqueue_callback-Ends registry ctx none t = tt
  enqueue_callback-Ends registry ctx (some tc) t = Ends-or_fail _ _ t _ (λ anchor.
      Ends-or_fail _ _ t _
        (λ handler. Ends-or_fail _ _ t _ (λ value. Ends-attempt _ t _ (λ id _. tt))))

  run_callback-Ends :
      (registry : List (String × Handler J)) (ctx : InstanceCtx J) (result : WorkflowResult)
      (t : Tables Time J)
      → Ends (run_callback x registry ctx result t)
  unfolding run_callback terminal_callback
  run_callback-Ends registry ctx result t = elim (Bool-cases (is_approved result)) [
    | inl e ↦ rw (e, Ends) (Ends-attempt _ t _ (λ tc _. enqueue_callback-Ends registry ctx tc t))
    | inr e ↦ rw (e, Ends) tt
  ]

  pub complete_instance-Ends :
      (registry : List (String × Handler J)) (ctx : InstanceCtx J) (result : WorkflowResult)
      (t : Tables Time J)
      → Ends (complete_instance x registry ctx result t)
  unfolding complete_instance append
  complete_instance-Ends registry ctx result t =
      Ends-must _ _ _ _ (run_callback-Ends registry ctx result _)

  pub fail_instance-Ends :
      (ctx : InstanceCtx J) (reason : String) (t : Tables Time J)
      → Ends (fail_instance x ctx reason t)
  unfolding fail_instance append
  fail_instance-Ends ctx reason t = tt

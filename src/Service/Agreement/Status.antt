-- ===== src/Service/Agreement/Status.antt =====
-- The compare-and-sets on the status of the instance, each with its fact.
use fusions.Shared.{
  String, none, some, List, [], ◌∷◌, true, false, ◌≡◌, ◌≢◌, refl, ap, sym, ◌∙◌, arith,
  if◌then◌else◌, filter, Bool-cases, inl, inr,
}
use fusions.Shared.Int.{ℤ, pos, eq_ℤ, eq_ℤ_refl}
use fusions.Core.EventType
use fusions.Core.WorkflowStatus
use fusions.Core.WorkflowStatus.{WorkflowStatus, is_terminal}
use fusions.Core.WorkflowResult
use fusions.Core.WorkflowResult.{WorkflowResult}
use fusions.Core.WorkflowResult.Codec.{from_i16-as_i16}
use fusions.Core.Definition.{ActivityInstance}
use fusions.Runtime.Replay.Fold.{step, on_errored, on_resumed}
use fusions.Store.External.{External, IsLawful}
use fusions.Store.Rows.{InstanceRow, InstanceRow_into_model}
use fusions.Store.Tables.{Tables}
use fusions.Store.Events.{append_event, next_seq}
use fusions.Store.Instances.{
  has_id, is_at, change_instances, complete_workflow_cas, error_workflow,
  resume_from_returned_waiting, finished, moved,
}
use fusions.Service.Registry.{Handler}
use fusions.Service.Config.{InstanceCtx}
use fusions.Service.Log.{append}
use fusions.Service.Finish.{complete_instance, fail_instance, run_callback, result_payload}
use fusions.Service.Handle.{resume, is_waiting}
use fusions.Service.Run.{Ensures, Ensures-must, Ensures-weaken}
use fusions.Service.Agreement.{Consistent, replayed}
use fusions.Service.Agreement.Log.{replayed-append}
use fusions.Service.Agreement.Facts.{step-finished}
use fusions.Service.Agreement.Instance.{change_instances-row, change_instances-won}
use fusions.Service.Agreement.Changes.{Agrees-instance}
use fusions.Service.Agreement.Silent.{run_callback-Agrees}

number_of_active : (n : ℤ) → WorkflowStatus.from_i16 n ≡ WorkflowStatus.active → n ≡ pos 2
unfolding WorkflowStatus.from_i16
number_of_active n h = ground arith

number_of_waiting :
    (n : ℤ) → WorkflowStatus.from_i16 n ≡ WorkflowStatus.returned_waiting → n ≡ pos 6
unfolding WorkflowStatus.from_i16
number_of_waiting n h = ground arith

-- Neither terminal nor pending, a status is active or waits for the work that was handed back.
active_of :
    (n : ℤ)
    → is_terminal (WorkflowStatus.from_i16 n) ≡ false
    → WorkflowStatus.from_i16 n ≢ WorkflowStatus.pending
    → is_waiting (WorkflowStatus.from_i16 n) ≡ false
    → n ≡ pos 2
unfolding is_terminal WorkflowStatus.from_i16
active_of n t p w = ground arith

waiting_of : (n : ℤ) → is_waiting (WorkflowStatus.from_i16 n) ≡ true → n ≡ pos 6
unfolding WorkflowStatus.from_i16
waiting_of n h = ground arith

module _ {Time J : Type 0} (x : External Time J) (laws : IsLawful x) (ctx : InstanceCtx J)
    (t : Tables Time J) (before : Consistent x ctx.instance_id ctx.snapshot t) where
  -- A compare-and-set from status `n` wins when the row is there, and the row is what it makes of it.
  won_at :
      (n : ℤ) (f : InstanceRow Time J → InstanceRow Time J)
      → ((r : InstanceRow Time J) → (f r).id ≡ r.id)
      → before.row.status ≡ n
      → (change_instances (is_at ctx.instance_id n) f t).0 ≡ true
  won_at n f keeps e =
      change_instances-won ctx.instance_id (λ r. eq_ℤ r.status n) f t keeps before.only
      ∙ (rw e (eq_ℤ_refl n))

  row_at :
      (n : ℤ) (f : InstanceRow Time J → InstanceRow Time J)
      → ((r : InstanceRow Time J) → (f r).id ≡ r.id)
      → before.row.status ≡ n
      → filter (has_id ctx.instance_id) (change_instances (is_at ctx.instance_id n) f t).1.instances
        ≡ f before.row ∷ []
  row_at n f keeps e =
      change_instances-row ctx.instance_id (λ r. eq_ℤ r.status n) f t keeps before.only
      ∙ ap (λ b. (if b then f before.row else before.row) ∷ []) (ap (λ s. eq_ℤ s n) e ∙ eq_ℤ_refl n)

  pub complete_instance-Agrees :
      (registry : List (String × Handler J)) (result : WorkflowResult)
      → before.row.status ≡ pos 2
      → Ensures
          (λ _ u. Consistent x ctx.instance_id ctx.snapshot u)
          (complete_instance x registry ctx result t)
  unfolding complete_instance append complete_workflow_cas result_payload append_event
      InstanceRow_into_model WorkflowStatus.from_i16 change_instances
  complete_instance-Agrees registry result e =
      let later = (complete_workflow_cas ctx.instance_id (WorkflowResult.as_i16 result) t).1 in
      let f = finished {Time = Time} {J = J} (WorkflowResult.as_i16 result) t.now in
      let ended =
        Agrees-instance x ctx.instance_id ctx.snapshot before _ later.instances
          (record (replayed x ctx.instance_id ctx.snapshot t.events).instance {
            status = WorkflowStatus.completed;
            result = some result;
            completed_at = some t.now;
            current_activity_id = none;
          })
          (f before.row)
          (replayed-append x ctx.instance_id ctx.snapshot ctx.tenant_id ctx.facility_id
              EventType.completed (result_payload x result) none later
            ∙ step-finished x laws ctx.snapshot (replayed x ctx.instance_id ctx.snapshot t.events)
                result (next_seq ctx.instance_id later) t.now)
          (row_at (pos 2) f (λ r. refl) e) refl (λ q. cc)
          (refl, (refl, sym (from_i16-as_i16 result))) in
      Ensures-must _ _ _ _ _ (λ won.
        Ensures-weaken _ _
          (run_callback x registry ctx result (
            append_event ctx.tenant_id ctx.facility_id ctx.instance_id
              (next_seq ctx.instance_id later) EventType.completed (result_payload x result) none
              later))
          (run_callback-Agrees x registry ctx result _ ended.0) (λ a u h. h.0))

  pub fail_instance-Agrees :
      (reason : String)
      → before.row.status ≡ pos 2
      → Ensures (λ _ u. Consistent x ctx.instance_id ctx.snapshot u) (fail_instance x ctx reason t)
  unfolding fail_instance append error_workflow step on_errored InstanceRow_into_model
      WorkflowStatus.from_i16 change_instances append_event
  fail_instance-Agrees reason e =
      let later = (error_workflow ctx.instance_id t).1 in
      (Agrees-instance x ctx.instance_id ctx.snapshot before _ later.instances
        (record (replayed x ctx.instance_id ctx.snapshot t.events).instance {
          status = WorkflowStatus.errored;
        })
        (moved (pos 4) t.now before.row)
        (replayed-append x ctx.instance_id ctx.snapshot ctx.tenant_id ctx.facility_id
          EventType.errored _ none later)
        (row_at (pos 2) (moved (pos 4) t.now) (λ r. refl) e) refl (λ q. cc) (refl, before.same.1)).0

  -- After it the instance is active.
  pub resume-Agrees :
      (activity : ActivityInstance Time)
      → is_terminal (WorkflowStatus.from_i16 before.row.status) ≡ false
      → Ensures
          (λ _ u.
            (after : Consistent x ctx.instance_id ctx.snapshot u) × (after.row.status ≡ pos 2))
          (resume x ctx (WorkflowStatus.from_i16 before.row.status) activity t)
  unfolding resume append resume_from_returned_waiting append_event InstanceRow_into_model
      WorkflowStatus.from_i16 change_instances step on_resumed
  resume-Agrees activity h =
      elim (Bool-cases (is_waiting (WorkflowStatus.from_i16 before.row.status))) [
        | inr busy ↦ rw (busy, Ensures) (before, active_of before.row.status h before.begun busy)
        | inl waiting ↦
            let e = waiting_of before.row.status waiting in
            let later = (resume_from_returned_waiting ctx.instance_id t).1 in
            let (after, row) =
              Agrees-instance x ctx.instance_id ctx.snapshot before _ later.instances
                (record (replayed x ctx.instance_id ctx.snapshot t.events).instance {
                  status = WorkflowStatus.active;
                })
                (moved (pos 2) t.now before.row)
                (replayed-append x ctx.instance_id ctx.snapshot ctx.tenant_id ctx.facility_id
                  EventType.rework_resumed _ none later)
                (row_at (pos 6) (moved (pos 2) t.now) (λ r. refl) e) refl (λ q. cc)
                (refl, before.same.1) in
            rw (waiting, Ensures, won_at (pos 6) (moved (pos 2) t.now) (λ r. refl) e)
              (after, ap (λ r. r.status) row)
      ]

-- ===== src/Service/Agreement/Advance.antt =====
-- The next approval of an active instance: its row, its fact and the current activity.
use fusions.Shared.{
  String, Option, none, some, List, [], ◌∷◌, Bool, true, false, ◌≡◌, refl, ap, subst, sym, ◌∙◌,
  arith, if◌then◌else◌, ok,
}
use fusions.Shared.Int.{ℤ, pos, eq_ℤ, eq_ℤ_refl, i32_of}
use fusions.Core.EventType
use fusions.Core.NodeKind.{NodeKind}
use fusions.Core.WorkflowStatus
use fusions.Core.ActivityStatus
use fusions.Core.Config.{NodeConfig}
use fusions.Core.Node.{WorkflowNode, kind, kind_of, notification_of}
use fusions.Runtime.Replay.Model.{instantiated_activity_type}
use fusions.Store.External.{External, IsLawful}
use fusions.Store.Rows.{InstanceRow, ActivityRow_into_model, InstanceRow_into_model}
use fusions.Store.Tables.{Tables}
use fusions.Store.Scope.{parse_uuid}
use fusions.Store.Sql.{update_where}
use fusions.Store.Events.{append_event, next_seq}
use fusions.Store.Timers.{schedule_timer}
use fusions.Store.Instances.{is_at, change_instances, update_current_activity, pointed}
use fusions.Store.Activities.{insert_activity, new_activity}
use fusions.Service.Config.{WorkflowService, InstanceCtx}
use fusions.Service.Log.{append}
use fusions.Service.Schedule.{
  schedule_activity, schedule_timers, timer_if, deliver_if, scheduled_payload,
}
use fusions.Service.Outcome.{advance_to}
use fusions.Runtime.Guard.{Cel}
use fusions.Service.Run.{Ensures, Ensures-must_not, Ensures-attempt, Ensures-and_run}
use fusions.Service.Agreement.{Agrees, Consistent, replayed}
use fusions.Service.Agreement.Log.{replayed-append}
use fusions.Service.Agreement.Facts.{opened, step-scheduled}
use fusions.Service.Agreement.Instance.{change_instances-row}
use fusions.Service.Agreement.Changes.{Agrees-schedule}
use fusions.Service.Agreement.Silent.{Agrees-made}

no_notification : (c : NodeConfig) → kind_of c ≡ NodeKind.approval → notification_of c ≡ none
unfolding kind_of notification_of
no_notification c h = ground arith

module _ {Time J : Type 0} (x : External Time J) (ctx : InstanceCtx J)
    (changed instances : List (InstanceRow Time J)) (now : Time) where
  -- Agreement once the rows of the instances are `changed`; as yet they are `instances`.
  abbrev Pending : Tables Time J → Type 0
  Pending u =
      Agrees x ctx.instance_id ctx.snapshot u.events changed u.activities u.made
      × (u.instances ≡ instances)
      × (u.now ≡ now)

  Pending-if :
      (b : Bool) (u v : Tables Time J) → Pending u → Pending v → Pending (if b then u else v)
  Pending-if true u v h k = h
  Pending-if false u v h k = k

  timer_if-Pending :
      (aid name : String) (secs : Option ℤ) (u : Tables Time J)
      → Pending u
      → Ensures (λ _ v. Pending v) (timer_if x ctx aid name secs u)
  unfolding schedule_timer timer_if
  timer_if-Pending aid name none u h = h
  timer_if-Pending aid name (some secs) u h =
      Pending-if _ _ _ h ((Agrees-made x ctx.instance_id ctx.snapshot h.0).0, h.1, h.2)

  schedule_timers-Pending :
      (node : WorkflowNode) (aid : String) (u : Tables Time J)
      → Pending u
      → Ensures (λ _ v. Pending v) (schedule_timers x ctx node aid u)
  unfolding schedule_timers
  schedule_timers-Pending node aid u h =
      Ensures-and_run (λ _ v. Pending v) _ (timer_if x ctx aid _ _ u) _
        (timer_if-Pending aid _ _ u h)
        (λ _ v hv.
          Ensures-and_run (λ _ w. Pending w) _ (timer_if x ctx aid _ _ v) _
            (timer_if-Pending aid _ _ v hv) (λ _ w hw. timer_if-Pending aid _ _ w hw))

module _ {Time J : Type 0} (x : External Time J) (laws : IsLawful x) (cel : Cel J)
    (service : WorkflowService J) (ctx : InstanceCtx J) (t : Tables Time J)
    (before : Consistent x ctx.instance_id ctx.snapshot t) (node : WorkflowNode)
    (role : Option String) (round : ℤ) (is_approval : kind node ≡ NodeKind.approval)
    (active : before.row.status ≡ pos 2) (small : i32_of round ≡ round) where
  abbrev at_new : InstanceRow Time J → InstanceRow Time J
  at_new r = pointed (some (x.made_uuid t.made)) t.now r

  abbrev changed_rows : List (InstanceRow Time J)
  changed_rows = update_where (is_at ctx.instance_id (pos 2)) at_new t.instances

  abbrev inserted : Tables Time J
  inserted =
      (insert_activity x ctx.tenant_id ctx.instance_id node.id
        (instantiated_activity_type (kind node)) role round t).1

  abbrev logged : Tables Time J
  logged =
      append_event ctx.tenant_id ctx.facility_id ctx.instance_id (next_seq ctx.instance_id inserted)
        EventType.activity_scheduled
        (scheduled_payload x (x.made_uuid t.made) node.id (instantiated_activity_type (kind node))
          round role none)
        none inserted

  logged-Pending : Pending x ctx changed_rows t.instances t.now logged
  unfolding insert_activity append_event ActivityRow_into_model InstanceRow_into_model
      WorkflowStatus.from_i16 ActivityStatus.from_i16 change_instances
  logged-Pending =
      let p = replayed x ctx.instance_id ctx.snapshot t.events in
      let live : p.instance.status ≡ WorkflowStatus.active =
        before.same.0 ∙ ap WorkflowStatus.from_i16 active in
      (
        (Agrees-schedule x ctx.instance_id ctx.snapshot before _ changed_rows
            (record p.instance {
              current_activity_id = some (x.made_uuid t.made);
              status = WorkflowStatus.active;
            })
            (at_new before.row) (opened x ctx.snapshot (x.made_uuid t.made) node.id round role)
            (new_activity x ctx.tenant_id ctx.instance_id node.id
              (instantiated_activity_type (kind node)) role round t)
            laws
            (replayed-append x ctx.instance_id ctx.snapshot ctx.tenant_id ctx.facility_id
                EventType.activity_scheduled
                (scheduled_payload x (x.made_uuid t.made) node.id
                  (instantiated_activity_type (kind node)) round role none)
                none inserted
              ∙ step-scheduled x laws ctx.snapshot p (x.made_uuid t.made) node.id
                  (instantiated_activity_type (kind node)) round role _ t.now (rw live refl))
            (change_instances-row ctx.instance_id (λ r. eq_ℤ r.status (pos 2)) at_new t (λ r. refl)
                before.only
              ∙ ap (λ b. (if b then at_new before.row else before.row) ∷ [])
                  (ap (λ s. eq_ℤ s (pos 2)) active ∙ eq_ℤ_refl (pos 2)))
            refl before.begun (sym (ap WorkflowStatus.from_i16 active), (refl, before.same.1.1))
            (record {
              same_id = refl;
              same = (refl, (refl, (small, (refl, (refl, (refl, refl))))));
              small = small;
            })
            refl refl).0,
        refl,
        refl,
      )

  schedule-Pending :
      Ensures
        (λ a u. (a.id ≡ x.made_uuid t.made) × Pending x ctx changed_rows t.instances t.now u)
        (schedule_activity x service.config ctx node role round none t)
  unfolding schedule_activity append insert_activity ActivityRow_into_model deliver_if
  schedule-Pending = Ensures-must_not _ _ _ _ _ (λ _. Ensures-attempt _ _ _ _ (λ aid e.
      Ensures-and_run (λ _ u. Pending x ctx changed_rows t.instances t.now u) _
        (schedule_timers x ctx node aid logged) _
        (schedule_timers-Pending x ctx changed_rows t.instances t.now node aid logged
          logged-Pending)
        (λ _ u h. rw (no_notification node.config is_approval, deliver_if, Ensures) (refl, h))))

  made_of : (aid : String) → parse_uuid x (x.made_uuid t.made) ≡ ok aid → aid ≡ x.made_uuid t.made
  unfolding parse_uuid
  made_of aid e = ground (arith, laws.uuid_of-made t.made)

  -- The current activity set last, the instance agrees again.
  pointed-Consistent :
      (u : Tables Time J)
      → Pending x ctx changed_rows t.instances t.now u
      → Consistent x ctx.instance_id ctx.snapshot
          (update_current_activity ctx.instance_id (x.made_uuid t.made) u).1
  unfolding update_current_activity change_instances
  pointed-Consistent u h =
      subst
        (λ rows.
          Agrees x ctx.instance_id ctx.snapshot u.events
            (update_where (is_at ctx.instance_id (pos 2))
              (pointed (some (x.made_uuid t.made)) u.now) rows)
            u.activities u.made)
        (sym h.1)
        (subst
          (λ now.
            Agrees x ctx.instance_id ctx.snapshot u.events
              (update_where (is_at ctx.instance_id (pos 2))
                (pointed (some (x.made_uuid t.made)) now) t.instances)
              u.activities u.made)
          (sym h.2) h.0)

  pub advance_to-Agrees :
      Ensures
        (λ _ u. Consistent x ctx.instance_id ctx.snapshot u)
        (advance_to x cel service ctx node role round t)
  unfolding advance_to
  advance_to-Agrees =
      Ensures-and_run
        (λ a u. (a.id ≡ x.made_uuid t.made) × Pending x ctx changed_rows t.instances t.now u) _
        (schedule_activity x service.config ctx node role round none t) _ schedule-Pending
        (λ a u h. Ensures-attempt _ (parse_uuid x a.id) _ _ (λ aid e.
          subst
            (λ q.
              Consistent x ctx.instance_id ctx.snapshot
                (update_current_activity ctx.instance_id q u).1)
            (sym (made_of aid (subst (λ q. parse_uuid x q ≡ ok aid) h.0 e)))
            (pointed-Consistent u h.1)))

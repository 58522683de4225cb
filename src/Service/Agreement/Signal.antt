-- ===== src/Service/Agreement/Signal.antt =====
-- A signal to an instance of a domain-driven definition keeps the agreement of rows and log.
use mathlib.Core.List.{Memᴰ}
use fusions.Shared.{
  ℕ, String, Option, none, some, List, [], ◌∷◌, false, ◌≡◌, refl, ap, subst, sym, ◌∙◌, ok, filter,
  inl, inr, Bool-cases,
}
use fusions.Shared.Int.{pos, i32_of}
use fusions.Core.EventType
use fusions.Core.SignalType.{SignalType}
use fusions.Core.WorkflowStatus
use fusions.Core.WorkflowStatus.{is_terminal}
use fusions.Core.Outcome.{AdvanceOutcome, rework, advance, advance_multi, complete, error}
use fusions.Core.Definition.{WorkflowTransition}
use fusions.Core.Node.{WorkflowNode}
use fusions.Runtime.Guard.{Cel}
use fusions.Runtime.Resolve.{find_next_transition}
use fusions.Runtime.Advance.{decide_advance}
use fusions.Runtime.Advance.Targets.{decide_advance-rework}
use fusions.Runtime.Replay.Model.{ReplayedActivity}
use fusions.Runtime.Validate.{validate_domain_driven}
use fusions.Runtime.Validate.DomainDriven.{decide_advance-WaitsOrEnds}
use fusions.Store.External.{External, IsLawful}
use fusions.Store.Rows.{ActivityRow, ActivityRow_into_model}
use fusions.Store.Tables.{Tables}
use fusions.Store.Events.{append_event, next_seq}
use fusions.Store.Scope.{parse_uuid}
use fusions.Store.Activities.{of_instance}
use fusions.Service.Command.{SignalCommand}
use fusions.Service.Config.{WorkflowService, InstanceCtx, node_of}
use fusions.Service.Signal.{signal_result, is_assignment, check_signal_against_node}
use fusions.Service.Log.{append}
use fusions.Service.Complete.{complete_activity, apply_context_writes}
use fusions.Service.Handle.{
  log_review, resume, review_in, review, assign, act_on, handle_in, resolve_target_activity,
}
use fusions.Service.Run.{Ensures, Ensures-and_run, Ensures-attempt, Ensures-weaken, attempt}
use fusions.Service.Agreement.{Consistent, AgreesWith, replayed}
use fusions.Service.Agreement.Rows.{Aligned, Older, ids}
use fusions.Service.Agreement.Facts.{review_payload}
use fusions.Service.Agreement.Review.{review-Agrees, assign-Agrees}
use fusions.Service.Agreement.Silent.{apply_context_writes-Agrees, WithContext}
use fusions.Service.Agreement.Status.{resume-Agrees}
use fusions.Service.Agreement.Outcome.{apply_outcome-Agrees, IsRework}
use fusions.Service.Agreement.Target.{IsActiveRow, resolve_target_activity-IsActiveRow}

-- No edge hands work back to a node; a returned instance ends with that result.
abbrev pub NoHandBack : List WorkflowTransition → Type 0
NoHandBack transitions =
    (node : String) → find_next_transition transitions node SignalType.returned ≡ none

rework_of :
    {J : Type 0} (o : AdvanceOutcome J)
    → IsRework o
    → (target : String) × (role : Option String) × (o ≡ rework target role)
rework_of (rework target role) h = (target, role, refl)
rework_of (advance _ _) h = absurd h
rework_of (advance_multi _) h = absurd h
rework_of (complete _) h = absurd h
rework_of error h = absurd h

module _ {Time J : Type 0} (x : External Time J) where
  uuid_of_row :
      (made : ℕ) (rows : List (ActivityRow Time)) {r : ActivityRow Time}
      → IsLawful x
      → Older x made (ids rows)
      → Memᴰ r rows
      → x.uuid_of r.id ≡ some r.id
  uuid_of_row made [] laws w m = elim m [ ]
  uuid_of_row made (s ∷ rows) laws w (Memᴰ.head e) =
      let (k, lt, made_id) = w.0 in
      let own = ap (λ (q : ActivityRow Time). q.id) e ∙ made_id in
      subst (λ q. x.uuid_of q ≡ some q) (sym own) (laws.uuid_of-made k)
  uuid_of_row made (s ∷ rows) laws w (Memᴰ.tail m) = uuid_of_row made rows laws w.1 m

  small_round :
      (activities : List (ReplayedActivity Time)) (rows : List (ActivityRow Time))
      {r : ActivityRow Time}
      → Aligned x activities rows
      → Memᴰ r rows
      → i32_of r.round ≡ r.round
  small_round activities [] w m = elim m [ ]
  small_round [] (s ∷ rows) w m = absurd w
  small_round (a ∷ more) (s ∷ rows) w (Memᴰ.head e) =
      subst (λ (q : ActivityRow Time). i32_of q.round ≡ q.round) (sym e) w.0.small
  small_round (a ∷ more) (s ∷ rows) w (Memᴰ.tail m) = small_round more rows w.1 m

module _ {Time J : Type 0} (x : External Time J) (laws : IsLawful x) (cel : Cel J)
    (service : WorkflowService J) where
  module _ (ctx : InstanceCtx J) (domain : validate_domain_driven ctx.snapshot.nodes ≡ ok tt)
      (no_hand_back : NoHandBack ctx.snapshot.transitions) where
    no-IsRework :
        (node : String) (s : SignalType)
        → ¬ IsRework
            (decide_advance cel ctx.snapshot.nodes ctx.snapshot.transitions ctx.context node s).0
    no-IsRework node s h =
        let (target, role, e) = rework_of _ h in
        let (returned, host, edge) =
          decide_advance-rework cel ctx.snapshot.nodes ctx.snapshot.transitions ctx.context node s
            target role e in
        cc (edge.1, no_hand_back node)

    review_in-Agrees :
        (fuel : ℕ) (cmd : SignalCommand J) (t : Tables Time J)
        (before : Consistent x ctx.instance_id ctx.snapshot t) {r : ActivityRow Time}
        → Memᴰ r (filter (of_instance ctx.instance_id) t.activities)
        → r.status ≡ pos 2
        → is_assignment cmd.signal ≡ false
        → is_terminal (WorkflowStatus.from_i16 before.row.status) ≡ false
        → Ensures
            (λ _ u. Consistent x ctx.instance_id ctx.snapshot u)
            (review_in x cel service fuel cmd
              (WorkflowStatus.from_i16 before.row.status)
              (ActivityRow_into_model x.json.display r)
              ctx
              t)
    unfolding review_in log_review append ActivityRow_into_model
    review_in-Agrees fuel cmd t before {r} m active assigns alive =
        let own =
          uuid_of_row x t.made (filter (of_instance ctx.instance_id) t.activities) laws before.older
            m in
        let small =
          small_round x (replayed x ctx.instance_id ctx.snapshot t.events).activities
            (filter (of_instance ctx.instance_id) t.activities) before.aligned m in
        Ensures-and_run (λ _ u. AgreesWith x ctx.instance_id ctx.snapshot before.row u) _
          (complete_activity x ctx (ActivityRow_into_model x.json.display r)
            (signal_result cmd.signal) cmd.actor_user_id cmd.review_notes
            (append_event ctx.tenant_id ctx.facility_id ctx.instance_id (next_seq ctx.instance_id t)
              EventType.signal_received
              (review_payload x cmd.signal r.id cmd.actor_user_id cmd.review_notes)
              (some cmd.idempotency_key) t))
          _ (review-Agrees x laws ctx cmd t before m active own assigns)
          (λ _ u h.
            let same_status : WorkflowStatus.from_i16 h.0.row.status
                ≡ WorkflowStatus.from_i16 before.row.status =
              ap (λ q. WorkflowStatus.from_i16 q.status) h.1 in
            Ensures-and_run
              (λ _ v.
                (after : Consistent x ctx.instance_id ctx.snapshot v) × (after.row.status ≡ pos 2))
              _
              (resume x ctx (WorkflowStatus.from_i16 before.row.status)
                (ActivityRow_into_model x.json.display r) u)
              _
              (subst
                (λ status.
                  Ensures
                    (λ _ v.
                      (after : Consistent x ctx.instance_id ctx.snapshot v) × (after.row.status
                        ≡ pos 2))
                    (resume x ctx status (ActivityRow_into_model x.json.display r) u))
                same_status
                (resume-Agrees x laws ctx u h.0 (ActivityRow_into_model x.json.display r)
                  (ap is_terminal same_status ∙ alive)))
              (λ _ v k.
                apply_outcome-Agrees x laws cel service ctx fuel _ _ _ _ v k.0
                  (decide_advance-WaitsOrEnds cel ctx.snapshot.nodes ctx.snapshot.transitions
                    ctx.context r.activity_definition_id cmd.signal domain)
                  (no-IsRework r.activity_definition_id cmd.signal) k.1 small))

  module _ (ctx : InstanceCtx J) (domain : validate_domain_driven ctx.snapshot.nodes ≡ ok tt)
      (no_hand_back : NoHandBack ctx.snapshot.transitions) where
    -- A review with its write to the context.
    review-Consistent :
        (fuel : ℕ) (cmd : SignalCommand J) (t : Tables Time J)
        (before : Consistent x ctx.instance_id ctx.snapshot t) {r : ActivityRow Time}
        (node : WorkflowNode)
        → Memᴰ r (filter (of_instance ctx.instance_id) t.activities)
        → r.status ≡ pos 2
        → is_assignment cmd.signal ≡ false
        → is_terminal (WorkflowStatus.from_i16 before.row.status) ≡ false
        → Ensures
            (λ _ u. Consistent x ctx.instance_id ctx.snapshot u)
            (review x cel service fuel ctx cmd
              (WorkflowStatus.from_i16 before.row.status)
              (ActivityRow_into_model x.json.display r)
              node
              t)
    unfolding review
    review-Consistent fuel cmd t before {r} node m active assigns alive =
        Ensures-and_run (λ ctx' u. WithContext x ctx before.row t.activities ctx' u) _
          (apply_context_writes x ctx node (ActivityRow_into_model x.json.display r).round
            cmd.context_patch t)
          _
          (apply_context_writes-Agrees x ctx node (ActivityRow_into_model x.json.display r).round
            cmd.context_patch t before)
          (λ ctx' u h.
            let (context, same_ctx, same_rows, mid, same_number) = h in
            let same_status : WorkflowStatus.from_i16 mid.row.status
                ≡ WorkflowStatus.from_i16 before.row.status =
              ap WorkflowStatus.from_i16 same_number in
            subst
              (λ c.
                Ensures (λ _ v. Consistent x ctx.instance_id ctx.snapshot v)
                  (review_in x cel service fuel cmd (WorkflowStatus.from_i16 before.row.status)
                    (ActivityRow_into_model x.json.display r) c u))
              (sym same_ctx)
              (subst
                (λ status.
                  Ensures (λ _ v. Consistent x ctx.instance_id ctx.snapshot v)
                    (review_in x cel service fuel cmd status
                      (ActivityRow_into_model x.json.display r) (record ctx { context = context })
                      u))
                same_status
                (review_in-Agrees (record ctx { context = context }) domain no_hand_back fuel cmd u
                  mid
                  (subst (λ rows. Memᴰ r (filter (of_instance ctx.instance_id) rows))
                    (sym same_rows) m)
                  active assigns (ap is_terminal same_status ∙ alive))))

    act_on-Consistent :
        (fuel : ℕ) (cmd : SignalCommand J) (t : Tables Time J)
        (before : Consistent x ctx.instance_id ctx.snapshot t) {r : ActivityRow Time}
        → Memᴰ r (filter (of_instance ctx.instance_id) t.activities)
        → r.status ≡ pos 2
        → is_terminal (WorkflowStatus.from_i16 before.row.status) ≡ false
        → Ensures
            (λ _ u. Consistent x ctx.instance_id ctx.snapshot u)
            (act_on x cel service fuel cmd
              (WorkflowStatus.from_i16 before.row.status)
              ctx
              (ActivityRow_into_model x.json.display r)
              t)
    unfolding act_on ActivityRow_into_model parse_uuid attempt
    act_on-Consistent fuel cmd t before {r} m active alive =
        let own =
          uuid_of_row x t.made (filter (of_instance ctx.instance_id) t.activities) laws before.older
            m in
        rw (own, Ensures)
          (Ensures-attempt _ (node_of ctx r.activity_definition_id) t _ (λ node found.
            Ensures-attempt _ (check_signal_against_node node cmd.signal cmd.event_type) t _
              (λ _ fits. elim (Bool-cases (is_assignment cmd.signal)) [
                | inl assigns ↦
                    rw (assigns, Ensures)
                      (Ensures-weaken
                        (λ _ u. AgreesWith x ctx.instance_id ctx.snapshot before.row u) _
                        (assign x ctx cmd (ActivityRow_into_model x.json.display r) r.id t)
                        (assign-Agrees x laws ctx cmd t before m active assigns) (λ _ u h. h.0))
                | inr reviews ↦
                    rw (reviews, Ensures)
                      (review-Consistent fuel cmd t before node m active reviews alive)
              ])))

    pub handle_in-Consistent :
        (fuel : ℕ) (cmd : SignalCommand J) (t : Tables Time J)
        (before : Consistent x ctx.instance_id ctx.snapshot t)
        → cmd.instance_id ≡ ctx.instance_id
        → is_terminal (WorkflowStatus.from_i16 before.row.status) ≡ false
        → Ensures
            (λ _ u. Consistent x ctx.instance_id ctx.snapshot u)
            (handle_in x cel service fuel cmd (WorkflowStatus.from_i16 before.row.status) ctx t)
    unfolding handle_in
    handle_in-Consistent fuel cmd t before own alive =
        Ensures-and_run (λ a u. (u ≡ t) × IsActiveRow x ctx.instance_id t.activities a) _
          (resolve_target_activity x cmd.instance_id cmd.activity_id t) _
          (subst
            (λ i.
              Ensures (λ a u. (u ≡ t) × IsActiveRow x ctx.instance_id t.activities a)
                (resolve_target_activity x i cmd.activity_id t))
            (sym own) (resolve_target_activity-IsActiveRow x ctx.instance_id cmd.activity_id t))
          (λ a u h.
            let (same, (r, m, read, active)) = h in
            subst
              (λ b.
                Ensures (λ _ v. Consistent x ctx.instance_id ctx.snapshot v)
                  (act_on x cel service fuel cmd (WorkflowStatus.from_i16 before.row.status) ctx b
                    u))
              (sym read)
              (subst
                (λ v.
                  Ensures (λ _ w. Consistent x ctx.instance_id ctx.snapshot w)
                    (act_on x cel service fuel cmd (WorkflowStatus.from_i16 before.row.status) ctx
                      (ActivityRow_into_model x.json.display r) v))
                (sym same) (act_on-Consistent fuel cmd t before m active alive)))

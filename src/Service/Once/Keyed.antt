-- ===== src/Service/Once/Keyed.antt =====
-- The handling of a signal in crates/hetuflow-service/src/service.rs leaves the idempotency key of the
-- signal in the log.
use fusions.Shared.{
  ℕ, String, Option, some, List, [], ◌∷◌, ◌++◌, Bool, true, ◌≡◌, refl, subst, arith, any,
  Bool-cases, inl, inr, eq_refl,
}
use fusions.Shared.Int.{ℤ}
use fusions.Core.Node.{WorkflowNode}
use fusions.Core.Definition.{ActivityInstance, WorkflowInstance}
use fusions.Core.WorkflowStatus.{WorkflowStatus}
use fusions.Runtime.Guard.{Cel}
use fusions.Store.External.{External}
use fusions.Store.Tables.{Tables}
use fusions.Store.Events.{idempotency_seen, append_event, has_key}
use fusions.Store.Activities.{update_activity_assignee, change_activities}
use fusions.Service.Command.{SignalCommand}
use fusions.Service.Config.{WorkflowService, InstanceCtx}
use fusions.Service.Signal.{is_assignment}
use fusions.Service.Log.{append, reload}
use fusions.Service.Complete.{apply_context_writes, write_context}
use fusions.Service.Handle.{log_review, review_in, review, assign, act_on, handle_in, handle}
use fusions.Service.Run.{
  Run, done, failed, exhausted, Ensures, Ensures-and_run, Ensures-attempt, Ensures-or_fail,
  Ensures-to_run,
}
use fusions.Service.Agreement.Handle.{ctx_of-names}
use fusions.Service.Once.{Later, Later-trans, Later-same, append_event-Later, Adds, Adds-and_run}
use fusions.Service.Once.Steps.{
  complete_activity-Adds, apply_context_writes-Adds, resume-Adds, resolve_target_activity-Adds,
}
use fusions.Service.Once.Outcome.{apply_outcome-Adds}

Ensures-both {ℓ κ μ} :
    {S : Type 0} {A : Type ℓ} (P : A → S → Type κ) (Q : A → S → Type μ) (r : Run S A)
    → Ensures P r
    → Ensures Q r
    → Ensures (λ a s. P a s × Q a s) r
Ensures-both P Q (done a s) h k = (h, k)
Ensures-both P Q (failed e) h k = tt
Ensures-both P Q exhausted h k = tt

any-last :
    {R : Type 0} (q : R → Bool) (rs : List R) (r : R) → q r ≡ true → any q (rs ++ r ∷ []) ≡ true
unfolding any
any-last q [] r h = ground arith
any-last q (s ∷ rs) r h = ground (arith, any-last q rs r h)

module _ {Time J : Type 0} (x : External Time J) where
  -- The run adds to the tables, and the key is in the log of the instance after it.
  abbrev pub Keyed {ℓ} :
      {A : Type ℓ} → String → String → Tables Time J → Run (Tables Time J) A → Type 0
  Keyed id key t r = Ensures (λ _ u. Later x t u × (idempotency_seen id key u ≡ true)) r

  Keyed-after {ℓ} :
      {A : Type ℓ} (id key : String) (t u : Tables Time J) (r : Run (Tables Time J) A)
      → Later x t u
      → idempotency_seen id key u ≡ true
      → Adds x u r
      → Keyed id key t r
  Keyed-after id key t u (done a s) h seen k = (Later-trans x t u s h k, k.seen id key seen)
  Keyed-after id key t u (failed e) h seen k = tt
  Keyed-after id key t u exhausted h seen k = tt

  Keyed-from {ℓ} :
      {A : Type ℓ} (id key : String) (t u : Tables Time J) (r : Run (Tables Time J) A)
      → Later x t u
      → Keyed id key u r
      → Keyed id key t r
  Keyed-from id key t u (done a s) h k = (Later-trans x t u s h k.0, k.1)
  Keyed-from id key t u (failed e) h k = tt
  Keyed-from id key t u exhausted h k = tt

  append_event-seen :
      (tenant : ℤ) (facility id : String) (seq : ℤ) (type : String) (payload : J) (key : String)
      (t : Tables Time J)
      → idempotency_seen id key (append_event tenant facility id seq type payload (some key) t)
        ≡ true
  unfolding idempotency_seen append_event
  append_event-seen tenant facility id seq type payload key t =
      any-last (has_key id key) t.events _ (rw (eq_refl id, eq_refl key) refl)

  write_context-same_id :
      (ctx : InstanceCtx J) (node : WorkflowNode) (round : ℤ) (patch : Option J)
      (keys : List String) (t : Tables Time J)
      → Ensures
          (λ (c : InstanceCtx J) _. c.instance_id ≡ ctx.instance_id)
          (write_context x ctx node round patch keys t)
  unfolding append
  write_context-same_id ctx node round patch [] t = refl
  write_context-same_id ctx node round patch (key ∷ keys) t =
      Ensures-attempt _ _ t _ (λ given _.
        Ensures-attempt _ _ t _ (λ filtered _. Ensures-to_run _ _ _ (λ merged u _. refl)))

  assign-Keyed :
      (ctx : InstanceCtx J) (cmd : SignalCommand J) (activity : ActivityInstance Time) (id : String)
      (t : Tables Time J)
      → Keyed ctx.instance_id cmd.idempotency_key t (assign x ctx cmd activity id t)
  unfolding assign append update_activity_assignee change_activities
  assign-Keyed ctx cmd activity id t =
      let t' = (update_activity_assignee id cmd.assignee_id t).1 in
      (
        Later-trans x t t' _ (Later-same x t t' refl refl) (append_event-Later x _ _ _ _ _ _ _ t'),
        append_event-seen _ _ ctx.instance_id _ _ _ cmd.idempotency_key t',
      )

module _ {Time J : Type 0} (x : External Time J) (cel : Cel J) (service : WorkflowService J) where
  review_in-Keyed :
      (fuel : ℕ) (cmd : SignalCommand J) (status : WorkflowStatus)
      (activity : ActivityInstance Time) (ctx : InstanceCtx J) (t : Tables Time J)
      → Keyed x ctx.instance_id cmd.idempotency_key t
          (review_in x cel service fuel cmd status activity ctx t)
  unfolding review_in log_review append
  review_in-Keyed fuel cmd status activity ctx t =
      Keyed-after x ctx.instance_id cmd.idempotency_key t _ _ (append_event-Later x _ _ _ _ _ _ _ t)
        (append_event-seen x _ _ ctx.instance_id _ _ _ cmd.idempotency_key t)
        (Adds-and_run x _ _ _ (complete_activity-Adds x ctx activity _ _ _ _) (λ _ u.
          Adds-and_run x u _ _ (resume-Adds x ctx status activity u)
            (λ _ v. apply_outcome-Adds x cel service fuel ctx _ _ activity activity.round v)))

  review-Keyed :
      (fuel : ℕ) (ctx : InstanceCtx J) (cmd : SignalCommand J) (status : WorkflowStatus)
      (activity : ActivityInstance Time) (node : WorkflowNode) (t : Tables Time J)
      → Keyed x ctx.instance_id cmd.idempotency_key t
          (review x cel service fuel ctx cmd status activity node t)
  unfolding review apply_context_writes
  review-Keyed fuel ctx cmd status activity node t =
      Ensures-and_run (λ c u. Later x t u × (c.instance_id ≡ ctx.instance_id)) _
        (apply_context_writes x ctx node activity.round cmd.context_patch t) _
        (Ensures-both _ _ _
          (apply_context_writes-Adds x ctx node activity.round cmd.context_patch t)
          (write_context-same_id x ctx node activity.round cmd.context_patch node.context_writes t))
        (λ c u h.
          subst
            (λ id.
              Keyed x id cmd.idempotency_key t
                (review_in x cel service fuel cmd status activity c u))
            h.1
            (Keyed-from x c.instance_id cmd.idempotency_key t u _ h.0
              (review_in-Keyed fuel cmd status activity c u)))

  act_on-Keyed :
      (fuel : ℕ) (cmd : SignalCommand J) (status : WorkflowStatus) (ctx : InstanceCtx J)
      (activity : ActivityInstance Time) (t : Tables Time J)
      → Keyed x ctx.instance_id cmd.idempotency_key t
          (act_on x cel service fuel cmd status ctx activity t)
  unfolding act_on
  act_on-Keyed fuel cmd status ctx activity t = Ensures-attempt _ _ t _ (λ id _.
      Ensures-attempt _ _ t _ (λ node _. Ensures-attempt _ _ t _ (λ _ _.
        elim (Bool-cases (is_assignment cmd.signal)) [
          | inl e ↦ rw (e, Ensures) (assign-Keyed x ctx cmd activity id t)
          | inr e ↦ rw (e, Ensures) (review-Keyed fuel ctx cmd status activity node t)
        ])))

  handle_in-Keyed :
      (fuel : ℕ) (cmd : SignalCommand J) (status : WorkflowStatus) (ctx : InstanceCtx J)
      (t : Tables Time J)
      → Keyed x ctx.instance_id cmd.idempotency_key t
          (handle_in x cel service fuel cmd status ctx t)
  unfolding handle_in
  handle_in-Keyed fuel cmd status ctx t =
      Ensures-and_run (λ _ u. Later x t u) _ _ _
        (resolve_target_activity-Adds x cmd.instance_id cmd.activity_id t)
        (λ activity u h.
          Keyed-from x ctx.instance_id cmd.idempotency_key t u _ h
            (act_on-Keyed fuel cmd status ctx activity u))

  pub handle-Keyed :
      (fuel : ℕ) (cmd : SignalCommand J) (instance : WorkflowInstance Time J) (t : Tables Time J)
      → Keyed x cmd.instance_id cmd.idempotency_key t (handle x cel service fuel cmd instance t)
  unfolding handle reload
  handle-Keyed fuel cmd instance t = Ensures-attempt _ _ t _ (λ s loaded.
      Ensures-attempt _ _ t _ (λ ctx made.
        let (same_id, named) = ctx_of-names x cmd.instance_id instance s made in
        Ensures-and_run
          (λ _ u. Later x t u × (idempotency_seen cmd.instance_id cmd.idempotency_key u ≡ true)) _ _
          _
          (subst
            (λ id.
              Keyed x id cmd.idempotency_key t
                (handle_in x cel service fuel cmd instance.status ctx t))
            same_id (handle_in-Keyed fuel cmd instance.status ctx t))
          (λ _ u h. Ensures-or_fail _ _ _ u _ (λ after shown. h))))

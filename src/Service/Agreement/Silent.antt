-- ===== src/Service/Agreement/Silent.antt =====
-- What leaves the agreement alone: facts that the replay ignores, deliveries, timers and the context.
use fusions.Shared.{
  ℕ, suc, String, Option, none, some, List, [], ◌∷◌, Bool, true, false, ◌==◌, ◌≡◌, refl, ap, subst,
  sym, ◌∙◌, arith, filter, Bool-cases, inl, inr, if◌then◌else◌, ok,
}
use fusions.Shared.Int.{ℤ}
use fusions.Core.EventType
use fusions.Core.WorkflowResult.{WorkflowResult}
use fusions.Core.Definition.{DefinitionSnapshot, ActivityInstance}
use fusions.Core.Node.{WorkflowNode}
use fusions.Runtime.Guard.{Cel}
use fusions.Runtime.Replay.Model.{ReplayedProjection}
use fusions.Runtime.Replay.Fold.{step}
use fusions.Store.External.{External}
use fusions.Store.Rows.{InstanceRow, EventRow, ActivityRow, InstanceRow_into_model}
use fusions.Store.Tables.{Tables}
use fusions.Store.Sql.{update_where}
use fusions.Store.Sql.Laws.{filter-update_where}
use fusions.Store.Events.{append_event, next_seq}
use fusions.Store.Instances.{
  has_id, change_instances, merge_instance_context, returned_context, context_merged,
}
use fusions.Store.Outbox.{enqueue_outbox}
use fusions.Store.Timers.{schedule_timer}
use fusions.Service.Command.{TerminalCallback}
use fusions.Service.Registry.{Handler}
use fusions.Service.Config.{WorkflowService, InstanceCtx}
use fusions.Service.Log.{append}
use fusions.Service.Finish.{run_callback, terminal_callback, enqueue_callback, is_approved}
use fusions.Service.Complete.{apply_context_writes, write_context}
use fusions.Service.Outcome.{log_merge, log_merges}
use fusions.Service.Run.{
  Run, done, failed, exhausted, Action, and_run, Ensures, Ensures-or_fail, Ensures-attempt,
  Ensures-to_run,
}
use fusions.Service.Agreement.{Agrees, Consistent, AgreesWith, replayed}
use fusions.Service.Agreement.Rows.{Older-suc}
use fusions.Service.Agreement.Log.{replayed-append}
use fusions.Service.Agreement.Changes.{Agrees-instance}

module _ {Time J : Type 0} (x : External Time J) (id : String) (snapshot : DefinitionSnapshot) where
  -- The database has made one more id.
  pub Agrees-made :
      {events : List (EventRow Time J)} {instances : List (InstanceRow Time J)}
      {activities : List (ActivityRow Time)} {made : ℕ}
      (before : Agrees x id snapshot events instances activities made)
      → (after : Agrees x id snapshot events instances activities (suc made)) × (after.row
          ≡ before.row)
  Agrees-made {made = made} before = (
    record {
      row = before.row;
      only = before.only;
      bound = before.bound;
      begun = before.begun;
      same = before.same;
      aligned = before.aligned;
      distinct = before.distinct;
      older = Older-suc x made _ before.older;
    },
    refl,
  )

  AgreesWith-if :
      (row : InstanceRow Time J) (b : Bool) (t u : Tables Time J)
      → AgreesWith x id snapshot row t
      → AgreesWith x id snapshot row u
      → AgreesWith x id snapshot row (if b then t else u)
  AgreesWith-if row true t u h k = h
  AgreesWith-if row false t u h k = k

  -- One action after another.
  pub Ensures-then :
      {A B : Type 0} (row : InstanceRow Time J) (r : Run (Tables Time J) A)
      (f : A → Action Time J B)
      → Ensures (λ _ t. AgreesWith x id snapshot row t) r
      → ((a : A) (t : Tables Time J) (mid : Consistent x id snapshot t)
          → Ensures (λ _ u. AgreesWith x id snapshot mid.row u) (f a t))
      → Ensures (λ _ u. AgreesWith x id snapshot row u) (and_run r f)
  Ensures-then row (done a t) f (mid, e) h =
      subst (λ q. Ensures (λ _ u. AgreesWith x id snapshot q u) (f a t)) e (h a t mid)
  Ensures-then row (failed e) f h k = tt
  Ensures-then row exhausted f h k = tt

  pub enqueue_outbox-Agrees :
      (tenant : ℤ) (facility instance activity type : String) (payload : J) (t : Tables Time J)
      (before : Consistent x id snapshot t)
      → AgreesWith x id snapshot before.row
          (enqueue_outbox x tenant facility instance activity type payload t)
  unfolding enqueue_outbox
  enqueue_outbox-Agrees tenant facility instance activity type payload t before =
      AgreesWith-if before.row _ _ _ (before, refl) (Agrees-made before)

  pub schedule_timer-Agrees :
      (tenant : ℤ) (facility instance activity type : String) (seconds : ℤ) (t : Tables Time J)
      (before : Consistent x id snapshot t)
      → AgreesWith x id snapshot before.row
          (schedule_timer x tenant facility instance activity type seconds t)
  unfolding schedule_timer
  schedule_timer-Agrees tenant facility instance activity type seconds t before =
      AgreesWith-if before.row _ _ _ (before, refl) (Agrees-made before)

  -- A fact of a type that `fold_events` passes over.
  pub silent-Agrees :
      (tenant : ℤ) (facility type : String) (payload : J) (key : Option String) (t : Tables Time J)
      (before : Consistent x id snapshot t)
      → ((s : ReplayedProjection Time) (seq : ℤ) (now : Time)
          → step x.json snapshot s
              (record { seq = seq; event_type = type; payload = payload; created_at = now })
            ≡ s)
      → AgreesWith x id snapshot before.row
          (append_event tenant facility id (next_seq id t) type payload key t)
  unfolding append_event
  silent-Agrees tenant facility type payload key t before h =
      Agrees-instance x id snapshot before _ t.instances (replayed x id snapshot t.events).instance
        before.row
        (replayed-append x id snapshot tenant facility type payload key t
          ∙ h (replayed x id snapshot t.events) (next_seq id t) t.now)
        before.only refl before.begun before.same

module _ {Time J : Type 0} (x : External Time J) (cel : Cel J) (service : WorkflowService J)
    (ctx : InstanceCtx J) where
  log_merge-Agrees :
      (source : ActivityInstance Time) (round : ℤ) (m : String) (t : Tables Time J)
      (before : Consistent x ctx.instance_id ctx.snapshot t)
      → Ensures
          (λ _ u. AgreesWith x ctx.instance_id ctx.snapshot before.row u)
          (log_merge x cel service ctx source round m t)
  unfolding append step
  log_merge-Agrees source round m t before =
      silent-Agrees x ctx.instance_id ctx.snapshot ctx.tenant_id ctx.facility_id
        EventType.merge_passed _ none t before (λ s seq now. refl)

  pub log_merges-Agrees :
      (source : ActivityInstance Time) (round : ℤ) (ms : List String) (t : Tables Time J)
      (before : Consistent x ctx.instance_id ctx.snapshot t)
      → Ensures
          (λ _ u. AgreesWith x ctx.instance_id ctx.snapshot before.row u)
          (log_merges x cel service ctx source round ms t)
  unfolding log_merges
  log_merges-Agrees source round [] t before = (before, refl)
  log_merges-Agrees source round (m ∷ ms) t before =
      Ensures-then x ctx.instance_id ctx.snapshot before.row
        (log_merge x cel service ctx source round m t)
        (λ _. log_merges x cel service ctx source round ms)
        (log_merge-Agrees source round m t before)
        (λ _ u mid. log_merges-Agrees source round ms u mid)

module _ {Time J : Type 0} (x : External Time J) (registry : List (String × Handler J))
    (ctx : InstanceCtx J) where
  enqueue_callback-Agrees :
      (tc : Option (TerminalCallback J)) (t : Tables Time J)
      (before : Consistent x ctx.instance_id ctx.snapshot t)
      → Ensures
          (λ _ u. AgreesWith x ctx.instance_id ctx.snapshot before.row u)
          (enqueue_callback x registry ctx tc t)
  enqueue_callback-Agrees none t before = (before, refl)
  enqueue_callback-Agrees (some tc) t before = Ensures-or_fail _ _ _ _ _ (λ anchor _.
      Ensures-or_fail _ _ _ _ _ (λ handler _. Ensures-or_fail _ _ _ _ _ (λ value _.
        Ensures-attempt _ _ _ _ (λ aid _.
          enqueue_outbox-Agrees x ctx.instance_id ctx.snapshot ctx.tenant_id ctx.facility_id
            ctx.instance_id aid _ value t before))))

  pub run_callback-Agrees :
      (result : WorkflowResult) (t : Tables Time J)
      (before : Consistent x ctx.instance_id ctx.snapshot t)
      → Ensures
          (λ _ u. AgreesWith x ctx.instance_id ctx.snapshot before.row u)
          (run_callback x registry ctx result t)
  unfolding run_callback terminal_callback
  run_callback-Agrees result t before = elim (Bool-cases (is_approved result)) [
    | inl yes_approved ↦
        rw (yes_approved, Ensures)
          (Ensures-attempt _ _ _ _ (λ tc _. enqueue_callback-Agrees tc t before))
    | inr not_approved ↦ rw (not_approved, Ensures) (before, refl)
  ]

has_id-row :
    {Time J : Type 0} (id : String) (rows : List (InstanceRow Time J)) {row : InstanceRow Time J}
    {more : List (InstanceRow Time J)}
    → filter (has_id id) rows ≡ row ∷ more
    → (row.id == id) ≡ true
unfolding filter
has_id-row id [] h = cc
has_id-row id (r ∷ rows) {row = row} {more = more} h =
    ground (arith, has_id-row id rows {row = row} {more = more})

-- The context has no part in the agreement, so it may change from one action to the next.
abbrev pub WithContext :
    {Time J : Type 0}
    → External Time J
    → InstanceCtx J
    → InstanceRow Time J
    → List (ActivityRow Time)
    → InstanceCtx J
    → Tables Time J
    → Type 0
WithContext {J = J} x ctx row activities ctx' t =
    (context : Option J) × (ctx' ≡ record ctx { context = context })
    × (t.activities ≡ activities)
    × (after : Consistent x ctx.instance_id ctx.snapshot t) × (after.row.status ≡ row.status)

module _ {Time J : Type 0} (x : External Time J) (ctx : InstanceCtx J) where
  merge_instance_context-Agrees :
      (patch : J) (t : Tables Time J) (before : Consistent x ctx.instance_id ctx.snapshot t)
      → (after : Consistent x ctx.instance_id ctx.snapshot
          (change_instances (has_id ctx.instance_id) (context_merged x patch t.now) t).1)
        × (after.row.status ≡ before.row.status)
  unfolding change_instances InstanceRow_into_model update_where
  merge_instance_context-Agrees patch t before =
      let (after, e) =
        Agrees-instance x ctx.instance_id ctx.snapshot before t.events _
          (replayed x ctx.instance_id ctx.snapshot t.events).instance
          (context_merged x patch t.now before.row) refl
          (filter-update_where (has_id ctx.instance_id) (has_id ctx.instance_id)
              (context_merged x patch t.now) t.instances (λ r. refl)
            ∙ (ap (update_where (has_id ctx.instance_id) (context_merged x patch t.now)) before.only
                ∙ ap (λ b. (if b then context_merged x patch t.now before.row else before.row) ∷ [])
                    (has_id-row ctx.instance_id t.instances before.only)))
          refl before.begun before.same in
      (after, ap (λ r. r.status) e)

  returned_context-state :
      (found : Option (InstanceRow Time J)) (t u : Tables Time J) (merged : J)
      → returned_context x found t ≡ ok (merged, u)
      → u ≡ t
  returned_context-state found t u merged h = ground arith

  write_context-Agrees :
      (node : WorkflowNode) (round : ℤ) (patch : Option J) (keys : List String) (t : Tables Time J)
      (before : Consistent x ctx.instance_id ctx.snapshot t)
      → Ensures
          (λ ctx' u. WithContext x ctx before.row t.activities ctx' u)
          (write_context x ctx node round patch keys t)
  unfolding merge_instance_context append step append_event change_instances
  write_context-Agrees node round patch [] t before = (ctx.context, refl, refl, before, refl)
  write_context-Agrees node round patch (key ∷ keys) t before = Ensures-attempt _ _ _ _ (λ given _.
      Ensures-attempt _ _ _ _ (λ filtered _. Ensures-to_run _ _ _ (λ merged u e.
        let u' =
          (change_instances (has_id ctx.instance_id)
            (context_merged x (x.object_value filtered) t.now) t).1 in
        let (mid, kept) = merge_instance_context-Agrees (x.object_value filtered) t before in
        let mid' : (after : Consistent x ctx.instance_id ctx.snapshot u) × (after.row.status
              ≡ before.row.status) =
          subst
            (λ v.
              (after : Consistent x ctx.instance_id ctx.snapshot v) × (after.row.status
                ≡ before.row.status))
            (sym (returned_context-state _ u' u merged e)) (mid, kept) in
        let (last, same) =
          silent-Agrees x ctx.instance_id ctx.snapshot ctx.tenant_id ctx.facility_id
            EventType.context_updated _ none u mid'.0 (λ s seq now. refl) in
        (
          some merged,
          refl,
          ap (λ v. v.activities) (returned_context-state _ u' u merged e),
          last,
          ap (λ r. r.status) same ∙ mid'.1,
        ))))

  pub apply_context_writes-Agrees :
      (node : WorkflowNode) (round : ℤ) (patch : Option J) (t : Tables Time J)
      (before : Consistent x ctx.instance_id ctx.snapshot t)
      → Ensures
          (λ ctx' u. WithContext x ctx before.row t.activities ctx' u)
          (apply_context_writes x ctx node round patch t)
  unfolding apply_context_writes
  apply_context_writes-Agrees node round patch t before =
      write_context-Agrees node round patch node.context_writes t before

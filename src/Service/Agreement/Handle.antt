-- ===== src/Service/Agreement/Handle.antt =====
-- `signal` and `verify_projection` of crates/hetuflow-service/src/service.rs: a signal to an instance of a
-- domain-driven definition keeps the check of the projection passing.
use fusions.Shared.{
  ℕ, String, Option, some, [], ◌∷◌, true, false, ◌≡◌, refl, ap, subst, sym, ◌∙◌, arith, ok, err,
  if◌then◌else◌, filter, find, ◌>>=◌, Bool-cases, inl, inr,
}
use fusions.Core.WorkflowStatus
use fusions.Core.WorkflowStatus.{is_terminal}
use fusions.Core.Error.{FlowResult, conflict, Message}
use fusions.Core.Payload.{ScopeFilter}
use fusions.Core.Definition.{WorkflowInstance, DefinitionSnapshot}
use fusions.Runtime.Guard.{Cel}
use fusions.Runtime.Validate.{validate_domain_driven}
use fusions.Store.External.{External, IsLawful}
use fusions.Store.Rows.{InstanceRow, InstanceRow_into_model}
use fusions.Store.Tables.{Tables}
use fusions.Store.Sql.Laws.{find-filter, find-&&}
use fusions.Store.Scope.{
  Scope, push_scope, in_scope, get_instance_scoped, found, load_instance_for_update_scoped,
  is_visible,
}
use fusions.Store.Instances.{has_id, load_snapshot}
use fusions.Store.Events.{idempotency_seen}
use fusions.Service.Command.{SignalCommand}
use fusions.Service.Config.{WorkflowService, InstanceCtx}
use fusions.Service.Log.{reload}
use fusions.Service.Handle.{handle_in, handle, ctx_of, signal, outcome_of}
use fusions.Service.Run.{
  Ensures, Ensures-and_run, Ensures-attempt, Ensures-or_fail, Ensures-must_not, must_not, ◌>>◌,
}
use fusions.Service.Agreement.{Consistent}
use fusions.Service.Agreement.Signal.{NoHandBack, handle_in-Consistent}

pub ctx_of-names :
    {Time J : Type 0} (x : External Time J) (id : String) (instance : WorkflowInstance Time J)
    (snapshot : DefinitionSnapshot) {c : InstanceCtx J}
    → ctx_of x id instance snapshot ≡ ok c
    → (c.instance_id ≡ id) × (c.snapshot ≡ snapshot)
unfolding ctx_of
ctx_of-names x id instance snapshot {c} h = ground arith

module _ {Time J : Type 0} (x : External Time J) where
  -- The instance that a scope shows is the one row of its id.
  found-only :
      (scope : Scope) (id : String) (t : Tables Time J) {row : InstanceRow Time J}
      {instance : WorkflowInstance Time J}
      → filter (has_id id) t.instances ≡ row ∷ []
      → found x scope id t ≡ some instance
      → instance ≡ InstanceRow_into_model x.json.display row
  unfolding find
  found-only scope id t {row} {instance} only h =
      let shown : find (is_visible x scope id) t.instances
          ≡ find (λ r. in_scope scope r.tenant_id r.facility_id) (row ∷ []) =
        find-&& (has_id id) (λ r. in_scope scope r.tenant_id r.facility_id) t.instances
        ∙ ap (find (λ r. in_scope scope r.tenant_id r.facility_id)) only in
      ground (arith, shown, h)

  loaded-only :
      (scope : ScopeFilter) (id : String) (t : Tables Time J) {row : InstanceRow Time J}
      {o : Option (WorkflowInstance Time J)} {instance : WorkflowInstance Time J}
      → filter (has_id id) t.instances ≡ row ∷ []
      → load_instance_for_update_scoped x scope id t ≡ ok o
      → o ≡ some instance
      → instance ≡ InstanceRow_into_model x.json.display row
  unfolding load_instance_for_update_scoped
  loaded-only scope id t {row} {o} {instance} only h e = scope_found (push_scope x scope) h
    where
      scope_found :
          (r : FlowResult Scope)
          → r >>= (λ s. ok (found x s id t)) ≡ ok o
          → instance ≡ InstanceRow_into_model x.json.display row
      scope_found (err _) h = ground arith
      scope_found (ok s) h = found-only s id t only (ground (arith, e))

  -- The same of the read that takes no lock.
  pub found_at-only :
      (scope : ScopeFilter) (id : String) (t : Tables Time J) {row : InstanceRow Time J}
      {instance : WorkflowInstance Time J}
      → filter (has_id id) t.instances ≡ row ∷ []
      → get_instance_scoped x scope id t ≡ ok (some instance)
      → instance ≡ InstanceRow_into_model x.json.display row
  unfolding load_instance_for_update_scoped get_instance_scoped
  found_at-only scope id t only h = loaded-only scope id t only h refl

  pub snapshot-only :
      (id : String) (t : Tables Time J) {row : InstanceRow Time J} {snapshot s : DefinitionSnapshot}
      → filter (has_id id) t.instances ≡ row ∷ []
      → x.snapshot_of row.definition_snapshot ≡ some snapshot
      → load_snapshot x id t ≡ ok s
      → s ≡ snapshot
  unfolding load_snapshot
  snapshot-only id t {row} only bound h =
      let read = find-filter (has_id id) t.instances only in ground (arith, read, bound)

module _ {Time J : Type 0} (x : External Time J) (laws : IsLawful x) (cel : Cel J)
    (service : WorkflowService J) where
  in_named-Consistent :
      (ctx : InstanceCtx J) (id : String) (snapshot : DefinitionSnapshot)
      → ctx.instance_id ≡ id
      → ctx.snapshot ≡ snapshot
      → validate_domain_driven snapshot.nodes ≡ ok tt
      → NoHandBack snapshot.transitions
      → (fuel : ℕ) (cmd : SignalCommand J) (t : Tables Time J) (before : Consistent x id snapshot t)
      → cmd.instance_id ≡ id
      → is_terminal (WorkflowStatus.from_i16 before.row.status) ≡ false
      → Ensures
          (λ _ u. Consistent x id snapshot u)
          (handle_in x cel service fuel cmd (WorkflowStatus.from_i16 before.row.status) ctx t)
  in_named-Consistent ctx id snapshot same_id same_snapshot =
      let Kept : String → DefinitionSnapshot → Type 0 = λ i s.
        validate_domain_driven s.nodes ≡ ok tt
        → NoHandBack s.transitions
        → (fuel : ℕ) (cmd : SignalCommand J) (t : Tables Time J) (before : Consistent x i s t)
        → cmd.instance_id ≡ i
        → is_terminal (WorkflowStatus.from_i16 before.row.status) ≡ false
        → Ensures (λ _ u. Consistent x i s u)
            (handle_in x cel service fuel cmd (WorkflowStatus.from_i16 before.row.status) ctx t) in
      subst (λ i. Kept i snapshot) same_id
        (subst (λ s. Kept ctx.instance_id s) same_snapshot
          (handle_in-Consistent x laws cel service ctx))

  module _ (snapshot : DefinitionSnapshot) (domain : validate_domain_driven snapshot.nodes ≡ ok tt)
      (no_hand_back : NoHandBack snapshot.transitions) where
    handle-Consistent :
        (fuel : ℕ) (cmd : SignalCommand J) (t : Tables Time J)
        (before : Consistent x cmd.instance_id snapshot t)
        → is_terminal (WorkflowStatus.from_i16 before.row.status) ≡ false
        → Ensures
            (λ _ u. Consistent x cmd.instance_id snapshot u)
            (handle x cel service fuel cmd (InstanceRow_into_model x.json.display before.row) t)
    unfolding handle reload InstanceRow_into_model
    handle-Consistent fuel cmd t before alive =
        Ensures-attempt _ (load_snapshot x cmd.instance_id t) t _ (λ s loaded.
          Ensures-attempt _
            (ctx_of x cmd.instance_id (InstanceRow_into_model x.json.display before.row) s) t _
            (λ ctx made.
              let (same_id, named) = ctx_of-names x cmd.instance_id _ s made in
              Ensures-and_run (λ _ u. Consistent x cmd.instance_id snapshot u) _
                (handle_in x cel service fuel cmd (WorkflowStatus.from_i16 before.row.status) ctx t)
                _
                (in_named-Consistent ctx cmd.instance_id snapshot same_id
                  (named ∙ snapshot-only x cmd.instance_id t before.only before.bound loaded) domain
                  no_hand_back fuel cmd t before refl alive)
                (λ _ u h. Ensures-or_fail _ _ _ u _ (λ instance shown. h))))

    begun-Consistent :
        (fuel : ℕ) (cmd : SignalCommand J) (t : Tables Time J)
        (before : Consistent x cmd.instance_id snapshot t)
        → Ensures
            (λ _ u. Consistent x cmd.instance_id snapshot u)
            ((if idempotency_seen cmd.instance_id cmd.idempotency_key t
                then outcome_of x cmd.instance_id
                    (InstanceRow_into_model x.json.display before.row)
                    true
                else (must_not
                      (is_terminal (InstanceRow_into_model x.json.display before.row).status)
                      (conflict (
                        Message.instance_terminal cmd.instance_id
                          (InstanceRow_into_model x.json.display before.row).status))
                    >> handle x cel service fuel cmd
                        (InstanceRow_into_model x.json.display before.row)))
              t)
    unfolding InstanceRow_into_model
    begun-Consistent fuel cmd t before =
        elim (Bool-cases (idempotency_seen cmd.instance_id cmd.idempotency_key t)) [
          | inl seen ↦ rw (seen, Ensures) before
          | inr new ↦
              rw (new, Ensures)
                (Ensures-must_not _ (is_terminal (WorkflowStatus.from_i16 before.row.status)) _ t _
                  (λ alive. handle-Consistent fuel cmd t before alive))
        ]

    pub signal-Consistent :
        (fuel : ℕ) (cmd : SignalCommand J) (t : Tables Time J)
        → Consistent x cmd.instance_id snapshot t
        → Ensures (λ _ u. Consistent x cmd.instance_id snapshot u) (signal x cel service fuel cmd t)
    unfolding signal
    signal-Consistent fuel cmd t before =
        Ensures-must_not _ (x.is_blank cmd.idempotency_key) _ t _ (λ given.
          Ensures-attempt _ (load_instance_for_update_scoped x cmd.scope cmd.instance_id t) t _
            (λ o loaded. Ensures-or_fail _ o _ t _ (λ instance shown.
              let read = loaded-only x cmd.scope cmd.instance_id t before.only loaded shown in
              subst
                (λ (i : WorkflowInstance Time J).
                  Ensures (λ _ u. Consistent x cmd.instance_id snapshot u)
                    ((if idempotency_seen cmd.instance_id cmd.idempotency_key t
                        then outcome_of x cmd.instance_id i true
                        else (must_not (is_terminal i.status)
                              (conflict (Message.instance_terminal cmd.instance_id i.status))
                            >> handle x cel service fuel cmd i))
                      t))
                (sym read) (begun-Consistent fuel cmd t before))))

-- ===== src/Service/Once/Signal.antt =====
-- `signal` of crates/hetuflow-service/src/service.rs under one idempotency key: the first call that is done
-- leaves the key in the log.
use fusions.Shared.{
  ℕ, String, Option, some, List, [], ◌∷◌, true, false, ok, err, ◌≡◌, refl, ap, ◌∙◌, arith, any,
  find, find-any, Bool-cases, inl, inr, ◌>>=◌,
}
use fusions.Core.Definition.{WorkflowInstance}
use fusions.Core.WorkflowStatus.{is_terminal}
use fusions.Core.Error.{FlowResult}
use fusions.Core.Payload.{ScopeFilter}
use fusions.Runtime.Guard.{Cel}
use fusions.Store.External.{External}
use fusions.Store.Rows.{InstanceRow, InstanceRow_into_model, map_some}
use fusions.Store.Tables.{Tables}
use fusions.Store.Scope.{Scope, push_scope, is_visible, found, load_instance_for_update_scoped}
use fusions.Store.Events.{idempotency_seen}
use fusions.Store.Activities.{active_activities}
use fusions.Service.Command.{SignalCommand, SignalOutcome}
use fusions.Service.Config.{WorkflowService}
use fusions.Service.Handle.{handle, signal}
use fusions.Service.Run.{
  done, Ensures, Ensures-attempt, Ensures-or_fail, Ensures-must_not, Ensures-done, Ensures-weaken,
}
use fusions.Service.Rounds.{signal-seen}
use fusions.Service.Once.{Later, Later-refl}
use fusions.Service.Once.Keyed.{handle-Keyed}

module _ {Time J : Type 0} (x : External Time J) where
  some-any :
      (s : Scope) (id : String) (rows : List (InstanceRow Time J)) (o : WorkflowInstance Time J)
      → map_some (InstanceRow_into_model x.json.display) (find (is_visible x s id) rows) ≡ some o
      → any (is_visible x s id) rows ≡ true
  unfolding find any
  some-any s id [] o h = absurd (ground arith)
  some-any s id (r ∷ rows) o h = ground (arith, some-any s id rows o)

  -- The scope still finds an instance.
  load-Later :
      (scope : ScopeFilter) (id : String) (t u : Tables Time J)
      {o : Option (WorkflowInstance Time J)} {instance : WorkflowInstance Time J}
      → Later x t u
      → load_instance_for_update_scoped x scope id t ≡ ok o
      → o ≡ some instance
      → (after : WorkflowInstance Time J) × (load_instance_for_update_scoped x scope id u
          ≡ ok (some after))
  unfolding load_instance_for_update_scoped
  load-Later scope id t u {o} {instance} l h e = in_scope_of (push_scope x scope) h
    where
      in_scope_of :
          (r : FlowResult Scope)
          → r >>= (λ s. ok (found x s id t)) ≡ ok o
          → (after : WorkflowInstance Time J) × (r >>= (λ s. ok (found x s id u)) ≡ ok (some after))
      in_scope_of (err _) k = absurd (ground arith)
      in_scope_of (ok s) k =
          let there : any (is_visible x s id) t.instances ≡ true =
            some-any s id t.instances instance (ground (arith, e)) in
          let (row, shown) = find-any (is_visible x s id) u.instances (l.shown s id there) in
          (InstanceRow_into_model x.json.display row, rw shown refl)

module _ {Time J : Type 0} (x : External Time J) (cel : Cel J) (service : WorkflowService J) where
  -- What the next call under the key meets.
  pub record Repeats (cmd : SignalCommand J) (u : Tables Time J) : Type 0 where
    pub given : x.is_blank cmd.idempotency_key ≡ false
    pub shown :
        (instance : WorkflowInstance Time J) × (load_instance_for_update_scoped x cmd.scope
            cmd.instance_id u
          ≡ ok (some instance))
    pub seen : idempotency_seen cmd.instance_id cmd.idempotency_key u ≡ true

  signal-Repeats :
      (fuel : ℕ) (cmd : SignalCommand J) (t : Tables Time J)
      → Ensures (λ _ u. Repeats cmd u) (signal x cel service fuel cmd t)
  unfolding signal
  signal-Repeats fuel cmd t = Ensures-must_not _ (x.is_blank cmd.idempotency_key) _ t _ (λ given.
      Ensures-attempt _ (load_instance_for_update_scoped x cmd.scope cmd.instance_id t) t _
        (λ o loaded. Ensures-or_fail _ o _ t _ (λ instance is_some.
          elim (Bool-cases (idempotency_seen cmd.instance_id cmd.idempotency_key t)) [
            | inl e ↦
                rw (e, Ensures)
                  (record {
                    given = given;
                    shown =
                        load-Later x cmd.scope cmd.instance_id t t (Later-refl x t) loaded is_some;
                    seen = e;
                  })
            | inr e ↦
                rw (e, Ensures)
                  (Ensures-must_not _ (is_terminal instance.status) _ t _ (λ alive.
                    Ensures-weaken _ _ (handle x cel service fuel cmd instance t)
                      (handle-Keyed x cel service fuel cmd instance t)
                      (λ _ u h. record {
                        given = given;
                        shown = load-Later x cmd.scope cmd.instance_id t u h.0 loaded is_some;
                        seen = h.1;
                      })))
          ])))

  repeated :
      (fuel : ℕ) (cmd cmd' : SignalCommand J) (u : Tables Time J)
      → cmd'.scope ≡ cmd.scope
      → cmd'.instance_id ≡ cmd.instance_id
      → cmd'.idempotency_key ≡ cmd.idempotency_key
      → Repeats cmd u
      → Repeats cmd' u
  repeated fuel cmd cmd' u scope id key r = record {
    given = ap x.is_blank key ∙ r.given;
    shown = (
      r.shown.0,
      ap (λ s. load_instance_for_update_scoped x s cmd'.instance_id u) scope
          ∙ (ap (λ i. load_instance_for_update_scoped x cmd.scope i u) id ∙ r.shown.1),
    );
    seen =
        ap (λ i. idempotency_seen i cmd'.idempotency_key u) id
        ∙ (ap (λ k. idempotency_seen cmd.instance_id k u) key ∙ r.seen);
  }

  -- Once a signal is done, in any definition, joins and fan-outs included, any signal to the same
  -- instance under the same scope and idempotency key, whatever it asks for and whatever the fuel, is
  -- done without any change and is marked as replayed: one key has its effect once.
  pub signal-once :
      (fuel fuel' : ℕ) (cmd cmd' : SignalCommand J) (t u : Tables Time J)
      {out : SignalOutcome Time J}
      → signal x cel service fuel cmd t ≡ done out u
      → cmd'.scope ≡ cmd.scope
      → cmd'.instance_id ≡ cmd.instance_id
      → cmd'.idempotency_key ≡ cmd.idempotency_key
      → (instance : WorkflowInstance Time J) × (signal x cel service fuel' cmd' u
          ≡ done
              (record {
                instance = instance;
                active_activities = active_activities x cmd'.instance_id u;
                replayed = true;
              })
              u)
  signal-once fuel fuel' cmd cmd' t u first scope id key =
      let r =
        repeated fuel cmd cmd' u scope id key
          (Ensures-done (λ _ v. Repeats cmd v) _ (signal-Repeats fuel cmd t) first) in
      (r.shown.0, signal-seen x cel service fuel' cmd' u r.given r.shown.1 r.seen)

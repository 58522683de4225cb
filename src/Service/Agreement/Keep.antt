-- ===== src/Service/Agreement/Keep.antt =====
-- What a signal of crates/hetuflow-service/src/service.rs comes to.
use fusions.Shared.{ℕ, suc, ◌≡◌, refl, ok, ◌⊎◌, inl, inr}
use fusions.Core.Error.{FlowError}
use fusions.Core.Definition.{DefinitionSnapshot}
use fusions.Runtime.Guard.{Cel}
use fusions.Runtime.Validate.{validate_domain_driven}
use fusions.Store.External.{External, IsLawful}
use fusions.Store.Tables.{Tables}
use fusions.Service.Command.{SignalCommand, SignalOutcome}
use fusions.Service.Config.{WorkflowService}
use fusions.Service.Handle.{signal}
use fusions.Service.Run.{Run, done, failed, exhausted, Ensures}
use fusions.Service.Agreement.{Consistent}
use fusions.Service.Agreement.Signal.{NoHandBack}
use fusions.Service.Agreement.Handle.{signal-Consistent}
use fusions.Service.Agreement.Verify.{load_snapshot-Consistent}
use fusions.Service.Termination.{Ends}
use fusions.Service.Termination.Signal.{signal-Ends}

-- A run that ends is an error, or done with what it ensures.
run-cases :
    {S A : Type 0} (P : S → Type 0) (r : Run S A)
    → Ends r
    → Ensures (λ _ s. P s) r
    → ((e : FlowError) × (r ≡ failed e)) ⊎ ((a : A) × (s : S) × (r ≡ done a s) × P s)
run-cases P (done a s) h k = inr (a, s, refl, k)
run-cases P (failed e) h k = inl (e, refl)
run-cases P exhausted h k = absurd h

module _ {Time J : Type 0} (x : External Time J) (laws : IsLawful x) (cel : Cel J)
    (service : WorkflowService J) where
  -- A signal that meets an instance of a definition that validate_domain_driven accepts, with no edge
  -- for returned, ends on any fuel but zero, under the documented laws of the JSON values, uuids and
  -- number syntax that the service calls: it is an error, which leaves the transaction without effect,
  -- or it is done, and then the tables still agree with the replay of the log (one row of the
  -- instance, with the status, current activity and result that the replay has, and its activities one
  -- by one as the replay lists them, each under an id of its own), if they did before.
  pub signal-keeps :
      (snapshot : DefinitionSnapshot) (fuel : ℕ) (cmd : SignalCommand J) (t : Tables Time J)
      → validate_domain_driven snapshot.nodes ≡ ok tt
      → NoHandBack snapshot.transitions
      → Consistent x cmd.instance_id snapshot t
      → ((e : FlowError) × (signal x cel service (suc fuel) cmd t ≡ failed e))
        ⊎ ((out : SignalOutcome Time J) × (u : Tables Time J) × (signal x cel service
                (suc fuel)
                cmd
                t
              ≡ done out u)
            × Consistent x cmd.instance_id snapshot u)
  signal-keeps snapshot fuel cmd t domain no_hand_back before =
      run-cases (Consistent x cmd.instance_id snapshot) (signal x cel service (suc fuel) cmd t)
        (signal-Ends x cel service fuel cmd t
          (load_snapshot-Consistent x cmd.instance_id snapshot t before) domain)
        (signal-Consistent x laws cel service snapshot domain no_hand_back (suc fuel) cmd t before)

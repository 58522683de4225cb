-- ===== src/Service/Rounds.antt =====
-- The limit on rounds of crates/hetuflow-service/src/service.rs, and the answer of `signal` to a key that it has seen.
use fusions.Shared.{ℕ, String, some, List, true, false, ok, ◌≡◌, refl, arith, if◌then◌else◌}
use fusions.Shared.Int.{ℤ, pos, leb_ℤ, ltb_ℤ, min_ℤ, is_positive}
use fusions.Core.Definition.{DefinitionSnapshot, WorkflowInstance}
use fusions.Runtime.Guard.{Cel}
use fusions.Store.External.{External}
use fusions.Store.Tables.{Tables}
use fusions.Store.Scope.{load_instance_for_update_scoped}
use fusions.Store.Events.{idempotency_seen}
use fusions.Store.Activities.{active_activities}
use fusions.Service.Command.{SignalCommand}
use fusions.Service.Registry.{Handler}
use fusions.Service.Config.{
  WorkflowConfig, WorkflowService, new_service, effective_limit, check_round, clamp,
  max_round_hard_limit_max,
}
use fusions.Service.Handle.{signal}
use fusions.Service.Run.{done, attempt, or_fail, must_not}

limited :
    (declared n round : ℤ)
    → ltb_ℤ (min_ℤ declared (clamp n (pos 1) max_round_hard_limit_max)) round ≡ false
    → leb_ℤ round max_round_hard_limit_max ≡ true
limited declared n round h = ground arith

-- A round that check_round lets through is at most 20, whatever limits the configuration given to the
-- service and the definition declare.
pub check_round-bounded :
    {J : Type 0} (config : WorkflowConfig) (registry : List (String × Handler J))
    (snapshot : DefinitionSnapshot) (round : ℤ)
    → check_round (new_service config registry).config snapshot round ≡ ok tt
    → leb_ℤ round max_round_hard_limit_max ≡ true
unfolding check_round effective_limit new_service
check_round-bounded config registry snapshot round h =
    limited
      (if is_positive snapshot.max_round
        then snapshot.max_round
        else clamp config.max_round_hard_limit (pos 1) max_round_hard_limit_max)
      config.max_round_hard_limit round (ground arith)

module _ {Time J : Type 0} (x : External Time J) (cel : Cel J) (service : WorkflowService J) where
  -- A signal to a visible instance whose idempotency key is in its log, and not blank, is done without
  -- any change: it answers the instance and its active activities, marked as replayed, whatever the
  -- fuel.
  pub signal-seen :
      (fuel : ℕ) (cmd : SignalCommand J) (t : Tables Time J) {instance : WorkflowInstance Time J}
      → x.is_blank cmd.idempotency_key ≡ false
      → load_instance_for_update_scoped x cmd.scope cmd.instance_id t ≡ ok (some instance)
      → idempotency_seen cmd.instance_id cmd.idempotency_key t ≡ true
      → signal x cel service fuel cmd t
        ≡ done
            (record {
              instance = instance;
              active_activities = active_activities x cmd.instance_id t;
              replayed = true;
            })
            t
  unfolding signal attempt or_fail must_not
  signal-seen fuel cmd t given found seen = rw (given, found, seen) refl

-- ===== src/Store/Scope.antt =====
-- `push_scope` of crates/hetuflow-sqlx/src/lib.rs and the reads that a caller's scope restricts. A scope that
-- cannot be read is an error before any row is.
use fusions.Shared.{
  String, Option, none, some, List, [], ◌∷◌, Bool, true, ◌&&◌, ◌||◌, ◌==◌, if◌then◌else◌, find,
  filter, map, contains, ok, err, ◌>>=◌,
}
use fusions.Shared.Int.{ℤ, pos, pos_part, eq_ℤ}
use fusions.Core.Definition.{WorkflowInstance}
use fusions.Core.Error.{FlowResult, validation, Message}
use fusions.Core.Payload.{ScopeFilter, FacilityVisibility, all_in_tenant, only, OutboxRecord}
use fusions.Store.Sql.{take}
use fusions.Store.External.{External}
use fusions.Store.Rows.{InstanceRow, InstanceRow_into_model, OutboxRow_into_model, map_some}
use fusions.Store.Tables.{Tables}

abbrev pub reversed {ℓ} : {A : Type ℓ} → List A → List A → List A
reversed [] done = done
reversed (a ∷ rest) done = reversed rest (a ∷ done)

-- `tenant_id = $1`, and `facility_id = ANY($2)` where facilities are named.
pub record Scope : Type 0 where
  pub tenant : ℤ
  pub facilities : Option (List String)

abbrev in_facilities : Option (List String) → String → Bool
in_facilities none facility = true
in_facilities (some ids) facility = contains ids facility

-- Whether a row of this tenant and facility is selected.
unfoldable pub in_scope : Scope → ℤ → String → Bool
in_scope scope tenant facility = eq_ℤ tenant scope.tenant && in_facilities scope.facilities facility

module _ {Time J : Type 0} (x : External Time J) where
  unfoldable pub parse_uuid : String → FlowResult String
  parse_uuid s = elim (x.uuid_of s) [
    | none ↦ err (validation (Message.invalid_uuid s))
    | some u ↦ ok u
  ]

  unfoldable pub parse_i64 : String → String → FlowResult ℤ
  parse_i64 s name = elim (x.i64_of s) [
    | none ↦ err (validation (Message.invalid_number name s))
    | some n ↦ ok n
  ]

  unfoldable pub parse_uuids : List String → FlowResult (List String)
  parse_uuids [] = ok []
  parse_uuids (s ∷ ss) = let rest = parse_uuids ss in do u ← parse_uuid s; us ← rest; ok (u ∷ us)

  abbrev facilities_of : FacilityVisibility → FlowResult (Option (List String))
  facilities_of all_in_tenant = ok none
  facilities_of (only ids) = do us ← parse_uuids ids; ok (some us)

  unfoldable pub push_scope : ScopeFilter → FlowResult Scope
  push_scope scope = do
    tenant ← parse_i64 scope.tenant_id "tenant_id"
    facilities ← facilities_of scope.facilities
    ok (record { tenant = tenant; facilities = facilities })

  abbrev pub is_visible : Scope → String → InstanceRow Time J → Bool
  is_visible scope id r = r.id == id && in_scope scope r.tenant_id r.facility_id

  abbrev pub found : Scope → String → Tables Time J → Option (WorkflowInstance Time J)
  found scope id t =
      map_some (InstanceRow_into_model x.json.display) (find (is_visible scope id) t.instances)

  unfoldable pub get_instance_scoped :
      ScopeFilter → String → Tables Time J → FlowResult (Option (WorkflowInstance Time J))
  get_instance_scoped filter id t = do scope ← push_scope filter; ok (found scope id t)

  -- The lock of `FOR UPDATE` lasts to the end of the transaction, in which these statements run.
  unfoldable pub load_instance_for_update_scoped :
      ScopeFilter → String → Tables Time J → FlowResult (Option (WorkflowInstance Time J))
  load_instance_for_update_scoped filter id t = do scope ← push_scope filter; ok (found scope id t)

  abbrev listed : Scope → Bool → InstanceRow Time J → Bool
  listed scope terminal_only r =
      in_scope scope r.tenant_id r.facility_id
      && (if terminal_only
          then eq_ℤ r.status (pos 3) || (eq_ℤ r.status (pos 4) || eq_ℤ r.status (pos 5))
          else true)

  -- `ORDER BY created_at DESC LIMIT n`: the latest first.
  unfoldable pub list_instance_ids_scoped :
      ScopeFilter → Bool → ℤ → Tables Time J → FlowResult (List String)
  list_instance_ids_scoped scope_filter terminal_only limit t = do
    scope ← push_scope scope_filter
    ok (
        map (λ r. r.id)
          (take (pos_part limit) (reversed (filter (listed scope terminal_only) t.instances) [])))

  unfoldable pub list_outbox_scoped :
      ScopeFilter → String → Tables Time J → FlowResult (List (OutboxRecord Time J))
  list_outbox_scoped scope_filter id t = do
    scope ← push_scope scope_filter
    ok (
        map (OutboxRow_into_model x.json.display) (
          filter (λ r. r.workflow_instance_id == id && in_scope scope r.tenant_id r.facility_id)
            t.outbox))

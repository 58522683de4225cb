-- ===== src/Store/Instances.antt =====
-- The statements of `PgWorkflowStore` on `workflow_instances`, crates/hetuflow-sqlx/src/lib.rs. An update
-- tells whether it changed a row. The number of a status is that of `WorkflowStatus::as_i16`.
use fusions.Shared.{
  suc, String, Option, none, some, [], ◌∷◌, ◌++◌, Bool, true, false, not, ◌&&◌, ◌==◌, if◌then◌else◌,
  any, find,
}
use fusions.Shared.Int.{ℤ, pos, eq_ℤ}
use fusions.Core.Definition.{DefinitionSnapshot, WorkflowInstance}
use fusions.Core.Error.{FlowError, serialization, storage, Message}
use fusions.Shared.{Result, ok, err}
use fusions.Store.Sql.{update_where, is_number, one_or_two}
use fusions.Store.External.{External}
use fusions.Store.Rows.{InstanceRow, InstanceRow_into_model, map_some}
use fusions.Store.Tables.{Tables}

abbrev pub or_empty : {J : Type 0} → J → Option J → J
or_empty empty none = empty
or_empty empty (some c) = c

module _ {Time J : Type 0} where
  -- `WHERE id = $1`
  abbrev pub has_id : String → InstanceRow Time J → Bool
  has_id id r = r.id == id

  -- `WHERE id = $1 AND status = $2`
  abbrev pub is_at : String → ℤ → InstanceRow Time J → Bool
  is_at id status r = r.id == id && eq_ℤ r.status status

  -- `UPDATE workflow_instances SET … WHERE test`
  unfoldable pub change_instances :
      (InstanceRow Time J → Bool)
      → (InstanceRow Time J → InstanceRow Time J)
      → Tables Time J
      → Bool × Tables Time J
  change_instances test f t =
      (any test t.instances, record t { instances = update_where test f t.instances })

  abbrev pub finished : ℤ → Time → InstanceRow Time J → InstanceRow Time J
  finished result now r = record r {
    status = pos 3;
    result = some result;
    completed_at = some now;
    updated_at = now;
    current_activity_id = none;
  }

  unfoldable pub complete_workflow_cas : String → ℤ → Tables Time J → Bool × Tables Time J
  complete_workflow_cas id result t = change_instances (is_at id (pos 2)) (finished result t.now) t

  abbrev is_returned : String → InstanceRow Time J → Bool
  is_returned id r = r.id == id && (eq_ℤ r.status (pos 3) && is_number (pos 3) r.result)

  abbrev reactivated : Time → InstanceRow Time J → InstanceRow Time J
  reactivated now r = record r {
    status = pos 2;
    result = none;
    completed_at = none;
    updated_at = now;
  }

  unfoldable pub reactivate_workflow : String → Tables Time J → Bool × Tables Time J
  reactivate_workflow id t = change_instances (is_returned id) (reactivated t.now) t

  abbrev pub moved : ℤ → Time → InstanceRow Time J → InstanceRow Time J
  moved status now r = record r { status = status; updated_at = now }

  unfoldable pub error_workflow : String → Tables Time J → Bool × Tables Time J
  error_workflow id t = change_instances (is_at id (pos 2)) (moved (pos 4) t.now) t

  abbrev pub pointed : Option String → Time → InstanceRow Time J → InstanceRow Time J
  pointed activity now r = record r { current_activity_id = activity; updated_at = now }

  unfoldable pub clear_current_activity : String → Tables Time J → Bool × Tables Time J
  clear_current_activity id t = change_instances (has_id id) (pointed none t.now) t

  unfoldable pub update_current_activity : String → String → Tables Time J → Bool × Tables Time J
  update_current_activity id activity t =
      change_instances (is_at id (pos 2)) (pointed (some activity) t.now) t

  abbrev handed_back : String → Time → InstanceRow Time J → InstanceRow Time J
  handed_back activity now r = record r {
    status = pos 6;
    current_activity_id = some activity;
    updated_at = now;
  }

  unfoldable pub enter_returned_waiting : String → String → Tables Time J → Bool × Tables Time J
  enter_returned_waiting id activity t =
      change_instances (is_at id (pos 2)) (handed_back activity t.now) t

  unfoldable pub resume_from_returned_waiting : String → Tables Time J → Bool × Tables Time J
  resume_from_returned_waiting id t = change_instances (is_at id (pos 6)) (moved (pos 2) t.now) t

  abbrev not_executed : String → InstanceRow Time J → Bool
  not_executed id r = r.id == id && not r.side_effects_executed

  abbrev executed : Time → InstanceRow Time J → InstanceRow Time J
  executed now r = record r { side_effects_executed = true; updated_at = now }

  unfoldable pub mark_side_effects_executed : String → Tables Time J → Bool × Tables Time J
  mark_side_effects_executed id t = change_instances (not_executed id) (executed t.now) t

module _ {Time J : Type 0} (x : External Time J) where
  abbrev pub context_merged : J → Time → InstanceRow Time J → InstanceRow Time J
  context_merged patch now r = record r {
    context = some (x.merge (or_empty x.empty_object r.context) patch);
    updated_at = now;
  }

  abbrev pub returned_context :
      Option (InstanceRow Time J) → Tables Time J → Result FlowError (J × Tables Time J)
  returned_context none t = err (storage Message.no_row)
  returned_context (some r) t = ok (or_empty x.empty_object r.context, t)

  -- `fetch_one` of the row that the update returns; with no row it is an error.
  unfoldable pub merge_instance_context :
      String → J → Tables Time J → Result FlowError (J × Tables Time J)
  merge_instance_context id patch t =
      let (_, t') = change_instances (has_id id) (context_merged patch t.now) t in
      returned_context (find (has_id id) t'.instances) t'

  -- The index of `ON CONFLICT (business_key, business_type) WHERE status IN (1, 2)`.
  abbrev pub is_open : String → String → InstanceRow Time J → Bool
  is_open key type r = r.business_key == key && (r.business_type == type && one_or_two r.status)

  abbrev new_instance :
      ℤ
      → String
      → String
      → String
      → String
      → String
      → Option J
      → J
      → String
      → Tables Time J
      → InstanceRow Time J
  new_instance tenant facility definition reference key type context snapshot hash t = record {
    id = x.made_uuid t.made;
    tenant_id = tenant;
    facility_id = facility;
    reference_no = reference;
    workflow_definition_id = definition;
    business_key = key;
    business_type = type;
    status = pos 2;
    current_activity_id = none;
    result = none;
    side_effects_executed = false;
    context = context;
    definition_snapshot = snapshot;
    definition_hash = hash;
    started_at = some t.now;
    completed_at = none;
    created_at = t.now;
    updated_at = t.now;
  }

  unfoldable pub insert_instance_on_conflict :
      ℤ
      → String
      → String
      → String
      → String
      → String
      → Option J
      → J
      → String
      → Tables Time J
      → Option (WorkflowInstance Time J) × Tables Time J
  insert_instance_on_conflict tenant facility definition reference key type context snapshot hash
        t =
      let row =
        new_instance tenant facility definition reference key type context snapshot hash t in
      if any (is_open key type) t.instances then (none, t) else (
        some (InstanceRow_into_model x.json.display row),
        record t { instances = t.instances ++ row ∷ []; made = suc t.made },
      )

  unfoldable pub active_instance_by_business_key :
      String → String → Tables Time J → Option (WorkflowInstance Time J)
  active_instance_by_business_key key type t =
      map_some (InstanceRow_into_model x.json.display) (find (is_open key type) t.instances)

  unfoldable pub load_instance : String → Tables Time J → Option (WorkflowInstance Time J)
  load_instance id t =
      map_some (InstanceRow_into_model x.json.display) (find (has_id id) t.instances)

  abbrev snapshot_in : Option (InstanceRow Time J) → Result FlowError DefinitionSnapshot
  snapshot_in none = err (storage Message.no_row)
  snapshot_in (some r) = elim (x.snapshot_of r.definition_snapshot) [
    | none ↦ err (serialization Message.snapshot_invalid)
    | some s ↦ ok s
  ]

  unfoldable pub load_snapshot : String → Tables Time J → Result FlowError DefinitionSnapshot
  load_snapshot id t = snapshot_in (find (has_id id) t.instances)

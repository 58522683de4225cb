-- ===== src/Service/Complete.antt =====
-- `complete_activity` and `apply_context_writes` of crates/hetuflow-service/src/service.rs.
use fusions.Shared.{String, Option, none, some, List, [], ◌∷◌, ok, err, if◌then◌else◌}
use fusions.Shared.Int.{ℤ}
use fusions.Core.EventType
use fusions.Core.Node.{WorkflowNode}
use fusions.Core.Definition.{ActivityInstance}
use fusions.Core.Error.{FlowResult, conflict, validation, Message}
use fusions.Runtime.Replay.Activities.{and_then}
use fusions.Store.Codec.{activity_result_from_str}
use fusions.Store.External.{External}
use fusions.Store.Scope.{parse_uuid}
use fusions.Store.Activities.{complete_activity_cas}
use fusions.Store.Timers.{cancel_timers_for_activity}
use fusions.Store.Instances.{merge_instance_context}
use fusions.Service.Config.{InstanceCtx}
use fusions.Service.Log.{append, text_or_null}
use fusions.Service.Run.{Action, ◌>>=◌, ◌>>◌, write, modify, pure, attempt, must, statement}

module _ {Time J : Type 0} (x : External Time J) where
  unfoldable pub completed_payload : String → Option String → J
  completed_payload id result =
      x.object_value (("activity_id", x.string_value id) ∷ ("result", text_or_null x result) ∷ [])

  unfoldable pub complete_activity :
      InstanceCtx J
      → ActivityInstance Time
      → Option String
      → ℤ
      → Option String
      → Action Time J (Unit {0})
  complete_activity ctx activity result actor notes = do
    activity_id ← attempt (parse_uuid x activity.id)
    won ←
        write
          (complete_activity_cas activity_id (and_then result activity_result_from_str) actor notes)
    must won (conflict (Message.activity_changed activity.id))
    modify (cancel_timers_for_activity activity_id)
    append ctx EventType.activity_completed (completed_payload activity.id result) none

  -- The value under each declared key; the first key that is not there is an error.
  unfoldable pub declared_values : String → J → List String → FlowResult (List (String × J))
  declared_values node patch [] = ok []
  declared_values node patch (key ∷ keys) =
      let rest = declared_values node patch keys in
      elim (x.json.get patch key) [
        | none ↦ err (validation (Message.patch_key_missing node key))
        | some value ↦ elim rest [ err e ↦ err e | ok fs ↦ ok ((key, value) ∷ fs) ]
      ]

  -- `patch.and_then(Value::as_object)`
  abbrev pub patch_object : String → Option J → FlowResult J
  patch_object node none = err (validation (Message.patch_missing node))
  patch_object node (some patch) =
      if x.is_object patch then ok patch else err (validation (Message.patch_missing node))

  abbrev pub write_context :
      InstanceCtx J → WorkflowNode → ℤ → Option J → List String → Action Time J (InstanceCtx J)
  write_context ctx node round patch [] = pure ctx
  write_context ctx node round patch (key ∷ keys) = do
    given ← attempt (patch_object node.id patch)
    filtered ← attempt (declared_values node.id given (key ∷ keys))
    merged ← statement (merge_instance_context x ctx.instance_id (x.object_value filtered))
    append (record ctx { context = some merged }) EventType.context_updated
        (x.object_value (
          ("node", x.string_value node.id)
          ∷ ("keys", x.strings_value (key ∷ keys))
          ∷ ("round", x.number_value round)
          ∷ []))
        none
    pure (record ctx { context = some merged })

  -- The context of `ctx` is the merged one from here on.
  unfoldable pub apply_context_writes :
      InstanceCtx J → WorkflowNode → ℤ → Option J → Action Time J (InstanceCtx J)
  apply_context_writes ctx node round patch = write_context ctx node round patch node.context_writes

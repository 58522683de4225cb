-- ===== src/Service/Log.antt =====
-- `append`, `reload` and the building of payloads, crates/hetuflow-service/src/service.rs.
use fusions.Shared.{String, Option, none, some}
use fusions.Core.Definition.{WorkflowInstance}
use fusions.Core.Error.{not_found, Message}
use fusions.Store.External.{External}
use fusions.Store.Events.{next_seq, append_event}
use fusions.Store.Instances.{load_instance}
use fusions.Service.Config.{InstanceCtx}
use fusions.Service.Run.{Action, ◌>>=◌, read, modify, or_fail}

module _ {Time J : Type 0} where
  unfoldable pub append : InstanceCtx J → String → J → Option String → Action Time J (Unit {0})
  append ctx event payload key = do
    seq ← read (next_seq ctx.instance_id)
    modify (append_event ctx.tenant_id ctx.facility_id ctx.instance_id seq event payload key)

module _ {Time J : Type 0} (x : External Time J) where
  -- `json!` of an `Option<String>`
  abbrev pub text_or_null : Option String → J
  text_or_null none = x.null_value
  text_or_null (some s) = x.string_value s

  abbrev pub value_or_null : Option J → J
  value_or_null none = x.null_value
  value_or_null (some v) = v

  unfoldable pub reload : String → Action Time J (WorkflowInstance Time J)
  reload id = do
    found ← read (load_instance x id)
    or_fail (not_found (Message.instance_vanished id)) found

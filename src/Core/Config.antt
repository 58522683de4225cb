-- ===== src/Core/Config.antt =====
-- The typed configurations of a node, crates/hetuflow-core/src/lib.rs. A `BTreeMap` is the list of its
-- entries, and i32 is ℤ.
use fusions.Shared.{String, Option, List}
use fusions.Shared.Int.{ℤ}
use fusions.Core.JoinStrategy.{JoinStrategy}

pub data RecipientSelector : Type 0 where
  role : (role_code : String) → (facility_id : Option String) → RecipientSelector
  user_ids : (user_ids : List String) → RecipientSelector
  business_owner :
      (reference_type reference_id : String) → (owner_kind : Option String) → RecipientSelector
  custom_resolver : (resolver_code : String) → (args : List (String × String)) → RecipientSelector

pub record NotificationChannelPolicy : Type 0 where
  pub notification_types : List String

pub record NotificationConfig : Type 0 where
  pub template_code : Option String
  pub recipient_selector : Option RecipientSelector
  pub channel_policy : NotificationChannelPolicy
  pub template_args : List (String × String)
  pub reference_type : Option String
  pub purpose : Option String
  pub visibility : Option String

pub record EventSourceMetadata : Type 0 where
  pub source_system : Option String
  pub tenant_id : Option String
  pub facility_id : Option String
  pub reference_type : Option String
  pub reference_id : Option String

pub record AssignmentConfig : Type 0 where
  pub assignee_selector : Option RecipientSelector
  pub queue_code : Option String
  pub sla_seconds : Option ℤ

pub record ConditionBranch : Type 0 where
  pub guard_expression : String
  pub target : String

pub data NodeConfig : Type 0 where
  start : NodeConfig
  approval :
      (assignee_role : Option String)
      → (sla_seconds escalation_seconds : Option ℤ) → (escalation_target_role : Option String)
      → NodeConfig
  notification : NotificationConfig → NodeConfig
  end : (result_code : Option String) → NodeConfig
  condition : (default_target : String) → (branches : List ConditionBranch) → NodeConfig
  parallel timer : NodeConfig
  event_wait :
      (event_type : String)
      → (timeout_seconds : Option ℤ) → (timeout_target correlation_key : Option String)
      → (source : Option EventSourceMetadata) → NodeConfig
  parallel_split : (branch_targets : List String) → NodeConfig
  parallel_join : (strategy : JoinStrategy) → NodeConfig
  assignment : AssignmentConfig → NodeConfig
  merge : NodeConfig
  for_each :
      (items_path branch_template join_target : String) → (max_fanout : Option ℤ) → NodeConfig
  sub_workflow :
      (child_flow_type : String)
      → (context_path on_child_failed_target : Option String) → NodeConfig

-- ===== src/Core/Error.antt =====
-- `FlowError` of crates/hetuflow-core/src/lib.rs. A message is the `format!` string that is its
-- constructor, with the values that the string interpolates.
use fusions.Shared.{String, ℕ, Result}
use fusions.Shared.Int.{ℤ}
use fusions.Core.WorkflowStatus.{WorkflowStatus}
use fusions.Core.SignalType.{SignalType}
use fusions.Core.NodeKind.{NodeKind}

pub data Message : Type 0 where
  cannot_transition : (from target : WorkflowStatus) → Message
  duplicate_node_id : (id : String) → Message
  start_nodes : (found : ℕ) → Message
  no_end_node : Message
  context_writes_not_activity context_writes_empty_key : (id : String) → Message
  context_writes_duplicate_key : (id key : String) → Message
  unsupported_kind : NodeKind → Message
  template_code_empty recipient_selector_missing : (id : String) → Message
  no_completed_transition : (id : String) → Message
  assignment_target_missing : (id : String) → Message
  assignee_role_empty no_approved_transition : (id : String) → Message
  escalation_not_after_sla : (id : String) → (escalation sla : ℤ) → Message
  escalation_role_missing escalation_seconds_missing : (id : String) → Message
  default_target_empty : (id : String) → Message
  default_target_unknown branch_target_unknown : (id target : String) → Message
  guard_invalid : (id : String) → Message
  event_type_empty event_wait_stuck : (id : String) → Message
  timeout_target_unknown : (id target : String) → Message
  too_few_branches : (id : String) → (got : ℕ) → Message
  split_branch_unknown split_branch_writes : (id branch : String) → Message
  split_branch_kind : (id branch : String) → NodeKind → Message
  split_branch_no_completion : (id branch : String) → SignalType → Message
  split_branch_not_to_join : (id branch target : String) → Message
  split_branches_diverge : (id existing target : String) → Message
  too_few_incoming : (id : String) → (got : ℕ) → Message
  join_no_outgoing : (id : String) → Message
  join_threshold_too_small : (id : String) → (n : ℤ) → Message
  join_threshold_too_large : (id : String) → (n : ℤ) → (incoming : ℕ) → Message
  merge_outgoing : (id : String) → (got : ℕ) → Message
  merge_to_split : (id : String) → Message
  merge_of_parallel : (id branch : String) → Message
  items_path_empty items_path_invalid : (id : String) → Message
  template_unknown template_writes join_target_unknown : (id target : String) → Message
  template_kind join_target_kind : (id target : String) → NodeKind → Message
  template_no_join_edge : (id template join : String) → Message
  child_flow_type_empty sub_workflow_stuck : (id : String) → Message
  failed_target_unknown : (id target : String) → Message
  transition_from_unknown transition_to_unknown : (id : String) → Message
  not_domain_driven : (id : String) → NodeKind → Message
  invalid_uuid : (text : String) → Message
  invalid_number : (field text : String) → Message
  snapshot_invalid snapshot_not_serializable : Message
  no_row : Message
  no_entry_node : Message
  handler_type_empty : Message
  handler_not_registered : (handler_type : String) → Message
  handler_registered : (handler_type : String) → Message
  start_unreadable : (business_type business_key : String) → Message
  idempotency_key_missing : Message
  instance_not_visible instance_vanished : (id : String) → Message
  instance_terminal : (id : String) → WorkflowStatus → Message
  not_returned : WorkflowStatus → Message
  reactivate_lost : Message
  round_over_limit : (round limit : ℤ) → Message
  node_missing : (id : String) → Message
  signal_misplaced : SignalType → NodeKind → Message
  event_type_differs : (given node declared : String) → Message
  event_type_required : Message
  resubmitted_is_no_signal : Message
  activity_not_found activity_elsewhere activity_changed : (id : String) → Message
  activity_not_active : (id : String) → Message
  no_active_activity : (id : String) → Message
  ambiguous_activity : (id : String) → (active : ℕ) → Message
  patch_missing : (node : String) → Message
  patch_key_missing : (node key : String) → Message
  sub_workflow_not_wired : (node : String) → Message
  payload_not_serializable callback_not_serializable terminal_callback_invalid : Message
  left_active : Message
  no_anchor : Message
  fan_out_without_source : (join : String) → Message
  unknown_timer_kind : (kind : String) → Message

pub data FlowError : Type 0 where
  validation not_found conflict storage serialization invalid_state : Message → FlowError

abbrev pub FlowResult {ℓ} : Type ℓ → Type ℓ
FlowResult A = Result FlowError A

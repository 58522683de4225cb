-- ===== src/Runtime/Check/Activities.antt =====
-- The checks at nodes that become activities, and of the context keys that they write.
use fusions.Shared.{
  String, Option, none, some, List, [], ◌∷◌, Bool, true, false, not, ◌&&◌, ok, ◌>>◌, contains,
}
use fusions.Shared.Int.{ℤ, leb_ℤ}
use fusions.Core.NodeKind.{NodeKind}
use fusions.Core.SignalType
use fusions.Core.Config.{NotificationConfig, AssignmentConfig}
use fusions.Core.Node.{WorkflowNode, kind, is_empty, when_positive, when_nonempty}
use fusions.Core.Definition.{WorkflowTransition}
use fusions.Core.Error.{Message}
use fusions.Runtime.Check.Base.{Checked, fail, must, must_not, has_edge, absent, known_target}

abbrev pub may_write : NodeKind → Bool
may_write NodeKind.approval = true
may_write NodeKind.event_wait = true
may_write NodeKind.notification = true
may_write NodeKind.assignment = true
may_write _ = false

unfoldable pub check_keys : String → List String → List String → Checked
check_keys id seen [] = ok tt
check_keys id seen (key ∷ keys) =
    let rest = check_keys id (key ∷ seen) keys in
    do
      must_not (is_empty key) (Message.context_writes_empty_key id)
      must_not (contains seen key) (Message.context_writes_duplicate_key id key)
      rest

writes : WorkflowNode → List String → Checked
unfolding check_keys
writes node [] = ok tt
writes node (key ∷ keys) = do
  must (may_write (kind node)) (Message.context_writes_not_activity node.id)
  check_keys node.id [] (key ∷ keys)

unfoldable pub check_context_writes : WorkflowNode → Checked
unfolding writes
check_context_writes node = writes node node.context_writes

abbrev is_none {ℓ} : {A : Type ℓ} → Option A → Bool
is_none none = true
is_none (some _) = false

module _ (transitions : List WorkflowTransition) (id : String) where
  unfoldable pub check_notification : NotificationConfig → Checked
  check_notification config = do
    must_not (absent config.template_code) (Message.template_code_empty id)
    must_not (is_none config.recipient_selector) (Message.recipient_selector_missing id)
    must (has_edge transitions id SignalType.completed) (Message.no_completed_transition id)

  unfoldable pub check_assignment : AssignmentConfig → Checked
  check_assignment config = do
    must_not (is_none config.assignee_selector && absent config.queue_code)
        (Message.assignment_target_missing id)
    must (has_edge transitions id SignalType.completed) (Message.no_completed_transition id)

  -- The `match (esc_secs, esc_role)`, after both are filtered.
  unfoldable pub check_escalation : Option ℤ → Option ℤ → Option String → Checked
  check_escalation sla none none = ok tt
  check_escalation none (some secs) (some role) = ok tt
  check_escalation (some sla) (some secs) (some role) =
      must_not (leb_ℤ secs sla) (Message.escalation_not_after_sla id secs sla)
  check_escalation sla (some secs) none = fail (Message.escalation_role_missing id)
  check_escalation sla none (some role) = fail (Message.escalation_seconds_missing id)

  unfoldable pub check_approval : Option String → Option ℤ → Option ℤ → Option String → Checked
  unfolding check_escalation
  check_approval role sla escalation escalation_role = do
    must_not (absent role) (Message.assignee_role_empty id)
    must (has_edge transitions id SignalType.approved) (Message.no_approved_transition id)
    check_escalation (when_positive sla) (when_positive escalation) (when_nonempty escalation_role)

  unfoldable pub check_event_wait : List String → String → Option String → Checked
  check_event_wait ids event_type timeout_target = do
    must_not (is_empty event_type) (Message.event_type_empty id)
    known_target ids timeout_target (Message.timeout_target_unknown id)
    must_not (not (has_edge transitions id SignalType.event_received) && is_none timeout_target)
        (Message.event_wait_stuck id)

  unfoldable pub check_sub_workflow : List String → String → Option String → Checked
  check_sub_workflow ids child_flow_type failed_target = do
    must_not (is_empty child_flow_type) (Message.child_flow_type_empty id)
    must (has_edge transitions id SignalType.event_received) (Message.sub_workflow_stuck id)
    known_target ids failed_target (Message.failed_target_unknown id)

-- ===== src/Core/OutboxActivity.antt =====
-- `outbox_activity` of crates/hetuflow-core/src/lib.rs: what a delivery is for.
use fusions.Shared.{String}

abbrev pub notification : String
notification = "notification"

abbrev pub notification_reminder : String
notification_reminder = "notification_reminder"

abbrev pub notification_escalation : String
notification_escalation = "notification_escalation"

abbrev pub business_callback : String
business_callback = "business_callback"

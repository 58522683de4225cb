-- ===== src/Core/SignalType.antt =====
-- `SignalType` of crates/hetuflow-core/src/lib.rs: what a caller tells an instance.
use fusions.Shared.{Bool, true, false}

pub data SignalType : Type 0 where
  approved returned rejected resubmitted event_received claimed reassigned completed : SignalType

-- The derived `==`.
unfoldable pub eq : SignalType → SignalType → Bool
eq approved approved = true
eq returned returned = true
eq rejected rejected = true
eq resubmitted resubmitted = true
eq event_received event_received = true
eq claimed claimed = true
eq reassigned reassigned = true
eq completed completed = true
eq _ _ = false

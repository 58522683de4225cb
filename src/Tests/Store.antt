-- ===== src/Tests/Store.antt =====
-- The theorems on the store at small tables.
use fusions.Shared.{none, some, [], ◌∷◌, ◌++◌, false, ◌≡◌, refl, arith, true, inl, filter, List}
use fusions.Shared.Int.{ℤ, pos}
use fusions.Core.EventType
use fusions.Store.Rows.{OutboxRow, event_record}
use fusions.Store.Tables.{Tables}
use fusions.Store.Events.{load_events, append_event, next_seq, new_event}
use fusions.Store.Events.Sequence.{load_events-append}
use fusions.Store.Guards.{review, time_out, close, close-once}
use fusions.Store.Lease.{
  succeed, retry, Statement, settling, polling, enqueuing, settle, run_all, Stands,
}
use fusions.Store.Lease.Exclusive.{lease-exclusive, final-Stands}
use fusions.Store.Graph.{change, hand_back, AllFollow, change-AllFollow}
use fusions.Tests.Service.{tables}
use fusions.Tests.World.{Value, world, world-IsLawful, null}

abbrev delivery : OutboxRow ℤ Value
delivery = record {
  id = "o";
  tenant_id = pos 1;
  facility_id = "f";
  workflow_instance_id = "";
  activity_instance_id = "i";
  activity_type = "notification";
  payload = null;
  status = pos 2;
  attempt_count = pos 0;
  max_attempts = pos 5;
  next_attempt_at = pos 0;
  lease_owner = some "w";
  lease_expires_at = some (pos 9);
  last_error = none;
  created_at = pos 0;
  updated_at = pos 0;
}

-- A poll, settlements by two workers and a new delivery, at the times 7 and 8.
abbrev traffic : List (ℤ × Statement Value)
traffic =
    (pos 7, polling "v" (pos 60) (pos 10))
    ∷ (pos 8, settling succeed "i" "v")
    ∷ (pos 8, enqueuing (pos 1) "f" "" "i" "business_callback" null)
    ∷ []

abbrev kept_delivery : OutboxRow ℤ Value
kept_delivery = record delivery { id = "i" }

abbrev kept_one : Tables ℤ Value
kept_one = record tables { outbox = kept_delivery ∷ [] }

kept-Stands : Stands world kept_delivery kept_one
unfolding filter
kept-Stands = record { only = refl; old = (1, omega arith, refl) }

lease-exclusive_example :
    Stands world kept_delivery (run_all world traffic kept_one)
    × ((settle world (retry (pos 5) "late") "i" "w" (run_all world traffic kept_one)).0 ≡ true)
lease-exclusive_example =
    lease-exclusive world world-IsLawful traffic "w" (pos 9) kept_one kept_delivery
      (retry (pos 5) "late") (record { status = refl; owner = refl; expires = refl })
      (refl, (refl, (tt, tt))) kept-Stands

abbrev done_delivery : OutboxRow ℤ Value
done_delivery = record kept_delivery { status = pos 3 }

abbrev done_one : Tables ℤ Value
done_one = record tables { outbox = done_delivery ∷ [] }

done-Stands : Stands world done_delivery done_one
unfolding filter
done-Stands = record { only = refl; old = (1, omega arith, refl) }

final-Stands_example : Stands world done_delivery (run_all world traffic done_one)
final-Stands_example =
    final-Stands world world-IsLawful traffic done_one done_delivery (inl refl) done-Stands

close-once_example :
    close time_out "i" (close (review (some (pos 1)) (pos 4) none) "i" tables).1
    ≡ (false, (close (review (some (pos 1)) (pos 4) none) "i" tables).1)
close-once_example = close-once (review (some (pos 1)) (pos 4) none) time_out "i" tables

change-AllFollow_example : AllFollow tables.instances (change (hand_back "i") "" tables).1.instances
change-AllFollow_example = change-AllFollow (hand_back "i") "" tables

load_events-append_example :
    load_events ""
      (append_event (pos 1) "f" "" (next_seq "" tables) EventType.completed null none tables)
    ≡ load_events "" tables
      ++ event_record
          (new_event (pos 1) "f" "" (next_seq "" tables) EventType.completed null none tables)
        ∷ []
load_events-append_example = load_events-append (pos 1) "f" "" EventType.completed null none tables

-- ===== src/Store/Events.antt =====
-- The statements of `PgWorkflowStore` on `workflow_event_log`, crates/hetuflow-sqlx/src/lib.rs.
pub mod Sequence
use fusions.Shared.{
  String, Option, none, some, List, [], ◌∷◌, ◌++◌, Bool, true, false, ◌&&◌, ◌==◌, if◌then◌else◌,
  any, filter, map,
}
use fusions.Shared.Int.{ℤ, pos, negsuc, ltb_ℤ, leb_ℤ, eq_ℤ, sub_ℕ, ◌+ℤ◌}
use fusions.Core.EventType
use fusions.Core.Definition.{EventRecord}
use fusions.Runtime.Replay.Activities.{and_then}
use fusions.Store.Sql.{sort_by, is_text, is_number}
use fusions.Store.External.{External}
use fusions.Store.Rows.{EventRow, event_record}
use fusions.Store.Tables.{Tables}

abbrev pub or_number : ℤ → Option ℤ → ℤ
or_number d none = d
or_number d (some n) = n

unfoldable pub max_with : ℤ → Option ℤ → ℤ
max_with n none = n
max_with n (some m) = if leb_ℤ n m then m else n

module _ {Time J : Type 0} where
  -- `WHERE workflow_instance_id = $1`
  abbrev pub of_log : String → EventRow Time J → Bool
  of_log id r = r.workflow_instance_id == id

  -- The greatest number of a log.
  unfoldable pub greatest_seq : List (EventRow Time J) → Option ℤ
  greatest_seq [] = none
  greatest_seq (r ∷ rs) = some (max_with r.seq (greatest_seq rs))

  -- `COALESCE(MAX(seq), 0) + 1`
  unfoldable pub next_seq : String → Tables Time J → ℤ
  next_seq id t = or_number (pos 0) (greatest_seq (filter (of_log id) t.events)) +ℤ pos 1

  -- `ORDER BY seq`
  abbrev pub before : EventRow Time J → EventRow Time J → Bool
  before a b = leb_ℤ a.seq b.seq

  unfoldable pub load_events : String → Tables Time J → List (EventRecord Time J)
  load_events id t = map event_record (sort_by before (filter (of_log id) t.events))

  abbrev pub has_key : String → String → EventRow Time J → Bool
  has_key id key r = r.workflow_instance_id == id && is_text key r.idempotency_key

  unfoldable pub idempotency_seen : String → String → Tables Time J → Bool
  idempotency_seen id key t = any (has_key id key) t.events

  abbrev pub new_event :
      ℤ → String → String → ℤ → String → J → Option String → Tables Time J → EventRow Time J
  new_event tenant facility instance seq type payload key t = record {
    tenant_id = tenant;
    facility_id = facility;
    workflow_instance_id = instance;
    seq = seq;
    event_type = type;
    event_payload = payload;
    idempotency_key = key;
    created_at = t.now;
  }

  unfoldable pub append_event :
      ℤ → String → String → ℤ → String → J → Option String → Tables Time J → Tables Time J
  append_event tenant facility instance seq type payload key t = record t {
    events = t.events ++ new_event tenant facility instance seq type payload key t ∷ [];
  }

module _ {Time J : Type 0} (x : External Time J) where
  -- `event_payload->>'key'` of a text, and of a number cast to an integer.
  abbrev text_in : J → String → Option String
  text_in payload key = and_then (x.json.get payload key) x.json.as_str

  abbrev number_in : J → String → Option ℤ
  number_in payload key = and_then (x.json.get payload key) x.json.as_i64

  abbrev is_fan_out_to : String → String → ℤ → EventRow Time J → Bool
  is_fan_out_to id join round r =
      r.workflow_instance_id == id
      && (r.event_type == EventType.for_each_fanned_out
          && (is_text join (text_in r.event_payload "join_node")
              && is_number round (number_in r.event_payload "round")))

  -- `ORDER BY seq DESC LIMIT 1`
  unfoldable pub latest_count : List (EventRow Time J) → Option ℤ
  latest_count [] = none
  latest_count (r ∷ []) = number_in r.event_payload "branch_count"
  latest_count (r ∷ (s ∷ rs)) = latest_count (s ∷ rs)

  unfoldable pub for_each_branch_count : String → String → ℤ → Tables Time J → Option ℤ
  for_each_branch_count id join round t =
      latest_count (sort_by before (filter (is_fan_out_to id join round) t.events))

-- ===== src/Store/Codec.antt =====
-- The numbers of crates/hetuflow-sqlx/src/lib.rs for results of activities, states of deliveries and kinds
-- of timers. `display` is the text of a number that none of them is.
use Prim.Native.String.{◌++◌ as append_text}
use fusions.Shared.{String, Option, none, some, ◌==◌, if◌then◌else◌}
use fusions.Shared.Int.{ℤ, pos, eq_ℤ}

-- `format!("unknown:{other}")`
abbrev pub unknown : (ℤ → String) → ℤ → String
unknown display n = append_text "unknown:" (display n)

unfoldable pub activity_result_to_str : (ℤ → String) → ℤ → String
activity_result_to_str display n =
    if eq_ℤ n (pos 1)
    then "approved"
    else if eq_ℤ n (pos 2)
    then "rejected"
    else if eq_ℤ n (pos 3)
    then "returned"
    else if eq_ℤ n (pos 4)
    then "completed"
    else unknown display n

unfoldable pub activity_result_from_str : String → Option ℤ
activity_result_from_str s =
    if s == "approved"
    then some (pos 1)
    else if s == "rejected"
    then some (pos 2)
    else if s == "returned"
    then some (pos 3)
    else if s == "completed"
    then some (pos 4)
    else none

unfoldable pub outbox_status_str : (ℤ → String) → ℤ → String
outbox_status_str display n =
    if eq_ℤ n (pos 1)
    then "pending"
    else if eq_ℤ n (pos 2)
    then "leased"
    else if eq_ℤ n (pos 3)
    then "succeeded"
    else if eq_ℤ n (pos 4)
    then "dead_letter"
    else unknown display n

unfoldable pub timer_kind_str : (ℤ → String) → ℤ → String
timer_kind_str display n =
    if eq_ℤ n (pos 1)
    then "reminder"
    else if eq_ℤ n (pos 2)
    then "escalation"
    else if eq_ℤ n (pos 3)
    then "timeout"
    else unknown display n

unfoldable pub timer_kind_i16 : String → ℤ
timer_kind_i16 s = if s == "escalation" then pos 2 else if s == "timeout" then pos 3 else pos 1

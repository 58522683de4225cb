-- ===== src/Core/ActivityStatus.antt =====
-- `ActivityStatus` of crates/hetuflow-core/src/lib.rs.
pub mod Codec
use fusions.Shared.{String, ◌≡◌, refl, ◌==◌, if◌then◌else◌}
use fusions.Shared.Int.{ℤ, pos, eq_ℤ}

pub data ActivityStatus : Type 0 where
  pending active completed skipped errored : ActivityStatus

unfoldable pub as_str : ActivityStatus → String
as_str pending = "pending"
as_str active = "active"
as_str completed = "completed"
as_str skipped = "skipped"
as_str errored = "errored"

unfoldable pub from_db : String → ActivityStatus
from_db s =
    if s == "pending"
    then pending
    else if s == "active"
    then active
    else if s == "completed"
    then completed
    else if s == "skipped"
    then skipped
    else errored

unfoldable pub as_i16 : ActivityStatus → ℤ
as_i16 pending = pos 1
as_i16 active = pos 2
as_i16 completed = pos 3
as_i16 skipped = pos 4
as_i16 errored = pos 5

unfoldable pub from_i16 : ℤ → ActivityStatus
from_i16 n =
    if eq_ℤ n (pos 1)
    then pending
    else if eq_ℤ n (pos 2)
    then active
    else if eq_ℤ n (pos 3)
    then completed
    else if eq_ℤ n (pos 4)
    then skipped
    else errored

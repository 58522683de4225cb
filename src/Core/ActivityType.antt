-- ===== src/Core/ActivityType.antt =====
-- `ActivityType` of crates/hetuflow-core/src/lib.rs.
pub mod Codec
use fusions.Shared.{String, ◌≡◌, refl, ◌==◌, if◌then◌else◌}
use fusions.Shared.Int.{ℤ, pos, eq_ℤ}

pub data ActivityType : Type 0 where
  start approval notification end condition parallel timer event_wait parallel_split parallel_join
        assignment merge for_each sub_workflow :
      ActivityType

unfoldable pub as_str : ActivityType → String
as_str start = "start"
as_str approval = "approval"
as_str notification = "notification"
as_str end = "end"
as_str condition = "condition"
as_str parallel = "parallel"
as_str timer = "timer"
as_str event_wait = "event_wait"
as_str parallel_split = "parallel_split"
as_str parallel_join = "parallel_join"
as_str assignment = "assignment"
as_str merge = "merge"
as_str for_each = "for_each"
as_str sub_workflow = "sub_workflow"

unfoldable pub from_db : String → ActivityType
from_db s =
    if s == "start"
    then start
    else if s == "approval"
    then approval
    else if s == "notification"
    then notification
    else if s == "condition"
    then condition
    else if s == "parallel"
    then parallel
    else if s == "timer"
    then timer
    else if s == "event_wait"
    then event_wait
    else if s == "parallel_split"
    then parallel_split
    else if s == "parallel_join"
    then parallel_join
    else if s == "assignment"
    then assignment
    else if s == "merge"
    then merge
    else if s == "for_each"
    then for_each
    else if s == "sub_workflow"
    then sub_workflow
    else end

unfoldable pub as_i16 : ActivityType → ℤ
as_i16 start = pos 1
as_i16 approval = pos 2
as_i16 notification = pos 3
as_i16 end = pos 4
as_i16 condition = pos 5
as_i16 parallel = pos 6
as_i16 timer = pos 7
as_i16 event_wait = pos 8
as_i16 parallel_split = pos 9
as_i16 parallel_join = pos 10
as_i16 assignment = pos 11
as_i16 merge = pos 12
as_i16 for_each = pos 13
as_i16 sub_workflow = pos 14

unfoldable pub from_i16 : ℤ → ActivityType
from_i16 n =
    if eq_ℤ n (pos 1)
    then start
    else if eq_ℤ n (pos 2)
    then approval
    else if eq_ℤ n (pos 3)
    then notification
    else if eq_ℤ n (pos 4)
    then end
    else if eq_ℤ n (pos 5)
    then condition
    else if eq_ℤ n (pos 6)
    then parallel
    else if eq_ℤ n (pos 7)
    then timer
    else if eq_ℤ n (pos 8)
    then event_wait
    else if eq_ℤ n (pos 9)
    then parallel_split
    else if eq_ℤ n (pos 10)
    then parallel_join
    else if eq_ℤ n (pos 11)
    then assignment
    else if eq_ℤ n (pos 12)
    then merge
    else if eq_ℤ n (pos 13)
    then for_each
    else if eq_ℤ n (pos 14)
    then sub_workflow
    else end

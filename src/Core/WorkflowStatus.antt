-- ===== src/Core/WorkflowStatus.antt =====
-- `WorkflowStatus` of crates/hetuflow-core/src/lib.rs: the life of a workflow instance, its names in the
-- database and its wire numbers.
pub mod Codec
use fusions.Shared.{String, ◌≡◌, refl, ◌==◌, if◌then◌else◌, Bool, true, false}
use fusions.Shared.Int.{ℤ, pos, eq_ℤ}

pub data WorkflowStatus : Type 0 where
  pending active completed errored cancelled returned_waiting : WorkflowStatus

unfoldable pub as_str : WorkflowStatus → String
as_str pending = "pending"
as_str active = "active"
as_str completed = "completed"
as_str errored = "errored"
as_str cancelled = "cancelled"
as_str returned_waiting = "returned_waiting"

unfoldable pub from_db : String → WorkflowStatus
from_db s =
    if s == "pending"
    then pending
    else if s == "active"
    then active
    else if s == "completed"
    then completed
    else if s == "cancelled"
    then cancelled
    else if s == "returned_waiting"
    then returned_waiting
    else errored

unfoldable pub as_i16 : WorkflowStatus → ℤ
as_i16 pending = pos 1
as_i16 active = pos 2
as_i16 completed = pos 3
as_i16 errored = pos 4
as_i16 cancelled = pos 5
as_i16 returned_waiting = pos 6

unfoldable pub from_i16 : ℤ → WorkflowStatus
from_i16 n =
    if eq_ℤ n (pos 1)
    then pending
    else if eq_ℤ n (pos 2)
    then active
    else if eq_ℤ n (pos 3)
    then completed
    else if eq_ℤ n (pos 4)
    then errored
    else if eq_ℤ n (pos 5)
    then cancelled
    else if eq_ℤ n (pos 6)
    then returned_waiting
    else errored

unfoldable pub is_terminal : WorkflowStatus → Bool
is_terminal completed = true
is_terminal errored = true
is_terminal cancelled = true
is_terminal _ = false

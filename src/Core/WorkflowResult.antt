-- ===== src/Core/WorkflowResult.antt =====
-- `WorkflowResult` of crates/hetuflow-core/src/lib.rs; an unknown code is `None`.
pub mod Codec
use fusions.Shared.{String, ◌≡◌, refl, ◌==◌, if◌then◌else◌, Option, none, some}
use fusions.Shared.Int.{ℤ, pos, eq_ℤ}

pub data WorkflowResult : Type 0 where
  approved rejected returned : WorkflowResult

unfoldable pub as_str : WorkflowResult → String
as_str approved = "approved"
as_str rejected = "rejected"
as_str returned = "returned"

unfoldable pub from_db : String → Option WorkflowResult
from_db s =
    if s == "approved"
    then some approved
    else if s == "rejected"
    then some rejected
    else if s == "returned"
    then some returned
    else none

unfoldable pub as_i16 : WorkflowResult → ℤ
as_i16 approved = pos 1
as_i16 rejected = pos 2
as_i16 returned = pos 3

unfoldable pub from_i16 : ℤ → Option WorkflowResult
from_i16 n =
    if eq_ℤ n (pos 1)
    then some approved
    else if eq_ℤ n (pos 2)
    then some rejected
    else if eq_ℤ n (pos 3)
    then some returned
    else none

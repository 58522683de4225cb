-- ===== src/Core/JoinStrategy.antt =====
-- `JoinStrategy` of crates/hetuflow-core/src/lib.rs: when a parallel join lets the flow go on.
pub mod Laws
use fusions.Shared.{Bool, true, false}
use fusions.Shared.Int.{ℤ, pos, leb_ℤ}

pub data JoinStrategy : Type 0 where
  wait_all wait_any : JoinStrategy
  n_of_m : ℤ → JoinStrategy

-- `arrived` and `expected` are i64, the threshold of `n_of_m` an i32.
unfoldable pub is_satisfied : JoinStrategy → ℤ → ℤ → Bool
is_satisfied wait_all arrived expected = leb_ℤ expected arrived
is_satisfied wait_any arrived expected = leb_ℤ (pos 1) arrived
is_satisfied (n_of_m n) arrived expected = leb_ℤ n arrived

unfoldable pub skips_remaining_on_satisfaction : JoinStrategy → Bool
skips_remaining_on_satisfaction wait_all = false
skips_remaining_on_satisfaction _ = true

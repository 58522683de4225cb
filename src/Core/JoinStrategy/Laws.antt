-- ===== src/Core/JoinStrategy/Laws.antt =====
-- A join that is satisfied stays so, and every legal strategy is satisfied when all branches are in.
use fusions.Shared.{◌≡◌, true, arith}
use fusions.Shared.Int.{ℤ, pos, ◌≤ℤ◌}
use fusions.Core.JoinStrategy.{JoinStrategy, wait_all, wait_any, n_of_m, is_satisfied}

-- More arrivals never undo a satisfied join.
pub is_satisfied_mono :
    (s : JoinStrategy) (a b expected : ℤ)
    → a ≤ℤ b
    → is_satisfied s a expected ≡ true
    → is_satisfied s b expected ≡ true
unfolding is_satisfied
is_satisfied_mono wait_all a b expected h k = ground arith
is_satisfied_mono wait_any a b expected h k = ground arith
is_satisfied_mono (n_of_m n) a b expected h k = ground arith

-- The thresholds that `validate_definition` lets pass at a join with `expected` incoming branches.
abbrev pub IsLegal : JoinStrategy → ℤ → Type 0
IsLegal wait_all expected = Unit
IsLegal wait_any expected = pos 1 ≤ℤ expected
IsLegal (n_of_m n) expected = n ≤ℤ expected

-- A legal join is satisfied once every expected branch has arrived, so it cannot hang.
pub is_satisfied-all :
    (s : JoinStrategy) (arrived expected : ℤ)
    → IsLegal s expected
    → expected ≤ℤ arrived
    → is_satisfied s arrived expected ≡ true
unfolding is_satisfied
is_satisfied-all wait_all arrived expected l h = ground arith
is_satisfied-all wait_any arrived expected l h = ground arith
is_satisfied-all (n_of_m n) arrived expected l h = ground arith

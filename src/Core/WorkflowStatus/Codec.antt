-- ===== src/Core/WorkflowStatus/Codec.antt =====
-- The database names and the wire numbers of `WorkflowStatus` are read back, and nothing else reads as them.
use fusions.Shared.{String, ◌≡◌, ◌↔◌, ◌≢◌, refl, arith, eq_iff, subst, sym}
use fusions.Shared.Int.{ℤ}
use fusions.Core.WorkflowStatus.{
  WorkflowStatus, pending, active, completed, errored, cancelled, returned_waiting, as_str, from_db,
  as_i16, from_i16,
}

-- A number that reads as `t` is the number of `t`.
from_i16-eq : (n : ℤ) (t : WorkflowStatus) → t ≢ errored → from_i16 n ≡ t → n ≡ as_i16 t
unfolding from_i16 as_i16
from_i16-eq n pending e h = ground arith
from_i16-eq n active e h = ground arith
from_i16-eq n completed e h = ground arith
from_i16-eq n errored e h = absurd (e refl)
from_i16-eq n cancelled e h = ground arith
from_i16-eq n returned_waiting e h = ground arith

-- A name that reads as `t` is the name of `t`.
from_db-eq : (s : String) (t : WorkflowStatus) → t ≢ errored → from_db s ≡ t → s ≡ as_str t
unfolding from_db as_str
from_db-eq s pending e h = ground (arith, eq_iff s "pending")
from_db-eq s active e h = ground (arith, eq_iff s "active")
from_db-eq s completed e h = ground (arith, eq_iff s "completed")
from_db-eq s errored e h = absurd (e refl)
from_db-eq s cancelled e h = ground (arith, eq_iff s "cancelled")
from_db-eq s returned_waiting e h = ground (arith, eq_iff s "returned_waiting")

pub from_i16-as_i16 : (t : WorkflowStatus) → from_i16 (as_i16 t) ≡ t
unfolding from_i16 as_i16
from_i16-as_i16 pending = refl
from_i16-as_i16 active = refl
from_i16-as_i16 completed = refl
from_i16-as_i16 errored = refl
from_i16-as_i16 cancelled = refl
from_i16-as_i16 returned_waiting = refl

pub from_db-as_str : (t : WorkflowStatus) → from_db (as_str t) ≡ t
unfolding from_db as_str
from_db-as_str pending = refl
from_db-as_str active = refl
from_db-as_str completed = refl
from_db-as_str errored = refl
from_db-as_str cancelled = refl
from_db-as_str returned_waiting = refl

-- Every value other than `errored`, which stands for unknown ones, is read from its own name and its own number,
-- and from no other.
pub WorkflowStatus_codec :
    (t : WorkflowStatus) (s : String) (n : ℤ)
    → t ≢ errored
    → ((from_db s ≡ t) ↔ (s ≡ as_str t)) × ((from_i16 n ≡ t) ↔ (n ≡ as_i16 t))
WorkflowStatus_codec t s n e = (
  (from_db-eq s t e, λ p. subst (λ x. from_db x ≡ t) (sym p) (from_db-as_str t)),
  (from_i16-eq n t e, λ p. subst (λ x. from_i16 x ≡ t) (sym p) (from_i16-as_i16 t)),
)

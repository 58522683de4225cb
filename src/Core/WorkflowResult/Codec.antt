-- ===== src/Core/WorkflowResult/Codec.antt =====
-- The database names and the wire numbers of `WorkflowResult` are read back, and nothing else reads as them.
use fusions.Shared.{String, ◌≡◌, ◌↔◌, some, refl, arith, eq_iff, subst, sym}
use fusions.Shared.Int.{ℤ}
use fusions.Core.WorkflowResult.{
  WorkflowResult, approved, rejected, returned, as_str, from_db, as_i16, from_i16,
}

-- A number that reads as `t` is the number of `t`.
from_i16-eq : (n : ℤ) (t : WorkflowResult) → from_i16 n ≡ some t → n ≡ as_i16 t
unfolding from_i16 as_i16
from_i16-eq n approved h = ground arith
from_i16-eq n rejected h = ground arith
from_i16-eq n returned h = ground arith

-- A name that reads as `t` is the name of `t`.
from_db-eq : (s : String) (t : WorkflowResult) → from_db s ≡ some t → s ≡ as_str t
unfolding from_db as_str
from_db-eq s approved h = ground (arith, eq_iff s "approved")
from_db-eq s rejected h = ground (arith, eq_iff s "rejected")
from_db-eq s returned h = ground (arith, eq_iff s "returned")

pub from_i16-as_i16 : (t : WorkflowResult) → from_i16 (as_i16 t) ≡ some t
unfolding from_i16 as_i16
from_i16-as_i16 approved = refl
from_i16-as_i16 rejected = refl
from_i16-as_i16 returned = refl

pub from_db-as_str : (t : WorkflowResult) → from_db (as_str t) ≡ some t
unfolding from_db as_str
from_db-as_str approved = refl
from_db-as_str rejected = refl
from_db-as_str returned = refl

-- Every value is read from its own name and its own number,
-- and from no other.
pub WorkflowResult_codec :
    (t : WorkflowResult) (s : String) (n : ℤ)
    → ((from_db s ≡ some t) ↔ (s ≡ as_str t)) × ((from_i16 n ≡ some t) ↔ (n ≡ as_i16 t))
WorkflowResult_codec t s n = (
  (from_db-eq s t, λ p. subst (λ x. from_db x ≡ some t) (sym p) (from_db-as_str t)),
  (from_i16-eq n t, λ p. subst (λ x. from_i16 x ≡ some t) (sym p) (from_i16-as_i16 t)),
)

-- ===== src/Core/ActivityType/Codec.antt =====
-- The database names and the wire numbers of `ActivityType` are read back.
use fusions.Shared.{◌≡◌, ◌↔◌, ◌≢◌, refl, arith, subst, sym}
use fusions.Shared.Int.{ℤ}
use fusions.Core.ActivityType.{
  ActivityType, start, approval, notification, end, condition, parallel, timer, event_wait,
  parallel_split, parallel_join, assignment, merge, for_each, sub_workflow, as_str, from_db, as_i16,
  from_i16,
}

-- A number that reads as `t` is the number of `t`.
from_i16-eq : (n : ℤ) (t : ActivityType) → t ≢ end → from_i16 n ≡ t → n ≡ as_i16 t
unfolding from_i16 as_i16
from_i16-eq n start e h = ground arith
from_i16-eq n approval e h = ground arith
from_i16-eq n notification e h = ground arith
from_i16-eq n end e h = absurd (e refl)
from_i16-eq n condition e h = ground arith
from_i16-eq n parallel e h = ground arith
from_i16-eq n timer e h = ground arith
from_i16-eq n event_wait e h = ground arith
from_i16-eq n parallel_split e h = ground arith
from_i16-eq n parallel_join e h = ground arith
from_i16-eq n assignment e h = ground arith
from_i16-eq n merge e h = ground arith
from_i16-eq n for_each e h = ground arith
from_i16-eq n sub_workflow e h = ground arith

pub from_i16-as_i16 : (t : ActivityType) → from_i16 (as_i16 t) ≡ t
unfolding from_i16 as_i16
from_i16-as_i16 start = refl
from_i16-as_i16 approval = refl
from_i16-as_i16 notification = refl
from_i16-as_i16 end = refl
from_i16-as_i16 condition = refl
from_i16-as_i16 parallel = refl
from_i16-as_i16 timer = refl
from_i16-as_i16 event_wait = refl
from_i16-as_i16 parallel_split = refl
from_i16-as_i16 parallel_join = refl
from_i16-as_i16 assignment = refl
from_i16-as_i16 merge = refl
from_i16-as_i16 for_each = refl
from_i16-as_i16 sub_workflow = refl

pub from_db-as_str : (t : ActivityType) → from_db (as_str t) ≡ t
unfolding from_db as_str
from_db-as_str start = refl
from_db-as_str approval = refl
from_db-as_str notification = refl
from_db-as_str end = refl
from_db-as_str condition = refl
from_db-as_str parallel = refl
from_db-as_str timer = refl
from_db-as_str event_wait = refl
from_db-as_str parallel_split = refl
from_db-as_str parallel_join = refl
from_db-as_str assignment = refl
from_db-as_str merge = refl
from_db-as_str for_each = refl
from_db-as_str sub_workflow = refl

-- Every type is read from its own name. One other than `end`, which stands for unknown ones, is
-- read from its own number and from no other.
pub ActivityType_codec :
    (t : ActivityType) (n : ℤ)
    → t ≢ end
    → (from_db (as_str t) ≡ t) × ((from_i16 n ≡ t) ↔ (n ≡ as_i16 t))
ActivityType_codec t n e = (
  from_db-as_str t,
  (from_i16-eq n t e, λ p. subst (λ x. from_i16 x ≡ t) (sym p) (from_i16-as_i16 t)),
)

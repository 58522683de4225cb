-- ===== src/Core/Backoff/Bounds.antt =====
-- The delay between retries: its exact value, its growth and its bounds.
use fusions.Shared.{ℕ, ◌*◌, ◌^◌, ◌≤◌, ◌≡◌, min, arith}
use fusions.Shared.Int.{ℤ, pos, negsuc, ◌≤ℤ◌, saturating_mul, i64_max}
use native.Mathlib.Nat.{pow-le-pow_right}
use fusions.Core.Backoff.{retry_backoff_secs, shift}

grow : (a b base : ℕ) → a ≤ b → base * 2 ^ shift a ≤ base * 2 ^ shift b
grow a b base h =
    let p : 2 ^ shift a ≤ 2 ^ shift b = pow-le-pow_right (omega arith) (omega arith) in grind arith

-- For a base that is not negative the delay grows with the attempt.
pub retry_backoff_secs_mono :
    (a b base : ℕ) (cap : ℤ)
    → a ≤ b
    → retry_backoff_secs (pos a) (pos base) cap ≤ℤ retry_backoff_secs (pos b) (pos base) cap
unfolding retry_backoff_secs saturating_mul
retry_backoff_secs_mono a b base (pos cap) h = ground (arith, grow a b base h)
retry_backoff_secs_mono a b base (negsuc cap) h = ground (arith, grow a b base h)

-- For an attempt of at most 20, a base that is not negative and a cap from 0 to i64::MAX, the delay is
-- base * 2^attempt or the cap, whichever is less.
pub retry_backoff_secs_exact :
    (attempt base cap : ℕ)
    → attempt ≤ 20
    → cap ≤ i64_max
    → retry_backoff_secs (pos attempt) (pos base) (pos cap) ≡ pos (min (base * 2 ^ attempt) cap)
unfolding retry_backoff_secs saturating_mul
retry_backoff_secs_exact attempt base cap h k =
    let e : shift attempt ≡ attempt = omega arith in rw e (ground arith)

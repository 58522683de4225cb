-- ===== src/Core/Backoff.antt =====
-- `retry_backoff_secs` of crates/hetuflow-core/src/lib.rs: base * 2^attempt seconds, capped. The shift is
-- at most 20, so `1i64.checked_shl` never fails and its `unwrap_or` is never taken.
pub mod Bounds
use fusions.Shared.{ℕ, ◌^◌, if◌then◌else◌, min}
use fusions.Shared.Int.{ℤ, pos, negsuc, min_ℤ, saturating_mul}

abbrev pub shift : ℕ → ℕ
shift attempt = min attempt 20

unfoldable pub retry_backoff_secs : ℤ → ℤ → ℤ → ℤ
retry_backoff_secs (negsuc _) base cap = base
retry_backoff_secs (pos attempt) base cap = min_ℤ (saturating_mul base (2 ^ shift attempt)) cap

-- ===== src/Shared/Int.antt =====
-- Signed integers over the native numbers, and the fixed widths of the source.
use Prim.Native.Nat.{ℕ, suc, ◌+◌, ◌-◌, ◌*◌, ◌%◌, ◌≤◌}
use mathlib.Core.Bool.{Bool, true, false}
use mathlib.Core.Path.{◌≡◌}
use native.Mathlib.Omega.{arith}
use fusions.Shared.Tests.{ltb, leb, nat_eq, if◌then◌else◌}

-- `negsuc n` is -(n + 1).
pub data ℤ : Type 0 where
  pos : ℕ → ℤ
  negsuc : ℕ → ℤ

abbrev pub pos_part : ℤ → ℕ
pos_part (pos n) = n
pos_part (negsuc n) = 0

abbrev pub neg_part : ℤ → ℕ
neg_part (pos n) = 0
neg_part (negsuc n) = suc n

-- a - b, as an integer.
abbrev pub sub_ℕ : ℕ → ℕ → ℤ
sub_ℕ a b = if leb b a then pos (a - b) else negsuc (b - a - 1)

infixl 65 ◌+ℤ◌
unfoldable pub ◌+ℤ◌ : ℤ → ℤ → ℤ
a +ℤ b = sub_ℕ (pos_part a + pos_part b) (neg_part a + neg_part b)

infix 50 ◌≤ℤ◌
abbrev pub ◌≤ℤ◌ : ℤ → ℤ → Type 0
a ≤ℤ b = pos_part a + neg_part b ≤ pos_part b + neg_part a

abbrev pub leb_ℤ : ℤ → ℤ → Bool
leb_ℤ a b = leb (pos_part a + neg_part b) (pos_part b + neg_part a)

abbrev pub ltb_ℤ : ℤ → ℤ → Bool
ltb_ℤ a b = ltb (pos_part a + neg_part b) (pos_part b + neg_part a)

abbrev pub eq_ℤ : ℤ → ℤ → Bool
eq_ℤ (pos a) (pos b) = nat_eq a b
eq_ℤ (negsuc a) (negsuc b) = nat_eq a b
eq_ℤ _ _ = false

abbrev pub min_ℤ : ℤ → ℤ → ℤ
min_ℤ a b = if leb_ℤ a b then a else b

-- `n > 0`
abbrev pub is_positive : ℤ → Bool
is_positive (pos n) = ltb 0 n
is_positive (negsuc n) = false

-- `i64::MAX` is 2^63 - 1 and `i64::MIN` is -2^63.
abbrev pub i64_max : ℕ
i64_max = 9223372036854775807

-- `a.saturating_mul(b)` on i64, for a factor `b` that is not negative.
unfoldable pub saturating_mul : ℤ → ℕ → ℤ
saturating_mul (pos a) b = pos (if leb (a * b) i64_max then a * b else i64_max)
saturating_mul (negsuc a) b =
    if nat_eq b 0
    then pos 0
    else negsuc (if leb (suc a * b) (suc i64_max) then suc a * b - 1 else i64_max)

-- `n as i32` for a number: the low 32 bits, read as two's complement.
unfoldable pub to_i32 : ℕ → ℤ
to_i32 n = let r = n % 4294967296 in if ltb r 2147483648 then pos r else negsuc (4294967296 - r - 1)

-- `n as i32` for an i64.
unfoldable pub i32_of : ℤ → ℤ
unfolding to_i32
i32_of (pos n) = to_i32 n
i32_of (negsuc n) = to_i32 (4294967295 - n % 4294967296)

pub eq_ℤ_refl : (n : ℤ) → eq_ℤ n n ≡ true
eq_ℤ_refl (pos n) = ground arith
eq_ℤ_refl (negsuc n) = ground arith

pub eq_ℤ→≡ : (m n : ℤ) → eq_ℤ m n ≡ true → m ≡ n
eq_ℤ→≡ (pos m) (pos n) h = ground arith
eq_ℤ→≡ (pos m) (negsuc n) h = cc
eq_ℤ→≡ (negsuc m) (pos n) h = cc
eq_ℤ→≡ (negsuc m) (negsuc n) h = ground arith

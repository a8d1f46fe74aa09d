-- ===== src/Common/Int.antt =====
-- The integers over the native numbers, under the library's names: `negsuc n` is -(n + 1).
use Prim.Native.Nat.{ℕ, ◌+◌, ◌-◌}
use mathlib.Core.Bool.{Bool, true, false}
use vibes.Common.Tests.{leb, ltb, ◌==◌, if◌then◌else◌}

pub data ℤ : Type 0 where
  pos negsuc : ℕ → ℤ

-- `n < 0`
abbrev pub is_negative : ℤ → Bool
is_negative (pos n) = false
is_negative (negsuc n) = true

-- `n == 0`
abbrev pub is_zero : ℤ → Bool
is_zero (pos n) = n == 0
is_zero (negsuc n) = false

-- a - b
abbrev pub sub_ℕ : ℕ → ℕ → ℤ
sub_ℕ a b = if leb b a then pos (a - b) else negsuc (b - a - 1)

-- k + n
abbrev pub add_ℕ : ℕ → ℤ → ℤ
add_ℕ k (pos n) = pos (k + n)
add_ℕ k (negsuc n) = sub_ℕ k (n + 1)

-- k < n
abbrev pub lt_ℤ : ℕ → ℤ → Bool
lt_ℤ k (pos n) = ltb k n
lt_ℤ k (negsuc n) = false

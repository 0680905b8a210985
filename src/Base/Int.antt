-- ===== src/Base/Int.antt =====
-- Signed integers over the native numbers, under the library's names.
use Prim.Native.Nat.{ℕ, suc, ◌+◌, ◌-◌, ◌^◌}
use mathlib.Core.Option.{Option, none, some}
use mos.Base.Tests.{ltb, leb, if◌then◌else◌}

-- `negsuc n` is -(n + 1).
pub data ℤ : Type 0 where
  pos : ℕ → ℤ
  negsuc : ℕ → ℤ

abbrev pub pos_part : ℤ → ℕ
pos_part (pos n) = n
pos_part (negsuc n) = 0

abbrev pub neg_part : ℤ → ℕ
neg_part (pos n) = 0
neg_part (negsuc n) = suc n

abbrev pub sub_ℕ : ℕ → ℕ → ℤ
sub_ℕ a b = if leb b a then pos (a - b) else negsuc (b - a - 1)

infixl 65 ◌+ℤ◌
unfoldable pub ◌+ℤ◌ : ℤ → ℤ → ℤ
a +ℤ b = sub_ℕ (pos_part a + pos_part b) (neg_part a + neg_part b)

-- `__builtin_add_overflow` on `int64_t`: `none` is an overflow.
abbrev pub in_int64 : ℤ → Option ℤ
in_int64 (pos n) = if ltb n (2 ^ 63) then some (pos n) else none
in_int64 (negsuc n) = if ltb n (2 ^ 63) then some (negsuc n) else none

unfoldable pub add_int64 : ℤ → ℤ → Option ℤ
unfolding ◌+ℤ◌
add_int64 a b = in_int64 (a +ℤ b)

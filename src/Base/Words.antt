-- ===== src/Base/Words.antt =====
-- Machine words as numbers below a power of two, and the kernel's results.
use Prim.Native.Nat.{ℕ, ◌+◌, ◌-◌, ◌%◌, ◌^◌}
use mathlib.Core.Bool.{Bool, ◌&&◌}
use mos.Base.Tests.{ltb}

abbrev pub u32_mod : ℕ
u32_mod = 2 ^ 32

abbrev pub u64_mod : ℕ
u64_mod = 2 ^ 64

-- `unsigned` arithmetic.
abbrev pub add32 : ℕ → ℕ → ℕ
add32 a b = (a + b) % u32_mod

abbrev pub sub32 : ℕ → ℕ → ℕ
sub32 a b = (a + u32_mod - b) % u32_mod

-- `uint64_t` subtraction.
abbrev pub sub64 : ℕ → ℕ → ℕ
sub64 a b = (a + u64_mod - b) % u64_mod

-- `n > 0` for an `int` held as its bit pattern.
abbrev pub is_positive32 : ℕ → Bool
is_positive32 n = ltb 0 n && ltb n (2 ^ 31)

-- The errors of src/errno.h that the modelled code returns.
pub data Errno : Type 0 where
  eintr ebadf eagain enomem efault einval epipe eoverflow ecanceled emfile enotty : Errno

-- A result of type `int` or `ssize_t`: a count, or the negative of an error number.
pub data Outcome : Type 0 where
  count : ℕ → Outcome
  fails : Errno → Outcome

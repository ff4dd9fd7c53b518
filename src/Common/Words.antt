-- ===== src/Common/Words.antt =====
-- Machine arithmetic: the 32-bit and 64-bit unsigned integers of the program, and `ceil_div` of
-- src/utils.hpp.
use Prim.Native.Nat.{ℕ, ◌+◌, ◌-◌, ◌/◌, ◌%◌, ◌^◌, ◌<◌}
use mathlib.Core.Path.{◌≡◌}
use native.Mathlib.Nat.{mod-eq_of_lt}
use clvk.Common.Tests.{◌==◌, if◌then◌else◌}

-- `uint32_t`, also `cl_uint`.
abbrev pub u32 : ℕ → ℕ
u32 n = n % 2 ^ 32

-- `size_t` and `uint64_t`.
abbrev pub u64 : ℕ → ℕ
u64 n = n % 2 ^ 64

-- The quotient rounded up.
unfoldable pub ceil_div : ℕ → ℕ → ℕ
ceil_div num divisor = num / divisor + (if num % divisor == 0 then 0 else 1)

pub u32-id : {n : ℕ} → n < 2 ^ 32 → u32 n ≡ n
u32-id h = mod-eq_of_lt h

pub u64-id : {n : ℕ} → n < 2 ^ 64 → u64 n ≡ n
u64-id h = mod-eq_of_lt h

-- Subtraction on `size_t` wraps.
abbrev pub sub64 : ℕ → ℕ → ℕ
sub64 a b = (a + 2 ^ 64 - b) % 2 ^ 64

-- Subtraction on `uint32_t` wraps.
abbrev pub sub32 : ℕ → ℕ → ℕ
sub32 a b = (a + 2 ^ 32 - b) % 2 ^ 32

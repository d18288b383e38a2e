-- ===== src/Prelude/Words.antt =====
-- The wrap-around of the machine's unsigned words.
use Prim.Native.Nat.{ℕ, ◌-◌, ◌+◌, ◌%◌, ◌^◌, ◌<◌, ◌≤◌}
use mathlib.Core.Path.{◌≡◌}
use native.Mathlib.Omega.{arith}

-- `unsigned long`, `u64` and `uintptr_t` on the 64-bit target.
unfoldable pub u64 : ℕ → ℕ
u64 n = n % 2 ^ 64

-- `unsigned int`, `u32` and `uint32_t`.
unfoldable pub u32 : ℕ → ℕ
u32 n = n % 2 ^ 32

-- `a - b` on `u64`; `-` on ℕ stops at 0, so the modulus is added first.
unfoldable pub u64_sub : ℕ → ℕ → ℕ
u64_sub a b = (a + 2 ^ 64 - b) % 2 ^ 64

pub u64_sub-eq_of_le : (a b : ℕ) → b ≤ a → a < 2 ^ 64 → u64_sub a b ≡ a - b
unfolding u64_sub
u64_sub-eq_of_le a b h k = omega arith

pub u64-eq_of_lt : (n : ℕ) → n < 2 ^ 64 → u64 n ≡ n
unfolding u64
u64-eq_of_lt n h = omega arith

pub u32-eq_of_lt : (n : ℕ) → n < 2 ^ 32 → u32 n ≡ n
unfolding u32
u32-eq_of_lt n h = omega arith

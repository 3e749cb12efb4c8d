-- ===== src/Base/Int.antt =====
-- `int32_t` values: integers over the native numbers, and the sums that C++ leaves undefined
-- when they leave the range.
use networkio.Base.Tests.{ltb, if◌then◌else◌}
use Prim.Native.Nat.{ℕ, ◌+◌, ◌<◌, ◌^◌, ◌%◌}
use mathlib.Core.Path.{◌≡◌}
use mathlib.Core.Bool.{Bool, false}
use mathlib.Core.Option.{Option, none, some}
use native.Mathlib.Omega.{arith}

-- `negsuc n` is -(n + 1).
pub data ℤ : Type 0 where
  pos : ℕ → ℤ
  negsuc : ℕ → ℤ

abbrev pub int32_limit : ℕ
int32_limit = 2 ^ 31

-- `a + b` on `int32_t` for operands that are not negative; overflow is undefined behaviour.
unfoldable pub add_int32 : ℕ → ℕ → Option ℕ
add_int32 a b = if ltb (a + b) int32_limit then some (a + b) else none

pub add_int32_eq : (a b : ℕ) → a + b < int32_limit → add_int32 a b ≡ some (a + b)
unfolding add_int32
add_int32_eq a b h = ground arith

-- A `uint32_t`.
abbrev pub u32 : ℕ → ℕ
u32 n = n % 2 ^ 32

abbrev pub is_positive : ℤ → Bool
is_positive (pos n) = ltb 0 n
is_positive (negsuc n) = false

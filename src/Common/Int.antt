-- ===== src/Common/Int.antt =====
-- Go's `int`, where a value may be negative.
use Prim.Native.Nat.{ℕ, ◌-◌, ◌^◌}
use termwire.Common.Words.{u32}

-- `negsuc n` is -(n + 1).
pub data ℤ : Type 0 where
  pos negsuc : ℕ → ℤ

-- `uint32(n)`.
abbrev pub uint32 : ℤ → ℕ
uint32 (pos n) = u32 n
uint32 (negsuc n) = 2 ^ 32 - 1 - u32 n

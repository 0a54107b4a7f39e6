-- ===== src/Prelude/Int.antt =====
-- Go's `int`: signed numbers of 64 bits, as sign and magnitude over the native numbers.
use Prim.Native.Nat.{ℕ, zero, suc, ◌<◌, ◌^◌}
use mathlib.Core.Bool.{Bool, false}
use ngp_mtls.Prelude.Tests.{ltb}

-- `negsuc n` is -(n + 1).
pub data ℤ : Type 0 where
  pos : ℕ → ℤ
  negsuc : ℕ → ℤ

-- -n.
abbrev pub neg : ℕ → ℤ
neg zero = pos 0
neg (suc n) = negsuc n

-- `0 < a`.
abbrev pub positive : ℤ → Bool
positive (pos n) = ltb 0 n
positive (negsuc n) = false

-- The range of a 64-bit `int`.
abbrev pub IsInt64 : ℤ → Type 0
IsInt64 (pos n) = n < 2 ^ 63
IsInt64 (negsuc n) = n < 2 ^ 63

-- ===== src/Prelude/Int.antt =====
-- Signed integers over the native numbers, and the wrap-around and saturation of int64.
use Prim.Native.Nat.{ℕ, suc, ◌+◌, ◌-◌, ◌^◌, ◌%◌}
use mathlib.Core.Bool.{Bool, true, false}
use k8s_health_ai.Prelude.Tests.{leb, ltb, if◌then◌else◌}

-- `negsuc n` is -(n + 1).
pub data ℤ : Type 0 where
  pos : ℕ → ℤ
  negsuc : ℕ → ℤ

-- a - b
abbrev pub sub_ℕ : ℕ → ℕ → ℤ
sub_ℕ a b = if leb b a then pos (a - b) else negsuc (b - a - 1)

abbrev pub is_positive : ℤ → Bool
is_positive (pos n) = ltb 0 n
is_positive (negsuc n) = false

abbrev pub int64_half : ℕ
int64_half = 2 ^ 63

-- the int64 with the bits of `n`
abbrev pub from_bits : ℕ → ℤ
from_bits n = if ltb n int64_half then pos n else negsuc (2 ^ 64 - n - 1)

-- the conversion of a whole number to int64, two's complement
abbrev pub wrap : ℤ → ℤ
wrap (pos n) = from_bits (n % 2 ^ 64)
wrap (negsuc n) = from_bits ((2 ^ 64 - 1) - n % 2 ^ 64)

-- the nearest int64
abbrev pub saturate : ℤ → ℤ
saturate (pos n) = if ltb n int64_half then pos n else pos (int64_half - 1)
saturate (negsuc n) = if ltb n int64_half then negsuc n else negsuc (int64_half - 1)

-- k - z for a number k, before any wrap-around
abbrev pub minus : ℕ → ℤ → ℤ
minus k (pos n) = sub_ℕ k n
minus k (negsuc n) = pos (k + suc n)

abbrev pub less_than : ℤ → ℕ → Bool
less_than (pos n) k = ltb n k
less_than (negsuc n) k = true

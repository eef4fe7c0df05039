-- ===== src/Base/Int64.antt =====
-- 64-bit signed integers as bit patterns, numbers below 2 ^ 64 in two's complement.
use Prim.Native.Nat.{ℕ, ◌+◌, ◌%◌, ◌^◌}
use mathlib.Core.Bool.{Bool}
use libcoro.Base.Tests.{leb}

abbrev pub sign_bit : ℕ
sign_bit = 2 ^ 63

-- `a <= b`, by comparing the patterns with their sign bits flipped.
abbrev pub signed_leb : ℕ → ℕ → Bool
signed_leb a b = leb ((a + sign_bit) % 2 ^ 64) ((b + sign_bit) % 2 ^ 64)

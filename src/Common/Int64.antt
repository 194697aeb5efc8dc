-- ===== src/Common/Int64.antt =====
-- Go's `int64` as its bit pattern, a number below 2 ^ 64, with the wrap-around written out.
use Prim.Native.Nat.{ℕ, ◌+◌, ◌-◌, ◌%◌, ◌^◌, ◌≤◌, ◌<◌}
use mathlib.Core.Bool.{Bool, true}
use mathlib.Core.Path.{◌≡◌}
use native.Mathlib.Omega.{arith}
use golang_frame_practice.Common.Tests.{ltb}

-- a + b and a - b on bit patterns.
unfoldable pub add64 : ℕ → ℕ → ℕ
add64 a b = (a + b) % 2 ^ 64

unfoldable pub sub64 : ℕ → ℕ → ℕ
sub64 a b = (a + 2 ^ 64 - b) % 2 ^ 64

-- The signed a > b: the order of the patterns with the sign bit flipped.
unfoldable pub gt64 : ℕ → ℕ → Bool
gt64 a b = ltb ((b + 2 ^ 63) % 2 ^ 64) ((a + 2 ^ 63) % 2 ^ 64)

pub add64_exact : (a b : ℕ) → a + b < 2 ^ 63 → add64 a b ≡ a + b
unfolding add64
add64_exact a b h = omega arith

pub sub64_exact : (a b : ℕ) → b ≤ a → a < 2 ^ 63 → sub64 a b ≡ a - b
unfolding sub64
sub64_exact a b h k = omega arith

-- A signed difference may be negative; added to a number that covers it, it comes out exact.
pub add64-sub64 :
    (u n o : ℕ)
    → o ≤ u
    → u < 2 ^ 63
    → n < 2 ^ 63
    → u + n - o < 2 ^ 63
    → add64 u (sub64 n o) ≡ u + n - o
unfolding add64 sub64
add64-sub64 u n o h p k l = omega arith

pub gt64_exact : (a b : ℕ) → a < 2 ^ 63 → b < 2 ^ 63 → gt64 a b ≡ ltb b a
unfolding gt64
gt64_exact a b h k = ground arith

-- Every non-negative number is greater than every negative one.
pub gt64_negative : (a b : ℕ) → a < 2 ^ 63 → 2 ^ 63 ≤ b → b < 2 ^ 64 → gt64 a b ≡ true
unfolding gt64
gt64_negative a b h k l = ground arith

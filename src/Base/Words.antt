-- ===== src/Base/Words.antt =====
-- Machine words. An `int` is its bit pattern, a number below 2^32; the tests that look at the sign
-- are written out.
use Prim.Native.Nat.{ℕ, ◌+◌, ◌-◌, ◌/◌, ◌%◌, ◌^◌}
use mathlib.Core.Bool.{Bool}
use evil_engine.Base.Tests.{ltb, leb, ◌==◌, if◌then◌else◌}

abbrev pub CInt : Type 0
CInt = ℕ

abbrev pub minus_one : CInt
minus_one = 2 ^ 32 - 1

-- `a + b` on `int` and on `uint32_t`.
abbrev pub add32 : ℕ → ℕ → ℕ
add32 a b = (a + b) % 2 ^ 32

-- `a - b` on `int` and on `uint32_t`.
abbrev pub sub32 : ℕ → ℕ → ℕ
sub32 a b = (a + 2 ^ 32 - b) % 2 ^ 32

-- `a + b` and `a - b` on `uint64_t` and `size_t`.
abbrev pub add64 : ℕ → ℕ → ℕ
add64 a b = (a + b) % 2 ^ 64

abbrev pub sub64 : ℕ → ℕ → ℕ
sub64 a b = (a + 2 ^ 64 - b) % 2 ^ 64

-- `a >= 0` on `int`.
abbrev pub is_nonneg : CInt → Bool
is_nonneg a = ltb a (2 ^ 31)

-- `a <= b` and `a < b` on `int`: the order of the patterns moved by half the range.
abbrev pub le_int : CInt → CInt → Bool
le_int a b = leb ((a + 2 ^ 31) % 2 ^ 32) ((b + 2 ^ 31) % 2 ^ 32)

-- `mask & (1ULL << i)`, as a truth value.
abbrev pub test_bit : ℕ → ℕ → Bool
test_bit mask i = (mask / 2 ^ i) % 2 == 1

-- `a / n` and `a % n` on `int` for a small positive `n`: the quotient is cut towards zero, and the
-- remainder has the sign of `a`.
abbrev pub div_int : CInt → ℕ → CInt
div_int a n = if is_nonneg a then a / n else (2 ^ 32 - (2 ^ 32 - a) / n) % 2 ^ 32

abbrev pub mod_int : CInt → ℕ → CInt
mod_int a n = if is_nonneg a then a % n else (2 ^ 32 - (2 ^ 32 - a) % n) % 2 ^ 32

-- ===== src/Base/Word.antt =====
-- The 32-bit `int` and `uint32_t` of the sources as bit patterns below 2 ^ 32.
use Prim.Native.Nat.{ℕ, ◌+◌, ◌-◌, ◌*◌, ◌%◌, ◌^◌}
use mathlib.Core.Bool.{Bool}
use xapm.Base.Tests.{leb}

abbrev pub u32_mod : ℕ
u32_mod = 2 ^ 32

abbrev pub u64_mod : ℕ
u64_mod = 2 ^ 64

-- A pattern from here on stands for a negative `int`.
abbrev pub int_max : ℕ
int_max = 2 ^ 31

abbrev pub add32 : ℕ → ℕ → ℕ
add32 a b = (a + b) % u32_mod

abbrev pub sub32 : ℕ → ℕ → ℕ
sub32 a b = (a + u32_mod - b) % u32_mod

abbrev pub mul32 : ℕ → ℕ → ℕ
mul32 a b = a * b % u32_mod

-- `a >= b` on `int`: adding 2 ^ 31 turns the order of the integers into that of the patterns.
abbrev pub ge_int : ℕ → ℕ → Bool
ge_int a b = leb ((b + int_max) % u32_mod) ((a + int_max) % u32_mod)

-- ===== src/Base/Word.antt =====
-- Machine words of C as native numbers: `uint32_t`, `unsigned long` (64 bits) and the bit
-- pattern of a negative `int`.
use Prim.Native.Nat.{ℕ, ◌+◌, ◌-◌, ◌*◌, ◌%◌, ◌^◌, ◌<◌}

abbrev pub two32 : ℕ
two32 = 2 ^ 32

abbrev pub two64 : ℕ
two64 = 2 ^ 64

-- A conversion to `uint32_t`.
abbrev pub u32 : ℕ → ℕ
u32 a = a % two32

-- Arithmetic of `uint64_t` and `unsigned long`.
abbrev pub add64 : ℕ → ℕ → ℕ
add64 a b = (a + b) % two64

abbrev pub sub64 : ℕ → ℕ → ℕ
sub64 a b = (a + two64 - b % two64) % two64

abbrev pub mul64 : ℕ → ℕ → ℕ
mul64 a b = a * b % two64

-- The bit pattern of `-e` in 32 and in 64 bits, for a positive `e`.
abbrev pub neg32 : ℕ → ℕ
neg32 e = two32 - e

abbrev pub neg64 : ℕ → ℕ
neg64 e = two64 - e

abbrev pub IsWord : ℕ → Type 0
IsWord a = a < two32

-- ===== src/Prelude/Words.antt =====
-- Machine integers as native numbers: a w-bit sum wraps by `% 2 ^ w` or saturates.
use Prim.Native.Nat.{ℕ, ◌+◌, ◌-◌, ◌*◌, ◌^◌, min, max}

abbrev pub u8_mod : ℕ
u8_mod = 2 ^ 8

abbrev pub u32_mod : ℕ
u32_mod = 2 ^ 32

abbrev pub u64_mod : ℕ
u64_mod = 2 ^ 64

-- u32::saturating_add, u64::saturating_add, u64::saturating_mul
abbrev pub sat_add32 : ℕ → ℕ → ℕ
sat_add32 a b = min (a + b) (u32_mod - 1)

abbrev pub sat_add64 : ℕ → ℕ → ℕ
sat_add64 a b = min (a + b) (u64_mod - 1)

abbrev pub sat_mul64 : ℕ → ℕ → ℕ
sat_mul64 a b = min (a * b) (u64_mod - 1)

-- u64::clamp
abbrev pub clamp : ℕ → ℕ → ℕ → ℕ
clamp lo hi x = max lo (min hi x)

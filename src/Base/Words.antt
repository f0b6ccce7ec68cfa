-- ===== src/Base/Words.antt =====
-- Machine words as native numbers: unsigned arithmetic wraps by `%`.
use Prim.Native.Nat.{ℕ, ◌+◌, ◌-◌, ◌%◌, ◌^◌, ◌<◌}
use mathlib.Core.Path.{◌≡◌}
use native.Mathlib.Omega.{arith}

abbrev pub u8_mod : ℕ
u8_mod = 2 ^ 8

abbrev pub u16_mod : ℕ
u16_mod = 2 ^ 16

abbrev pub u32_mod : ℕ
u32_mod = 2 ^ 32

abbrev pub u64_mod : ℕ
u64_mod = 2 ^ 64

-- uint32_t a + b and a - b.
unfoldable pub add32 : ℕ → ℕ → ℕ
add32 a b = (a + b) % u32_mod

unfoldable pub sub32 : ℕ → ℕ → ℕ
sub32 a b = (a + u32_mod - b) % u32_mod

pub add32-lt : (a b : ℕ) → add32 a b < u32_mod
unfolding add32
add32-lt a b = omega arith

pub sub32-lt : (a b : ℕ) → sub32 a b < u32_mod
unfolding sub32
sub32-lt a b = omega arith

pub sub32-add32 : (a b : ℕ) → a < u32_mod → b < u32_mod → sub32 (add32 a b) b ≡ a
unfolding add32 sub32
sub32-add32 a b ha hb = omega arith

pub add32-sub32 : (a b : ℕ) → a < u32_mod → b < u32_mod → add32 (sub32 a b) b ≡ a
unfolding add32 sub32
add32-sub32 a b ha hb = omega arith

-- ===== src/Common/Words.antt =====
-- Rust's unsigned machine integers as native numbers. A value of width w is a number below 2 ^ w;
-- plain `+`, `-` and `*` wrap in a release build, the `saturating_` operations stop at the ends.
use Prim.Native.Nat.{ℕ, ◌+◌, ◌-◌, ◌*◌, ◌%◌, ◌^◌, min}

abbrev pub u32_mod : ℕ
u32_mod = 2 ^ 32

abbrev pub u32_max : ℕ
u32_max = 2 ^ 32 - 1

abbrev pub u128_max : ℕ
u128_max = 2 ^ 128 - 1

abbrev pub u256_max : ℕ
u256_max = 2 ^ 256 - 1

-- `u128::saturating_add`
abbrev pub saturating_add : ℕ → ℕ → ℕ
saturating_add a b = min (a + b) u128_max

-- `saturating_sub`, at every width
abbrev pub saturating_sub : ℕ → ℕ → ℕ
saturating_sub a b = a - b

-- `u32::saturating_add` and `u32::saturating_mul`
abbrev pub saturating_add_u32 : ℕ → ℕ → ℕ
saturating_add_u32 a b = min (a + b) u32_max

abbrev pub saturating_mul_u32 : ℕ → ℕ → ℕ
saturating_mul_u32 a b = min (a * b) u32_max

-- `a + b`, `a - b` and `a * b` on u32, and `n as u32`
abbrev pub add_u32 : ℕ → ℕ → ℕ
add_u32 a b = (a + b) % u32_mod

abbrev pub sub_u32 : ℕ → ℕ → ℕ
sub_u32 a b = (a + u32_mod - b) % u32_mod

abbrev pub mul_u32 : ℕ → ℕ → ℕ
mul_u32 a b = (a * b) % u32_mod

abbrev pub as_u32 : ℕ → ℕ
as_u32 n = n % u32_mod

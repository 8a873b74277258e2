-- ===== src/Common/Int.antt =====
-- Signed integers over the native numbers, for the `i128` flows.
use Prim.Native.Nat.{ℕ, suc, ◌+◌, ◌-◌, ◌^◌}
use hypertensor_blockchain.Common.Tests.{ltb, leb, if◌then◌else◌}

-- `negsuc n` is -(n + 1).
pub data ℤ : Type 0 where
  pos : ℕ → ℤ
  negsuc : ℕ → ℤ

abbrev pub pos_part : ℤ → ℕ
pos_part (pos n) = n
pos_part (negsuc n) = 0

abbrev pub neg_part : ℤ → ℕ
neg_part (pos n) = 0
neg_part (negsuc n) = suc n

abbrev pub sub_ℕ : ℕ → ℕ → ℤ
sub_ℕ a b = if leb b a then pos (a - b) else negsuc (b - a - 1)

infixl 65 ◌+ℤ◌ ◌-ℤ◌
unfoldable pub ◌+ℤ◌ : ℤ → ℤ → ℤ
a +ℤ b = sub_ℕ (pos_part a + pos_part b) (neg_part a + neg_part b)

unfoldable pub ◌-ℤ◌ : ℤ → ℤ → ℤ
a -ℤ b = sub_ℕ (pos_part a + neg_part b) (neg_part a + pos_part b)

-- The value that `i128::saturating_add` and `saturating_sub` keep of an exact result.
unfoldable pub clamp_i128 : ℤ → ℤ
clamp_i128 (pos n) = if ltb n (2 ^ 127) then pos n else pos (2 ^ 127 - 1)
clamp_i128 (negsuc n) = if ltb n (2 ^ 127) then negsuc n else negsuc (2 ^ 127 - 1)

-- `amount as i128`, of a u128
unfoldable pub as_i128 : ℕ → ℤ
as_i128 n = if ltb n (2 ^ 127) then pos n else negsuc (2 ^ 128 - n - 1)

-- ===== src/Common/Int.antt =====
-- Signed integers over the native numbers: Go's `int`, `int32` and `time.Duration`.
use Prim.Native.Nat.{ℕ, suc, ◌+◌, ◌*◌, ◌-◌, ◌^◌, ◌%◌}
use mathlib.Core.Bool.{Bool}
use valve_controller.Common.Tests.{ltb, leb, ◌==◌, if◌then◌else◌}

-- `negsuc n` is -(n + 1).
pub data ℤ : Type 0 where
  pos : ℕ → ℤ
  negsuc : ℕ → ℤ

abbrev pub pos_part : ℤ → ℕ
pos_part (pos n) = n
pos_part (negsuc n) = 0

abbrev pub neg_part : ℤ → ℕ
neg_part (pos n) = 0
neg_part (negsuc n) = suc n

-- a - b, as an integer.
abbrev pub sub_ℕ : ℕ → ℕ → ℤ
sub_ℕ a b = if leb b a then pos (a - b) else negsuc (b - a - 1)

-- A product by a constant that is not negative.
abbrev pub scale : ℕ → ℤ → ℤ
scale k a = sub_ℕ (k * pos_part a) (k * neg_part a)

abbrev pub ltb_ℤ : ℤ → ℤ → Bool
ltb_ℤ a b = ltb (pos_part a + neg_part b) (pos_part b + neg_part a)

abbrev pub eqb_ℤ : ℤ → ℤ → Bool
eqb_ℤ a b = (pos_part a + neg_part b) == (pos_part b + neg_part a)

abbrev pub residue_32 : ℤ → ℕ
residue_32 (pos n) = n % 2 ^ 32
residue_32 (negsuc n) = 2 ^ 32 - 1 - n % 2 ^ 32

-- The conversion to `int32`.
unfoldable pub to_int32 : ℤ → ℤ
to_int32 a = let u = residue_32 a in if ltb u (2 ^ 31) then pos u else negsuc (2 ^ 32 - 1 - u)

abbrev pub residue_64 : ℤ → ℕ
residue_64 (pos n) = n % 2 ^ 64
residue_64 (negsuc n) = 2 ^ 64 - 1 - n % 2 ^ 64

-- The wrap-around of an `int64`.
unfoldable pub to_int64 : ℤ → ℤ
to_int64 a = let u = residue_64 a in if ltb u (2 ^ 63) then pos u else negsuc (2 ^ 64 - 1 - u)

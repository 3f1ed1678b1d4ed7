-- ===== src/Prelude/Int.antt =====
-- The machine integers of the program: `i64` as integers, with the saturating operations of `std`.
use Prim.Native.Nat.{ℕ, suc, ◌+◌, ◌-◌, min}
use mathlib.Core.Bool.{Bool}
use ongrok_relay.Prelude.Tests.{leb, ltb, if◌then◌else◌}

-- `negsuc n` is -(n + 1).
pub data ℤ : Type 0 where
  pos : ℕ → ℤ
  negsuc : ℕ → ℤ

abbrev pub pos_part : ℤ → ℕ
pos_part (pos n) = n
pos_part (negsuc n) = 0

abbrev pub neg_part : ℤ → ℕ
neg_part (pos n) = 0
neg_part (negsuc n) = suc n

abbrev pub sub_ℕ : ℕ → ℕ → ℤ
sub_ℕ a b = if leb b a then pos (a - b) else negsuc (b - a - 1)

infixl 65 ◌-ℤ◌
abbrev pub ◌-ℤ◌ : ℤ → ℤ → ℤ
a -ℤ b = sub_ℕ (pos_part a + neg_part b) (neg_part a + pos_part b)

abbrev pub ltz : ℤ → ℤ → Bool
ltz a b = ltb (pos_part a + neg_part b) (pos_part b + neg_part a)

abbrev pub i64_max : ℕ
i64_max = 9223372036854775807

abbrev pub saturate_i64 : ℤ → ℤ
saturate_i64 (pos n) = pos (min n i64_max)
saturate_i64 (negsuc n) = negsuc (min n i64_max)

-- `i64::saturating_sub`.
abbrev pub saturating_sub : ℤ → ℤ → ℤ
saturating_sub a b = saturate_i64 (a -ℤ b)

-- `.clamp(0, top) as u32`, for a `top` that a `u32` holds.
abbrev pub clamp_up_to : ℕ → ℤ → ℕ
clamp_up_to top (pos n) = min n top
clamp_up_to top (negsuc n) = 0

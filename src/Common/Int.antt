-- ===== src/Common/Int.antt =====
-- Signed integers over the native numbers, with the wrap-around of int64.
use Prim.Native.Nat.{ℕ, suc, ◌+◌, ◌-◌, ◌*◌, ◌%◌, ◌^◌, ◌≤◌}
use mathlib.Core.Path.{◌≡◌}
use mathlib.Core.Bool.{Bool}
use native.Mathlib.Omega.{arith}
use iprl_poc.Common.Tests.{ltb, leb, if◌then◌else◌}

-- `negsuc n` is -(n + 1).
pub data ℤ : Type 0 where
  pos : ℕ → ℤ
  negsuc : ℕ → ℤ

abbrev pub pos_part : ℤ → ℕ
pos_part (pos n) = n
pos_part (negsuc n) = 0

abbrev pub neg_part : ℤ → ℕ
neg_part (pos n) = 0
neg_part (negsuc n) = suc n

-- a - b, as an integer.
abbrev pub sub_ℕ : ℕ → ℕ → ℤ
sub_ℕ a b = if leb b a then pos (a - b) else negsuc (b - a - 1)

infixl 65 ◌+ℤ◌ ◌-ℤ◌
infixl 70 ◌*ℤ◌
infix 50 ◌≤ℤ◌
unfoldable pub ◌+ℤ◌ : ℤ → ℤ → ℤ
a +ℤ b = sub_ℕ (pos_part a + pos_part b) (neg_part a + neg_part b)

unfoldable pub ◌-ℤ◌ : ℤ → ℤ → ℤ
a -ℤ b = sub_ℕ (pos_part a + neg_part b) (neg_part a + pos_part b)

unfoldable pub ◌*ℤ◌ : ℤ → ℤ → ℤ
a *ℤ b =
    sub_ℕ (pos_part a * pos_part b + neg_part a * neg_part b)
      (pos_part a * neg_part b + neg_part a * pos_part b)

abbrev pub ◌≤ℤ◌ : ℤ → ℤ → Type 0
a ≤ℤ b = pos_part a + neg_part b ≤ pos_part b + neg_part a

abbrev pub ltb_ℤ : ℤ → ℤ → Bool
ltb_ℤ a b = ltb (pos_part a + neg_part b) (pos_part b + neg_part a)

-- The residue of an integer in 0 … m - 1, for m > 0.
unfoldable pub mod_ℤ : ℤ → ℕ → ℕ
mod_ℤ (pos n) m = n % m
mod_ℤ (negsuc n) m = m - 1 - n % m

-- The value of an int with 2 ^ w patterns for the pattern `n`, with `half` = 2 ^ (w - 1).
unfoldable pub of_pattern : ℕ → ℕ → ℤ
of_pattern half n = if ltb n half then pos n else sub_ℕ n (2 * half)

-- int64 and int32 arithmetic wraps around.
unfoldable pub wrap64 : ℤ → ℤ
unfolding of_pattern mod_ℤ
wrap64 a = of_pattern (2 ^ 63) (mod_ℤ a (2 ^ 64))

unfoldable pub wrap32 : ℤ → ℤ
unfolding of_pattern mod_ℤ
wrap32 a = of_pattern (2 ^ 31) (mod_ℤ a (2 ^ 32))

-- `uint32(a)` of an int.
unfoldable pub to_u32 : ℤ → ℕ
unfolding mod_ℤ
to_u32 a = mod_ℤ a (2 ^ 32)

-- A number below 2 ^ 32 survives the conversion.
pub to_u32-pos : (n : ℕ) → suc n ≤ 2 ^ 32 → to_u32 (pos n) ≡ n
unfolding to_u32
to_u32-pos n h = omega arith

pub wrap64-pos : (n : ℕ) → suc n ≤ 2 ^ 63 → wrap64 (pos n) ≡ pos n
unfolding wrap64
wrap64-pos n h = ground arith

-- ===== src/Base/Int.antt =====
-- Signed integers, for the `int` values that can be negative. `negsuc n` is -(n + 1).
use Prim.Native.Nat.{ℕ, suc, ◌+◌, ◌-◌, ◌^◌, ◌≤◌, ◌<◌}
use mathlib.Core.Path.{◌≡◌}
use native.Mathlib.Omega.{arith}
use mathlib.Core.Bool.{Bool, ◌&&◌}
use mathlib.Core.Option.{Option, none, some}
use tibia_login_orig.Base.Tests.{leb, ltb, if◌then◌else◌}

pub data ℤ : Type 0 where
  pos : ℕ → ℤ
  negsuc : ℕ → ℤ

abbrev pub pos_part : ℤ → ℕ
pos_part (pos n) = n
pos_part (negsuc n) = 0

abbrev pub neg_part : ℤ → ℕ
neg_part (pos n) = 0
neg_part (negsuc n) = suc n

-- a - b, as an integer.
abbrev pub sub_ℕ : ℕ → ℕ → ℤ
sub_ℕ a b = if leb b a then pos (a - b) else negsuc (b - a - 1)

-- The test `a <= b`.
abbrev pub lebℤ : ℤ → ℤ → Bool
lebℤ a b = leb (pos_part a + neg_part b) (pos_part b + neg_part a)

-- The value of a word of 32 bits that is cast to `int`.
abbrev pub as_int : ℕ → ℤ
as_int word = if ltb word (2 ^ 31) then pos word else negsuc (2 ^ 32 - word - 1)

-- `a + b` of two values of `int`. A sum that an `int` cannot hold is undefined behaviour.
unfoldable pub add_int : ℤ → ℤ → Option ℤ
add_int a b =
    if leb (pos_part a + pos_part b) (neg_part a + neg_part b + (2 ^ 31 - 1))
      && leb (neg_part a + neg_part b) (pos_part a + pos_part b + 2 ^ 31)
    then some (sub_ℕ (pos_part a + pos_part b) (neg_part a + neg_part b))
    else none

pub add_int_pos : (a b : ℕ) → a + b < 2 ^ 31 → add_int (pos a) (pos b) ≡ some (pos (a + b))
unfolding add_int
add_int_pos a b h = ground arith

pub add_int_overflow : (a b : ℕ) → 2 ^ 31 ≤ a + b → add_int (pos a) (pos b) ≡ none
unfolding add_int
add_int_overflow a b h = ground arith

pub add_int_negsuc :
    (a n : ℕ) → a < 2 ^ 31 → n < 2 ^ 31 → add_int (pos a) (negsuc n) ≡ some (sub_ℕ a (suc n))
unfolding add_int
add_int_negsuc a n h k = ground arith

-- ===== src/Base/Bits.antt =====
-- `|` of disjoint fields and `&` with a low mask, as arithmetic.
use Prim.Native.Nat.{
  ℕ, zero, suc, ◌+◌, ◌-◌, ◌*◌, ◌/◌, ◌%◌, ◌^◌, ◌≤◌, ◌<◌, min, max, bit_and, bit_or, digits, bitwise,
  bit_and-bitwise, bit_or-bitwise,
}
use mathlib.Core.Path.{◌≡◌, refl, ap, ◌∙◌}
use mathlib.Core.Bool.{Bool, true, ◌&&◌}
use native.Mathlib.Nat.{pow-suc, one-le-pow, mod-lt}
use native.Mathlib.Omega.{arith}

-- A table: a test of all the numbers in front of a bound.
unfoldable pub holds_below : (ℕ → Bool) → ℕ → Bool
holds_below test zero = true
holds_below test (suc last) = holds_below test last && test last

pub holds_at :
    (test : ℕ → Bool) (bound i : ℕ) → holds_below test bound ≡ true → i < bound → test i ≡ true
unfolding holds_below
holds_at test zero i table inside = absurd (omega arith)
holds_at test (suc last) i table inside = ground (arith, holds_at test last i)

-- The digit recursion behind the native operations does not depend on spare fuel.
module _ (rest : ℕ → ℕ) (digit : ℕ → ℕ → ℕ) where
  one_spare :
      (fuel a b : ℕ) → a ≤ fuel → digits rest digit (suc fuel) a b ≡ digits rest digit fuel a b
  one_spare zero zero b enough = refl
  one_spare (suc fuel) zero b enough = refl
  one_spare zero (suc a) b enough = absurd (omega arith)
  one_spare (suc fuel) (suc a) b enough =
      ap (λ (high : ℕ). high * 2 + digit (suc a % 2) (b % 2))
        (one_spare fuel (suc a / 2) (b / 2) (omega arith))

  all_spare :
      (spare a b : ℕ) {fuel : ℕ}
      → fuel ≡ spare + a
      → digits rest digit fuel a b ≡ bitwise rest digit a b
  all_spare zero a b e = ap (λ (fuel : ℕ). digits rest digit fuel a b) (e ∙ omega arith)
  all_spare (suc spare) a b {fuel = zero} e = absurd (omega arith)
  all_spare (suc spare) a b {fuel = suc fuel} e =
      one_spare fuel a b (omega arith) ∙ all_spare spare a b (omega arith)

  bitwise_digit :
      (a b : ℕ)
      → bitwise rest digit (suc a) b
        ≡ bitwise rest digit (suc a / 2) (b / 2) * 2 + digit (suc a % 2) (b % 2)
  bitwise_digit a b =
      ap (λ (high : ℕ). high * 2 + digit (suc a % 2) (b % 2))
        (all_spare (a - suc a / 2) (suc a / 2) (b / 2) (omega arith))

or_digit : (a b : ℕ) → max (a % 2) (b % 2) + 2 * bit_or (a / 2) (b / 2) ≡ bit_or a b
or_digit zero b = omega (arith, bit_or-bitwise 0 (b / 2), bit_or-bitwise 0 b)
or_digit (suc a) b = omega (
  arith,
  bitwise_digit (λ right. right) max a b,
  bit_or-bitwise (suc a / 2) (b / 2),
  bit_or-bitwise (suc a) b,
)

and_digit : (a b : ℕ) → min (a % 2) (b % 2) + 2 * bit_and (a / 2) (b / 2) ≡ bit_and a b
and_digit zero b = omega (arith, bit_and-bitwise 0 (b / 2), bit_and-bitwise 0 b)
and_digit (suc a) b = omega (
  arith,
  bitwise_digit (λ right. 0) min a b,
  bit_and-bitwise (suc a / 2) (b / 2),
  bit_and-bitwise (suc a) b,
)

zero-bit_or : (b : ℕ) → bit_or 0 b ≡ b
zero-bit_or b = bit_or-bitwise 0 b

bit_or-zero : (a fuel : ℕ) → a ≤ fuel → a ≡ bit_or a 0
bit_or-zero zero fuel enough = refl
bit_or-zero (suc a) zero enough = absurd (omega arith)
bit_or-zero (suc a) (suc fuel) enough =
    omega (arith, bit_or-zero (suc a / 2) fuel (omega arith), or_digit (suc a) 0)

bit_and-zero : (a fuel : ℕ) → a ≤ fuel → 0 ≡ bit_and a 0
bit_and-zero zero fuel enough = refl
bit_and-zero (suc a) zero enough = absurd (omega arith)
bit_and-zero (suc a) (suc fuel) enough =
    omega (arith, bit_and-zero (suc a / 2) fuel (omega arith), and_digit (suc a) 0)

-- One doubling of a shifted field.
shifted_suc : (q k : ℕ) → q * 2 ^ suc k ≡ q * 2 ^ k * 2
shifted_suc q k = omega (arith, ap (λ (t : ℕ). q * t) (pow-suc 2 k))

-- `(high << k) | low` and `low | (high << k)`, where `low` fits in `k` bits.
pub or_high_low : (k high low : ℕ) → low < 2 ^ k → bit_or (high * 2 ^ k) low ≡ high * 2 ^ k + low
or_high_low zero high low h = omega (
  arith,
  ap (bit_or (high * 1)) (zero_below low h),
  bit_or-zero (high * 1) (high * 1) (omega arith),
)
  where
    zero_below : (n : ℕ) → n < 1 → n ≡ 0
    zero_below n p = omega arith
or_high_low (suc k) high low h = omega (
  arith,
  or_digit (high * 2 ^ suc k) low,
  ap (λ (t : ℕ). bit_or t (low / 2)) halved,
  shifted_suc high k,
  or_high_low k high (low / 2) (omega (arith, pow-suc 2 k)),
)
  where
    halved : high * 2 ^ suc k / 2 ≡ high * 2 ^ k
    halved = omega (arith, shifted_suc high k)

pub or_low_high : (k high low : ℕ) → low < 2 ^ k → bit_or low (high * 2 ^ k) ≡ low + high * 2 ^ k
or_low_high zero high low h =
    omega (arith, ap (λ (t : ℕ). bit_or t (high * 1)) (zero_below low h), zero-bit_or (high * 1))
  where
    zero_below : (n : ℕ) → n < 1 → n ≡ 0
    zero_below n p = omega arith
or_low_high (suc k) high low h = omega (
  arith,
  or_digit low (high * 2 ^ suc k),
  ap (bit_or (low / 2)) halved,
  shifted_suc high k,
  or_low_high k high (low / 2) (omega (arith, pow-suc 2 k)),
)
  where
    halved : high * 2 ^ suc k / 2 ≡ high * 2 ^ k
    halved = omega (arith, shifted_suc high k)

-- `&` with a mask of `k` ones keeps the low field.
and_low_field :
    (k mask high low : ℕ) → mask + 1 ≡ 2 ^ k → low < 2 ^ k → bit_and (high * 2 ^ k + low) mask ≡ low
and_low_field zero mask high low e h = omega (
  arith,
  ap (bit_and (high * 1 + low)) none_set,
  bit_and-zero (high * 1 + low) (high * 1 + low) (omega arith),
)
  where
    none_set : mask ≡ 0
    none_set = omega arith
and_low_field (suc k) mask high low e h = omega (
  arith,
  and_digit (high * 2 ^ suc k + low) mask,
  ap (λ (t : ℕ). bit_and t (mask / 2)) halved,
  shifted_suc high k,
  pow-suc 2 k,
  and_low_field k (mask / 2) high (low / 2) (omega (arith, pow-suc 2 k))
      (omega (arith, pow-suc 2 k)),
)
  where
    halved : (high * 2 ^ suc k + low) / 2 ≡ high * 2 ^ k + low / 2
    halved = omega (arith, shifted_suc high k)

pub and_mask : (k mask a : ℕ) → mask + 1 ≡ 2 ^ k → bit_and a mask ≡ a % 2 ^ k
and_mask k mask a e =
    ap (λ (t : ℕ). bit_and t mask) whole
    ∙ and_low_field k mask (a / 2 ^ k) (a % 2 ^ k) e (mod-lt a (one-le-pow k 2 (omega arith)))
  where
    whole : a ≡ a / 2 ^ k * 2 ^ k + a % 2 ^ k
    whole = grind (arith, one-le-pow k 2)

bit_and_comm_below : (n a b : ℕ) → a ≤ n → bit_and a b ≡ bit_and b a
bit_and_comm_below n zero b h = omega (arith, bit_and-bitwise 0 b, bit_and-zero b b (omega arith))
bit_and_comm_below zero (suc a) b h = absurd (omega arith)
bit_and_comm_below (suc n) (suc a) b h = omega (
  arith,
  and_digit (suc a) b,
  and_digit b (suc a),
  bit_and_comm_below n (suc a / 2) (b / 2) (omega arith),
)

pub mask_and : (k mask a : ℕ) → mask + 1 ≡ 2 ^ k → bit_and mask a ≡ a % 2 ^ k
mask_and k mask a e = bit_and_comm_below mask mask a (omega arith) ∙ and_mask k mask a e

-- ===== src/ByteOrder/Laws.antt =====
-- The words of src/common/byte_order.h as sums, and read back after they are written.
use tibia_login_orig.Base.{
  ℕ, ◌+◌, ◌*◌, ◌^◌, ◌<◌, ◌≡◌, refl, ap, ◌∙◌, bit_or, u8, ◌>>>◌, IsByte, [], ◌∷◌, arith,
}
use tibia_login_orig.Base.Bits.{or_high_low, or_low_high}
use tibia_login_orig.ByteOrder.{
  read_u16_le, read_u16_be, read_u32_le, read_u32_be, read_u64_le, read_u64_be, write_u16_le,
  write_u16_be, write_u32_le, write_u32_be, write_u64_le, write_u64_be, read_2, read_4, read_8,
}

pub read_u16_le_sum : (b0 b1 : ℕ) → IsByte b0 → read_u16_le b0 b1 ≡ b0 + b1 * 256
unfolding read_u16_le
read_u16_le_sum b0 b1 h0 = or_low_high 8 b1 b0 h0

pub read_u16_be_sum : (b0 b1 : ℕ) → IsByte b1 → read_u16_be b0 b1 ≡ b0 * 256 + b1
unfolding read_u16_be
read_u16_be_sum b0 b1 h1 = or_high_low 8 b0 b1 h1

pub read_u32_le_sum :
    (b0 b1 b2 b3 : ℕ)
    → IsByte b0
    → IsByte b1
    → IsByte b2
    → read_u32_le b0 b1 b2 b3 ≡ b0 + b1 * 256 + b2 * 65536 + b3 * 16777216
unfolding read_u32_le
read_u32_le_sum b0 b1 b2 b3 h0 h1 h2 =
    ap (λ (t : ℕ). bit_or (bit_or t (b2 * 65536)) (b3 * 16777216)) (or_low_high 8 b1 b0 h0)
    ∙ ap (λ (t : ℕ). bit_or t (b3 * 16777216)) (or_low_high 16 b2 (b0 + b1 * 256) (omega arith))
    ∙ or_low_high 24 b3 (b0 + b1 * 256 + b2 * 65536) (omega arith)

-- In big endian the low part of each `|` is a byte, and the high part a sum of shifted bytes.
or_byte : (k q high low : ℕ) → low < 2 ^ k → high ≡ q * 2 ^ k → bit_or high low ≡ high + low
or_byte k q high low h e = ap (λ (t : ℕ). bit_or t low) e ∙ or_high_low k q low h ∙ omega arith

pub read_u32_be_sum :
    (b0 b1 b2 b3 : ℕ)
    → IsByte b1
    → IsByte b2
    → IsByte b3
    → read_u32_be b0 b1 b2 b3 ≡ b0 * 16777216 + b1 * 65536 + b2 * 256 + b3
unfolding read_u32_be
read_u32_be_sum b0 b1 b2 b3 h1 h2 h3 =
    ap (λ (t : ℕ). bit_or (bit_or t (b2 * 256)) b3)
      (or_byte 24 b0 (b0 * 16777216) (b1 * 65536) (omega arith) (omega arith))
    ∙ ap (λ (t : ℕ). bit_or t b3)
        (or_byte 16 (b0 * 256 + b1) (b0 * 16777216 + b1 * 65536) (b2 * 256) (omega arith)
          (omega arith))
    ∙ or_byte 8 (b0 * 65536 + b1 * 256 + b2) (b0 * 16777216 + b1 * 65536 + b2 * 256) b3 h3
        (omega arith)

pub read_u64_le_sum :
    (b0 b1 b2 b3 b4 b5 b6 b7 : ℕ)
    → IsByte b0
    → IsByte b1
    → IsByte b2
    → IsByte b3
    → IsByte b4
    → IsByte b5
    → IsByte b6
    → read_u64_le b0 b1 b2 b3 b4 b5 b6 b7
      ≡ b0
        + b1 * 2 ^ 8
        + b2 * 2 ^ 16
        + b3 * 2 ^ 24
        + b4 * 2 ^ 32
        + b5 * 2 ^ 40
        + b6 * 2 ^ 48
        + b7 * 2 ^ 56
unfolding read_u64_le
read_u64_le_sum b0 b1 b2 b3 b4 b5 b6 b7 h0 h1 h2 h3 h4 h5 h6 =
    ap (λ (t : ℕ). or_56 (or_48 (or_40 (or_32 (or_24 (or_16 t)))))) (or_low_high 8 b1 b0 h0)
    ∙ ap (λ (t : ℕ). or_56 (or_48 (or_40 (or_32 (or_24 t))))) (or_low_high 16 b2 _ (omega arith))
    ∙ ap (λ (t : ℕ). or_56 (or_48 (or_40 (or_32 t)))) (or_low_high 24 b3 _ (omega arith))
    ∙ ap (λ (t : ℕ). or_56 (or_48 (or_40 t))) (or_low_high 32 b4 _ (omega arith))
    ∙ ap (λ (t : ℕ). or_56 (or_48 t)) (or_low_high 40 b5 _ (omega arith))
    ∙ ap (λ (t : ℕ). or_56 t) (or_low_high 48 b6 _ (omega arith))
    ∙ or_low_high 56 b7 _ (omega arith)
  where
    or_16 : ℕ → ℕ
    or_16 t = bit_or t (b2 * 2 ^ 16)

    or_24 : ℕ → ℕ
    or_24 t = bit_or t (b3 * 2 ^ 24)

    or_32 : ℕ → ℕ
    or_32 t = bit_or t (b4 * 2 ^ 32)

    or_40 : ℕ → ℕ
    or_40 t = bit_or t (b5 * 2 ^ 40)

    or_48 : ℕ → ℕ
    or_48 t = bit_or t (b6 * 2 ^ 48)

    or_56 : ℕ → ℕ
    or_56 t = bit_or t (b7 * 2 ^ 56)

pub read_u64_be_sum :
    (b0 b1 b2 b3 b4 b5 b6 b7 : ℕ)
    → IsByte b1
    → IsByte b2
    → IsByte b3
    → IsByte b4
    → IsByte b5
    → IsByte b6
    → IsByte b7
    → read_u64_be b0 b1 b2 b3 b4 b5 b6 b7
      ≡ b0 * 2 ^ 56
        + b1 * 2 ^ 48
        + b2 * 2 ^ 40
        + b3 * 2 ^ 32
        + b4 * 2 ^ 24
        + b5 * 2 ^ 16
        + b6 * 2 ^ 8
        + b7
unfolding read_u64_be
read_u64_be_sum b0 b1 b2 b3 b4 b5 b6 b7 h1 h2 h3 h4 h5 h6 h7 =
    ap (λ (t : ℕ). or_0 (or_8 (or_16 (or_24 (or_32 (or_40 t))))))
      (or_byte 56 b0 _ (b1 * 2 ^ 48) (omega arith) refl)
    ∙ ap (λ (t : ℕ). or_0 (or_8 (or_16 (or_24 (or_32 t)))))
        (or_byte 48 (b0 * 2 ^ 8 + b1) _ (b2 * 2 ^ 40) (omega arith) (omega arith))
    ∙ ap (λ (t : ℕ). or_0 (or_8 (or_16 (or_24 t))))
        (or_byte 40 (b0 * 2 ^ 16 + b1 * 2 ^ 8 + b2) _ (b3 * 2 ^ 32) (omega arith) (omega arith))
    ∙ ap (λ (t : ℕ). or_0 (or_8 (or_16 t)))
        (or_byte 32 (b0 * 2 ^ 24 + b1 * 2 ^ 16 + b2 * 2 ^ 8 + b3) _ (b4 * 2 ^ 24) (omega arith)
          (omega arith))
    ∙ ap (λ (t : ℕ). or_0 (or_8 t))
        (or_byte 24 (b0 * 2 ^ 32 + b1 * 2 ^ 24 + b2 * 2 ^ 16 + b3 * 2 ^ 8 + b4) _ (b5 * 2 ^ 16)
          (omega arith) (omega arith))
    ∙ ap (λ (t : ℕ). or_0 t)
        (or_byte 16 (b0 * 2 ^ 40 + b1 * 2 ^ 32 + b2 * 2 ^ 24 + b3 * 2 ^ 16 + b4 * 2 ^ 8 + b5) _
          (b6 * 2 ^ 8) (omega arith) (omega arith))
    ∙ or_byte 8
        (b0 * 2 ^ 48 + b1 * 2 ^ 40 + b2 * 2 ^ 32 + b3 * 2 ^ 24 + b4 * 2 ^ 16 + b5 * 2 ^ 8 + b6) _ b7
        (omega arith) (omega arith)
  where
    or_40 : ℕ → ℕ
    or_40 t = bit_or t (b2 * 2 ^ 40)

    or_32 : ℕ → ℕ
    or_32 t = bit_or t (b3 * 2 ^ 32)

    or_24 : ℕ → ℕ
    or_24 t = bit_or t (b4 * 2 ^ 24)

    or_16 : ℕ → ℕ
    or_16 t = bit_or t (b5 * 2 ^ 16)

    or_8 : ℕ → ℕ
    or_8 t = bit_or t (b6 * 2 ^ 8)

    or_0 : ℕ → ℕ
    or_0 t = bit_or t b7

pub read-write_u16_le : (v : ℕ) → v < 2 ^ 16 → read_2 read_u16_le (write_u16_le v) ≡ v
unfolding write_u16_le
read-write_u16_le v h = omega (arith, read_u16_le_sum (u8 (v >>> 0)) (u8 (v >>> 8)) (omega arith))

pub read-write_u16_be : (v : ℕ) → v < 2 ^ 16 → read_2 read_u16_be (write_u16_be v) ≡ v
unfolding write_u16_be
read-write_u16_be v h = omega (arith, read_u16_be_sum (u8 (v >>> 8)) (u8 (v >>> 0)) (omega arith))

pub read-write_u32_le : (v : ℕ) → v < 2 ^ 32 → read_4 read_u32_le (write_u32_le v) ≡ v
unfolding write_u32_le
read-write_u32_le v h = omega (
  arith,
  read_u32_le_sum (u8 (v >>> 0)) (u8 (v >>> 8)) (u8 (v >>> 16)) (u8 (v >>> 24)) (omega arith)
      (omega arith) (omega arith),
)

pub read-write_u32_be : (v : ℕ) → v < 2 ^ 32 → read_4 read_u32_be (write_u32_be v) ≡ v
unfolding write_u32_be
read-write_u32_be v h = omega (
  arith,
  read_u32_be_sum (u8 (v >>> 24)) (u8 (v >>> 16)) (u8 (v >>> 8)) (u8 (v >>> 0)) (omega arith)
      (omega arith) (omega arith),
)

pub read-write_u64_le : (v : ℕ) → v < 2 ^ 64 → read_8 read_u64_le (write_u64_le v) ≡ v
unfolding write_u64_le
read-write_u64_le v h = omega (
  arith,
  read_u64_le_sum (u8 (v >>> 0)) (u8 (v >>> 8)) (u8 (v >>> 16)) (u8 (v >>> 24)) (u8 (v >>> 32))
      (u8 (v >>> 40)) (u8 (v >>> 48)) (u8 (v >>> 56)) (omega arith) (omega arith) (omega arith)
      (omega arith) (omega arith) (omega arith) (omega arith),
)

pub read-write_u64_be : (v : ℕ) → v < 2 ^ 64 → read_8 read_u64_be (write_u64_be v) ≡ v
unfolding write_u64_be
read-write_u64_be v h = omega (
  arith,
  read_u64_be_sum (u8 (v >>> 56)) (u8 (v >>> 48)) (u8 (v >>> 40)) (u8 (v >>> 32)) (u8 (v >>> 24))
      (u8 (v >>> 16)) (u8 (v >>> 8)) (u8 (v >>> 0)) (omega arith) (omega arith) (omega arith)
      (omega arith) (omega arith) (omega arith) (omega arith),
)

pub read_u32_le-lt :
    (b0 b1 b2 b3 : ℕ)
    → IsByte b0
    → IsByte b1
    → IsByte b2
    → IsByte b3
    → read_u32_le b0 b1 b2 b3 < 2 ^ 32
read_u32_le-lt b0 b1 b2 b3 h0 h1 h2 h3 = omega (arith, read_u32_le_sum b0 b1 b2 b3 h0 h1 h2)

pub write-read_u32_le :
    (b0 b1 b2 b3 : ℕ)
    → IsByte b0
    → IsByte b1
    → IsByte b2
    → IsByte b3
    → write_u32_le (read_u32_le b0 b1 b2 b3) ≡ b0 ∷ b1 ∷ b2 ∷ b3 ∷ []
unfolding write_u32_le
write-read_u32_le b0 b1 b2 b3 h0 h1 h2 h3 = rw (read_u32_le_sum b0 b1 b2 b3 h0 h1 h2) (ground arith)

-- Every word of 16, 32 or 64 bits that is stored, in either byte order, is read back.
pub read-write_words :
    (short word long : ℕ)
    → short < 2 ^ 16
    → word < 2 ^ 32
    → long < 2 ^ 64
    → (read_2 read_u16_le (write_u16_le short) ≡ short)
      × (read_2 read_u16_be (write_u16_be short) ≡ short)
      × (read_4 read_u32_le (write_u32_le word) ≡ word)
      × (read_4 read_u32_be (write_u32_be word) ≡ word)
      × (read_8 read_u64_le (write_u64_le long) ≡ long)
      × (read_8 read_u64_be (write_u64_be long) ≡ long)
read-write_words short word long h0 h1 h2 = (
  read-write_u16_le short h0,
  read-write_u16_be short h0,
  read-write_u32_le word h1,
  read-write_u32_be word h1,
  read-write_u64_le long h2,
  read-write_u64_be long h2,
)

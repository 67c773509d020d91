-- ===== src/ByteOrder.antt =====
-- src/common/byte_order.h: words as bytes in memory, little and big endian. A reader takes the
-- bytes that its pointer reads; a writer gives the bytes that it stores from its pointer on.
pub mod Laws
use tibia_login_orig.Base.{
  ℕ, ◌+◌, ◌*◌, ◌/◌, ◌%◌, ◌^◌, bit_or, u8, u16, u32, ◌<<<◌, ◌>>>◌, List, [], ◌∷◌,
}

unfoldable pub read_u16_le : ℕ → ℕ → ℕ
read_u16_le b0 b1 = bit_or b0 (b1 <<< 8)

unfoldable pub read_u16_be : ℕ → ℕ → ℕ
read_u16_be b0 b1 = bit_or (b0 <<< 8) b1

unfoldable pub read_u32_le : ℕ → ℕ → ℕ → ℕ → ℕ
read_u32_le b0 b1 b2 b3 = bit_or (bit_or (bit_or b0 (b1 <<< 8)) (b2 <<< 16)) (b3 <<< 24)

unfoldable pub read_u32_be : ℕ → ℕ → ℕ → ℕ → ℕ
read_u32_be b0 b1 b2 b3 = bit_or (bit_or (bit_or (b0 <<< 24) (b1 <<< 16)) (b2 <<< 8)) b3

pub read_u64_le : ℕ → ℕ → ℕ → ℕ → ℕ → ℕ → ℕ → ℕ → ℕ
read_u64_le b0 b1 b2 b3 b4 b5 b6 b7 =
    bit_or
      (bit_or
        (bit_or
          (bit_or (bit_or (bit_or (bit_or b0 (b1 <<< 8)) (b2 <<< 16)) (b3 <<< 24)) (b4 <<< 32))
          (b5 <<< 40))
        (b6 <<< 48))
      (b7 <<< 56)

pub read_u64_be : ℕ → ℕ → ℕ → ℕ → ℕ → ℕ → ℕ → ℕ → ℕ
read_u64_be b0 b1 b2 b3 b4 b5 b6 b7 =
    bit_or
      (bit_or
        (bit_or
          (bit_or (bit_or (bit_or (bit_or (b0 <<< 56) (b1 <<< 48)) (b2 <<< 40)) (b3 <<< 32))
            (b4 <<< 24))
          (b5 <<< 16))
        (b6 <<< 8))
      b7

unfoldable pub write_u8 : ℕ → List ℕ
write_u8 value = u8 value ∷ []

unfoldable pub write_u16_le : ℕ → List ℕ
write_u16_le value = u8 (value >>> 0) ∷ u8 (value >>> 8) ∷ []

unfoldable pub write_u16_be : ℕ → List ℕ
write_u16_be value = u8 (value >>> 8) ∷ u8 (value >>> 0) ∷ []

unfoldable pub write_u32_le : ℕ → List ℕ
write_u32_le value =
    u8 (value >>> 0) ∷ u8 (value >>> 8) ∷ u8 (value >>> 16) ∷ u8 (value >>> 24) ∷ []

unfoldable pub write_u32_be : ℕ → List ℕ
write_u32_be value =
    u8 (value >>> 24) ∷ u8 (value >>> 16) ∷ u8 (value >>> 8) ∷ u8 (value >>> 0) ∷ []

pub write_u64_le : ℕ → List ℕ
write_u64_le value =
    u8 (value >>> 0)
    ∷ u8 (value >>> 8)
    ∷ u8 (value >>> 16)
    ∷ u8 (value >>> 24)
    ∷ u8 (value >>> 32)
    ∷ u8 (value >>> 40)
    ∷ u8 (value >>> 48)
    ∷ u8 (value >>> 56)
    ∷ []

pub write_u64_be : ℕ → List ℕ
write_u64_be value =
    u8 (value >>> 56)
    ∷ u8 (value >>> 48)
    ∷ u8 (value >>> 40)
    ∷ u8 (value >>> 32)
    ∷ u8 (value >>> 24)
    ∷ u8 (value >>> 16)
    ∷ u8 (value >>> 8)
    ∷ u8 (value >>> 0)
    ∷ []

-- A reader over a list of the bytes that it reads.
abbrev pub read_1 : List ℕ → ℕ
read_1 (b0 ∷ []) = b0
read_1 _ = 0

abbrev pub read_2 : (ℕ → ℕ → ℕ) → List ℕ → ℕ
read_2 read (b0 ∷ b1 ∷ []) = read b0 b1
read_2 read _ = 0

abbrev pub read_4 : (ℕ → ℕ → ℕ → ℕ → ℕ) → List ℕ → ℕ
read_4 read (b0 ∷ b1 ∷ b2 ∷ b3 ∷ []) = read b0 b1 b2 b3
read_4 read _ = 0

abbrev pub read_8 : (ℕ → ℕ → ℕ → ℕ → ℕ → ℕ → ℕ → ℕ → ℕ) → List ℕ → ℕ
read_8 read (b0 ∷ b1 ∷ b2 ∷ b3 ∷ b4 ∷ b5 ∷ b6 ∷ b7 ∷ []) = read b0 b1 b2 b3 b4 b5 b6 b7
read_8 read _ = 0

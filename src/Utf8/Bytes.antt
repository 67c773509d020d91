-- ===== src/Utf8/Bytes.antt =====
-- The bit tests of src/common/utf8.cpp as ranges and sums.
use tibia_login_orig.Base.{
  ℕ, ◌≤◌, ◌<◌, ◌≡◌, refl, true, ltb, leb, ◌==◌, ◌&&◌, ◌||◌, ==_iff, if◌then◌else◌, IsByte, arith,
}
use tibia_login_orig.Base.Bits.{holds_below, holds_at}
use tibia_login_orig.Utf8.{utf8_sequence_size, utf8_is_trailing_byte}

abbrev pub size_by_range : ℕ → ℕ
size_by_range b =
    if ltb b 0x80
    then 1
    else if ltb b 0xC0
    then 0
    else if ltb b 0xE0
    then 2
    else if ltb b 0xF0
    then 3
    else if ltb b 0xF8
    then 4
    else 0

sequence_size_table : holds_below (λ b. utf8_sequence_size b == size_by_range b) 256 ≡ true
unfolding holds_below utf8_sequence_size
sequence_size_table = refl

pub utf8_sequence_size_lem : (b : ℕ) → IsByte b → utf8_sequence_size b ≡ size_by_range b
utf8_sequence_size_lem b h = (==_iff _ _).0 (holds_at _ 256 b sequence_size_table h)

trailing_table :
    holds_below
      (λ b. if utf8_is_trailing_byte b then leb 0x80 b && ltb b 0xC0 else ltb b 0x80 || leb 0xC0 b)
      256
    ≡ true
unfolding holds_below utf8_is_trailing_byte
trailing_table = refl

pub trailing_range : (b : ℕ) → 0x80 ≤ b → b < 0xC0 → utf8_is_trailing_byte b ≡ true
trailing_range b h k = ground (arith, holds_at _ 256 b trailing_table (omega arith))

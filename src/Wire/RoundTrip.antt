-- ===== src/Wire/RoundTrip.antt =====
-- What was written into a buffer is read out of it.
use tibia_login_orig.Base.{ℕ, ◌^◌, ◌≤◌, ◌<◌, List, [], ◌∷◌, ◌++◌, length, if◌then◌else◌, AreBytes}
use tibia_login_orig.ByteOrder
use tibia_login_orig.Writer
use tibia_login_orig.Writer.Texts.{length_bytes}
use tibia_login_orig.Wire.{Field, flag, u8, u16, u16_be, u32, u32_be, text}

-- A value of the field's width; a text of bytes that is shorter than 2^31.
abbrev pub InRange : Field → Type 0
InRange (flag b) = Unit
InRange (u8 v) = v < 2 ^ 8
InRange (u16 v) = v < 2 ^ 16
InRange (u16_be v) = v < 2 ^ 16
InRange (u32 v) = v < 2 ^ 32
InRange (u32_be v) = v < 2 ^ 32
InRange (text capacity t) = AreBytes t × (length t < 2 ^ 31) × (1 ≤ capacity)

abbrev field_bytes : Field → List ℕ
field_bytes (flag b) = ByteOrder.write_u8 (if b then 0x01 else 0x00)
field_bytes (u8 v) = ByteOrder.write_u8 v
field_bytes (u16 v) = ByteOrder.write_u16_le v
field_bytes (u16_be v) = ByteOrder.write_u16_be v
field_bytes (u32 v) = ByteOrder.write_u32_le v
field_bytes (u32_be v) = ByteOrder.write_u32_be v
field_bytes (text capacity t) = length_bytes (length t) ++ t

abbrev fields_bytes : List Field → List ℕ
fields_bytes [] = []
fields_bytes (f ∷ fs) = field_bytes f ++ fields_bytes fs

-- ===== src/Writer.antt =====
-- src/common/buffer_writer.cpp, built with CLIENT_ENCODING_UTF8 = 0 (src/common/types.h). A buffer is
-- an array of bytes, `size` the part of it that may be written. Each operation moves the position,
-- whether or not it writes; `none` is a write outside the array.
pub mod Laws
pub mod Texts
pub mod Patches
use tibia_login_orig.Base.{
  ℕ, ◌+◌, ◌-◌, ◌≤◌, u16, u32, Bool, true, false, not, ◌&&◌, Option, none, some, List, [], ◌∷◌, ltb,
  leb, length, if◌then◌else◌, load, store, ◌>>=◌,
}
use tibia_login_orig.ByteOrder
use tibia_login_orig.Utf8.{utf8_to_latin1}

pub record BufferWriter : Type 0 where
  pub buffer : List ℕ
  pub size : ℕ
  pub position : ℕ

abbrev pub buffer_writer : List ℕ → ℕ → BufferWriter
buffer_writer buffer size = record { buffer = buffer; size = size; position = 0 }

abbrev pub can_write : BufferWriter → ℕ → Bool
can_write w bytes = leb (w.position + bytes) w.size

abbrev pub overflowed : BufferWriter → Bool
overflowed w = ltb w.size w.position

-- `if (can_write(n)) { … } position += n;`, for the `n` bytes that the branch stores.
unfoldable pub put : List ℕ → BufferWriter → Option BufferWriter
put bytes w =
    (if can_write w (length bytes) then store w.buffer w.position bytes else some w.buffer)
    >>= (λ buffer. some (record w { buffer = buffer; position = w.position + length bytes }))

unfoldable pub write_u8 : ℕ → BufferWriter → Option BufferWriter
write_u8 value w = put (ByteOrder.write_u8 value) w

unfoldable pub write_flag : Bool → BufferWriter → Option BufferWriter
write_flag value w = write_u8 (if value then 0x01 else 0x00) w

unfoldable pub write_u16 : ℕ → BufferWriter → Option BufferWriter
write_u16 value w = put (ByteOrder.write_u16_le value) w

unfoldable pub write_u16_be : ℕ → BufferWriter → Option BufferWriter
write_u16_be value w = put (ByteOrder.write_u16_be value) w

unfoldable pub write_u32 : ℕ → BufferWriter → Option BufferWriter
write_u32 value w = put (ByteOrder.write_u32_le value) w

unfoldable pub write_u32_be : ℕ → BufferWriter → Option BufferWriter
write_u32_be value w = put (ByteOrder.write_u32_be value) w

-- The length of a text: two bytes, or an escape and four more.
unfoldable pub write_length : ℕ → BufferWriter → Option BufferWriter
write_length output_length w =
    if ltb output_length 0xFFFF
    then write_u16 (u16 output_length) w
    else write_u16 0xFFFF w >>= write_u32 (u32 output_length)

-- The bytes of the text, if they fit.
unfoldable pub write_text : List ℕ → ℕ → BufferWriter → Option BufferWriter
write_text str output_length w =
    (if ltb 0 output_length && can_write w output_length
      then utf8_to_latin1 w.buffer w.position (w.size - w.position) str >>= (λ r. some r.1)
      else some w.buffer)
    >>= (λ buffer. some (record w { buffer = buffer; position = w.position + output_length }))

-- `str` is a text in UTF-8 without its terminator; a null pointer is the empty text.
unfoldable pub write_string : List ℕ → BufferWriter → Option BufferWriter
write_string str w =
    utf8_to_latin1 [] 0 0 str >>= (λ counted. write_length counted.0 w >>= write_text str counted.0)

unfoldable pub rewrite_u16 : ℕ → ℕ → BufferWriter → Option BufferWriter
rewrite_u16 offset value w =
    if leb (offset + 2) w.position && not (overflowed w)
    then store w.buffer offset (ByteOrder.write_u16_le value)
      >>= (λ buffer. some (record w { buffer = buffer }))
    else some w

unfoldable pub insert_u32 : ℕ → ℕ → BufferWriter → Option BufferWriter
insert_u32 offset value w =
    if leb offset w.position
    then (if can_write w 4
        then load w.buffer offset (w.position - offset)
          >>= (λ moved. store w.buffer (offset + 4) moved)
          >>= (λ buffer. store buffer offset (ByteOrder.write_u32_le value))
        else some w.buffer)
      >>= (λ buffer. some (record w { buffer = buffer; position = w.position + 4 }))
    else some w

-- ===== src/Reader.antt =====
-- src/common/buffer_reader.cpp, built with CLIENT_ENCODING_UTF8 = 0 (src/common/types.h). A length that
-- was read can be negative as an `int`, so the position is an integer. `none` is undefined
-- behaviour: an access outside an array, or a position that an `int` cannot hold.
pub mod Laws
pub mod Texts
pub mod Hostile
use tibia_login_orig.Base.{
  ℕ, zero, suc, ◌+◌, ◌-◌, ◌^◌, Bool, true, false, not, ◌&&◌, Option, none, some, List, [], ◌∷◌, ltb,
  leb, ◌==◌, length, replicate, if◌then◌else◌, load, store, ◌>>=◌, ℤ, pos, negsuc, pos_part, lebℤ,
  as_int, add_int,
}
use tibia_login_orig.ByteOrder
use tibia_login_orig.ByteOrder.{read_u16_le, read_u32_le, read_1, read_2, read_4}
use tibia_login_orig.Utf8.{latin1_to_utf8}

pub record BufferReader : Type 0 where
  pub buffer : List ℕ
  pub size : ℕ
  pub position : ℤ

abbrev pub buffer_reader : List ℕ → ℕ → BufferReader
buffer_reader buffer size = record { buffer = buffer; size = size; position = pos 0 }

abbrev pub can_read : BufferReader → ℤ → Option Bool
can_read r bytes = add_int r.position bytes >>= (λ stop. some (lebℤ stop (pos r.size)))

abbrev pub overflowed : BufferReader → Bool
overflowed r = not (lebℤ r.position (pos r.size))

-- The `count` bytes at `buffer + position`; no byte is an access of none.
unfoldable pub load_at : List ℕ → ℤ → ℕ → Option (List ℕ)
load_at buffer position zero = some []
load_at buffer (pos p) (suc count) = load buffer p (suc count)
load_at buffer (negsuc n) (suc count) = none

abbrev pub moved : ℤ → BufferReader → Option BufferReader
moved bytes r = add_int r.position bytes >>= (λ position. some (record r { position = position }))

-- `if (can_read(n)) { result = …; } position += n;`, where `result` starts at 0.
unfoldable pub get : ℕ → (List ℕ → ℕ) → BufferReader → Option (ℕ × BufferReader)
unfolding load_at
get n word r = can_read r (pos n) >>= (λ readable.
    (if readable then load_at r.buffer r.position n >>= (λ bytes. some (word bytes)) else some 0)
    >>= (λ result. moved (pos n) r >>= (λ r'. some (result, r'))))

unfoldable pub read_u8 : BufferReader → Option (ℕ × BufferReader)
unfolding get
read_u8 = get 1 read_1

unfoldable pub read_flag : BufferReader → Option (Bool × BufferReader)
unfolding read_u8
read_flag r = read_u8 r >>= (λ (b, r'). some (not (b == 0x00), r'))

unfoldable pub read_u16 : BufferReader → Option (ℕ × BufferReader)
unfolding get
read_u16 = get 2 (read_2 read_u16_le)

unfoldable pub read_u16_be : BufferReader → Option (ℕ × BufferReader)
unfolding get
read_u16_be = get 2 (read_2 ByteOrder.read_u16_be)

unfoldable pub read_u32 : BufferReader → Option (ℕ × BufferReader)
unfolding get
read_u32 = get 4 (read_4 read_u32_le)

unfoldable pub read_u32_be : BufferReader → Option (ℕ × BufferReader)
unfolding get
read_u32_be = get 4 (read_4 ByteOrder.read_u32_be)

-- `int length` of `read_string`: two bytes, or four behind an escape, cast to `int`.
unfoldable pub read_length : BufferReader → Option (ℤ × BufferReader)
unfolding read_u16 read_u32
read_length r = read_u16 r >>= (λ (short, r').
    if short == 0xFFFF
    then read_u32 r' >>= (λ (long, r''). some (as_int long, r''))
    else some (pos short, r'))

-- The text that is put into `dest`, with zeros behind it: none if it does not fit.
unfoldable pub read_text : List ℕ → ℤ → BufferReader → Option (List ℕ)
unfolding load_at
read_text dest len r = can_read r len >>= (λ readable.
    (if readable
      then load_at r.buffer r.position (pos_part len)
        >>= latin1_to_utf8 dest 0 (length dest)
        >>= (λ (n, dest'). some (if ltb n (length dest) then n else 0, dest'))
      else some (0, dest))
    >>= (λ (n, dest'). store dest' n (replicate (length dest - n) 0)))

-- `dest` is the destination array, whose length is `dest_capacity`; a null pointer is the empty one.
unfoldable pub read_string : List ℕ → BufferReader → Option (List ℕ × BufferReader)
unfolding read_length read_text
read_string dest r = read_length r >>= (λ (len, r').
    (if ltb 0 (length dest) then read_text dest len r' else some dest)
    >>= (λ dest'. moved len r' >>= (λ r''. some (dest', r''))))

-- `dest` is the destination array, which has `count` bytes or more.
unfoldable pub read_bytes : List ℕ → ℕ → BufferReader → Option (List ℕ × BufferReader)
unfolding load_at
read_bytes dest count r = can_read r (pos count) >>= (λ readable.
    (if readable then load_at r.buffer r.position count >>= store dest 0 else some dest)
    >>= (λ dest'. moved (pos count) r >>= (λ r'. some (dest', r'))))

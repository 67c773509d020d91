-- ===== src/Utf8.antt =====
-- src/common/utf8.cpp. A source pointer with its length is the list of the bytes that it spans; a
-- destination is an array with an offset. `none` is an access outside an array, or spent fuel.
pub mod Bytes
pub mod OneSequence
pub mod Latin1
pub mod Text
use tibia_login_orig.Base.{
  ℕ, zero, suc, ◌+◌, ◌-◌, ◌*◌, ◌/◌, ◌%◌, ◌^◌, bit_and, bit_or, u8, ◌<<<◌, ◌>>>◌, Bool, true, false,
  not, ◌&&◌, ◌||◌, Option, none, some, List, [], ◌∷◌, length, take, drop, get_or, ltb, leb, ◌==◌,
  if◌then◌else◌, store, ◌>>=◌, ℤ, pos, negsuc, pos_part,
}

unfoldable pub utf8_sequence_size : ℕ → ℕ
utf8_sequence_size leading_byte =
    if bit_and leading_byte 0x80 == 0
    then 1
    else if bit_and leading_byte 0xE0 == 0xC0
    then 2
    else if bit_and leading_byte 0xF0 == 0xE0
    then 3
    else if bit_and leading_byte 0xF8 == 0xF0
    then 4
    else 0

unfoldable pub utf8_is_trailing_byte : ℕ → Bool
utf8_is_trailing_byte byte = bit_and byte 0xC0 == 0x80

unfoldable pub utf8_encoded_size : ℤ → ℕ
utf8_encoded_size (negsuc n) = 0
utf8_encoded_size (pos codepoint) =
    if leb codepoint 0x7F
    then 1
    else if leb codepoint 0x07FF
    then 2
    else if leb codepoint 0xFFFF
    then 3
    else if leb codepoint 0x10FFFF
    then 4
    else 0

-- The loop of `utf8_find_next_leading_byte` from the second byte on.
trailing_run : List ℕ → ℕ
trailing_run [] = 0
trailing_run (b ∷ bs) = if utf8_is_trailing_byte b then suc (trailing_run bs) else 0

unfoldable pub utf8_find_next_leading_byte : List ℕ → ℕ
unfolding trailing_run
utf8_find_next_leading_byte [] = 0
utf8_find_next_leading_byte (b ∷ bs) = suc (trailing_run bs)

-- `for(int i = 1; i < size; i += 1)`, over the bytes behind the first.
all_trailing : List ℕ → Bool
all_trailing [] = true
all_trailing (b ∷ bs) = utf8_is_trailing_byte b && all_trailing bs

-- The `switch(size)` of `utf8_decode_one`.
sequence_codepoint : ℕ → List ℕ → ℕ
sequence_codepoint size src =
    if size == 1
    then get_or src 0 0
    else if size == 2
    then bit_or (bit_and (get_or src 0 0) 0x1F <<< 6) (bit_and (get_or src 1 0) 0x3F <<< 0)
    else if size == 3
    then bit_or
        (bit_or (bit_and (get_or src 0 0) 0x0F <<< 12) (bit_and (get_or src 1 0) 0x3F <<< 6))
        (bit_and (get_or src 2 0) 0x3F <<< 0)
    else if size == 4
    then bit_or
        (bit_or
          (bit_or (bit_and (get_or src 0 0) 0x07 <<< 18) (bit_and (get_or src 1 0) 0x3F <<< 12))
          (bit_and (get_or src 2 0) 0x3F <<< 6))
        (bit_and (get_or src 3 0) 0x3F <<< 0)
    else 0

-- The size and the codepoint; `none` is the result 0, which leaves the codepoint alone.
unfoldable pub utf8_decode_one : List ℕ → Option (ℕ × ℕ)
unfolding all_trailing sequence_codepoint
utf8_decode_one [] = none
utf8_decode_one (b ∷ bs) =
    let size = utf8_sequence_size b in
    if size == 0 || ltb (length (b ∷ bs)) size
    then none
    else if all_trailing (take (size - 1) bs)
    then some (size, sequence_codepoint size (b ∷ bs))
    else none

-- The bytes that the `switch(size)` of `utf8_encode_one` stores.
unfoldable pub sequence_bytes : ℕ → ℕ → List ℕ
sequence_bytes size codepoint =
    if size == 1
    then u8 codepoint ∷ []
    else if size == 2
    then u8 (bit_or 0xC0 (bit_and 0x1F (codepoint >>> 6)))
      ∷ u8 (bit_or 0x80 (bit_and 0x3F (codepoint >>> 0)))
      ∷ []
    else if size == 3
    then u8 (bit_or 0xE0 (bit_and 0x0F (codepoint >>> 12)))
      ∷ u8 (bit_or 0x80 (bit_and 0x3F (codepoint >>> 6)))
      ∷ u8 (bit_or 0x80 (bit_and 0x3F (codepoint >>> 0)))
      ∷ []
    else if size == 4
    then u8 (bit_or 0xF0 (bit_and 0x07 (codepoint >>> 18)))
      ∷ u8 (bit_or 0x80 (bit_and 0x3F (codepoint >>> 12)))
      ∷ u8 (bit_or 0x80 (bit_and 0x3F (codepoint >>> 6)))
      ∷ u8 (bit_or 0x80 (bit_and 0x3F (codepoint >>> 0)))
      ∷ []
    else []

-- The size, and the array after the call. A capacity below zero stores nothing, as one of zero.
unfoldable pub utf8_encode_one : List ℕ → ℕ → ℕ → ℤ → Option (ℕ × List ℕ)
utf8_encode_one dest at dest_capacity codepoint =
    let size = utf8_encoded_size codepoint in
    if ltb 0 size && leb size dest_capacity
    then store dest at (sequence_bytes size (pos_part codepoint)) >>= (λ dest'. some (size, dest'))
    else some (size, dest)

-- How far a round of `utf8_to_latin1` reads, and the codepoint that it has then: -1 if none.
unfoldable pub latin1_advance : List ℕ → ℕ × ℤ
latin1_advance src = elim (utf8_decode_one src) [
  | none ↦ (utf8_find_next_leading_byte src, negsuc 0)
  | some (size, codepoint) ↦ (size, pos codepoint)
]

abbrev pub latin1_char : ℤ → ℕ
latin1_char (negsuc n) = b'?'
latin1_char (pos codepoint) = if leb codepoint 0xFF then codepoint else b'?'

-- `while(read_pos < src_length)`: what is still to be read, and where the next byte goes.
unfoldable pub latin1_loop : ℕ → List ℕ → ℕ → ℕ → ℕ → List ℕ → Option (ℕ × List ℕ)
latin1_loop zero dest at dest_capacity write_pos src = none
latin1_loop (suc fuel) dest at dest_capacity write_pos [] = some (write_pos, dest)
latin1_loop (suc fuel) dest at dest_capacity write_pos (b ∷ bs) =
    let (size, codepoint) = latin1_advance (b ∷ bs) in
    (if ltb write_pos dest_capacity
      then store dest (at + write_pos) (latin1_char codepoint ∷ [])
      else some dest)
    >>= (λ dest'. latin1_loop fuel dest' at dest_capacity (write_pos + 1) (drop size (b ∷ bs)))

-- The characters counted, and the array after the call. A round reads a byte or more.
unfoldable pub utf8_to_latin1 : List ℕ → ℕ → ℕ → List ℕ → Option (ℕ × List ℕ)
utf8_to_latin1 dest at dest_capacity src =
    latin1_loop (suc (length src)) dest at dest_capacity 0 src

unfoldable pub utf8_loop : List ℕ → ℕ → ℕ → ℕ → List ℕ → Option (ℕ × List ℕ)
utf8_loop dest at dest_capacity write_pos [] = some (write_pos, dest)
utf8_loop dest at dest_capacity write_pos (b ∷ bs) =
    utf8_encode_one dest (at + write_pos) (dest_capacity - write_pos) (pos b)
    >>= (λ r. utf8_loop r.1 at dest_capacity (write_pos + r.0) bs)

unfoldable pub latin1_to_utf8 : List ℕ → ℕ → ℕ → List ℕ → Option (ℕ × List ℕ)
latin1_to_utf8 dest at dest_capacity src = utf8_loop dest at dest_capacity 0 src

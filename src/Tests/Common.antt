-- ===== src/Tests/Common.antt =====
-- src/common and src/crypto at concrete inputs.
use tibia_login_orig.Base.{
  ℕ, ◌+◌, ◌-◌, ◌≤◌, ◌<◌, ◌≡◌, ◌↔◌, refl, true, false, none, some, List, [], ◌∷◌, ◌++◌, map, length,
  take, drop, replicate, overwrite, store, ltb, pos, sub_ℕ, arith,
}
use tibia_login_orig.ByteOrder
use tibia_login_orig.ByteOrder.Laws.{read-write_words}
use tibia_login_orig.Xtea.{xtea_encrypt, xtea_decrypt}
use tibia_login_orig.Xtea.Laws.{xtea_inverse}
use tibia_login_orig.Utf8.{
  utf8_encoded_size, sequence_bytes, utf8_decode_one, utf8_to_latin1, latin1_to_utf8,
}
use tibia_login_orig.Utf8.OneSequence.{utf8_decode_one-sequence_bytes}
use tibia_login_orig.Utf8.Latin1.{utf8_of, latin1_to_utf8_lem}
use tibia_login_orig.Utf8.Text.{latin1_of, utf8_to_latin1_lem, utf8_to_latin1-latin1_to_utf8}
use tibia_login_orig.Writer.{BufferWriter, rewrite_u16, insert_u32}
use tibia_login_orig.Writer.Laws.{written}
use tibia_login_orig.Writer.Patches.{rewrite_u16_lem, insert_u32_lem}
use tibia_login_orig.Reader.{BufferReader, buffer_reader, read_u8, read_string, overflowed}
use tibia_login_orig.Reader.Laws.{Left}
use tibia_login_orig.Reader.Hostile.{escaped, read_string_rewinds}
use tibia_login_orig.Wire.{Field, flag, u8, u16, u32_be, text}
use tibia_login_orig.Strings.{string_equals_ignore_case, tolower, string_copy_n, string_escape}
use tibia_login_orig.Strings
use tibia_login_orig.Strings.Laws.{
  string_equals_ignore_case_iff, string_copy_n_lem, string_escape_lem,
}
use tibia_login_orig.Strings.Laws as StringLaws

abbrev fields : List Field
fields = flag true ∷ u8 10 ∷ u16 7171 ∷ u32_be 0x7F000001 ∷ text 8 (b'S' ∷ 0xE9 ∷ []) ∷ []

abbrev key : List ℕ
key = 1 ∷ 2 ∷ 3 ∷ 4 ∷ []

abbrev nine : List ℕ
nine = 10 ∷ 20 ∷ 30 ∷ 40 ∷ 50 ∷ 60 ∷ 70 ∷ 80 ∷ 90 ∷ []

xtea_inverse_example : xtea_decrypt key (xtea_encrypt key nine) ≡ nine
xtea_inverse_example = (xtea_inverse key nine (omega arith)).0

utf8_decode_one-sequence_bytes_example :
    utf8_decode_one (sequence_bytes (utf8_encoded_size (pos 0x20AC)) 0x20AC ++ b'!' ∷ [])
    ≡ some (utf8_encoded_size (pos 0x20AC), 0x20AC)
utf8_decode_one-sequence_bytes_example =
    utf8_decode_one-sequence_bytes 0x20AC (b'!' ∷ []) (omega arith)

utf8_to_latin1-latin1_to_utf8_example :
    (n : ℕ) × (wide' : List ℕ) × (narrow' : List ℕ) × (latin1_to_utf8
        (replicate 4 0)
        0
        4
        (0xE9 ∷ b'a' ∷ [])
      ≡ some (n, wide'))
    × (utf8_to_latin1 (replicate 3 0) 0 3 (take n wide') ≡ some (2, narrow'))
    × (take 2 narrow' ≡ 0xE9 ∷ b'a' ∷ [])
unfolding sequence_bytes utf8_encoded_size
utf8_to_latin1-latin1_to_utf8_example =
    utf8_to_latin1-latin1_to_utf8 (0xE9 ∷ b'a' ∷ []) (replicate 4 0) (replicate 3 0) (omega arith)
      (omega arith) (omega arith)

utf8_to_latin1_lem_example :
    (dest' : List ℕ) × (utf8_to_latin1 (replicate 4 0) 1 3 (0xC3 ∷ 0xA9 ∷ 0xFF ∷ [])
      ≡ some (length (latin1_of (0xC3 ∷ 0xA9 ∷ 0xFF ∷ [])), dest'))
    × (length (latin1_of (0xC3 ∷ 0xA9 ∷ 0xFF ∷ [])) ≤ 3
        → take (1 + length (latin1_of (0xC3 ∷ 0xA9 ∷ 0xFF ∷ []))) dest'
          ≡ take 1 (replicate 4 0) ++ latin1_of (0xC3 ∷ 0xA9 ∷ 0xFF ∷ []))
    × (length dest' ≡ 4)
utf8_to_latin1_lem_example =
    utf8_to_latin1_lem (replicate 4 0) 1 3 (0xC3 ∷ 0xA9 ∷ 0xFF ∷ []) (omega arith)

latin1_to_utf8_lem_example :
    (dest' : List ℕ) × (latin1_to_utf8 (replicate 4 0) 1 3 (0xE9 ∷ b'a' ∷ [])
      ≡ some (length (utf8_of (0xE9 ∷ b'a' ∷ [])), dest'))
    × (length (utf8_of (0xE9 ∷ b'a' ∷ [])) ≤ 3
        → take (1 + length (utf8_of (0xE9 ∷ b'a' ∷ []))) dest'
          ≡ take 1 (replicate 4 0) ++ utf8_of (0xE9 ∷ b'a' ∷ []))
    × (length dest' ≡ 4)
latin1_to_utf8_lem_example =
    latin1_to_utf8_lem (replicate 4 0) 1 3 (0xE9 ∷ b'a' ∷ []) (omega arith) (omega arith)

-- Six bytes of a request whose length is -100 as an `int`.
abbrev hostile : BufferReader
hostile = buffer_reader (0xFF ∷ 0xFF ∷ 0x9C ∷ 0xFF ∷ 0xFF ∷ 0xFF ∷ []) 6

hostile-Left : Left hostile (escaped 0xFFFFFF9C [])
unfolding ByteOrder.write_u16_le ByteOrder.write_u32_le
hostile-Left = record {
  start = 0;
  positioned = refl;
  inside = omega arith;
  fits = omega arith;
  bounded = omega arith;
  is_left = refl;
}

read_string_rewinds_example :
    (behind : ℕ) × (r' : BufferReader) × (read_string (replicate 4 0) hostile
      ≡ some (replicate 4 0, r'))
    × (behind + 0 ≡ r'.size)
    × (r'.position ≡ sub_ℕ behind 100)
    × (overflowed r' ≡ false)
    × (behind < 100 → read_u8 r' ≡ none)
    × (behind < 0x80000000)
read_string_rewinds_example =
    read_string_rewinds (replicate 4 0) [] 0xFFFFFF9C hostile (omega arith) (omega arith)
      (omega arith) hostile-Left

abbrev drafted : BufferWriter
drafted = record { buffer = 0 ∷ 0 ∷ 11 ∷ 12 ∷ 0 ∷ 0 ∷ 0 ∷ 0 ∷ 0 ∷ []; size = 9; position = 4 }

rewrite_u16_lem_example :
    (w' : BufferWriter) × (rewrite_u16 0 2 drafted ≡ some w')
    × (written w' ≡ overwrite (written drafted) 0 (ByteOrder.write_u16_le 2))
    × (w'.position ≡ 4)
    × (w'.size ≡ 9)
    × (length w'.buffer ≡ 9)
rewrite_u16_lem_example = rewrite_u16_lem 0 2 drafted (omega arith) (omega arith) (omega arith)

insert_u32_lem_example :
    (w' : BufferWriter) × (insert_u32 2 70000 drafted ≡ some w')
    × (written w'
        ≡ take 2 (written drafted) ++ (ByteOrder.write_u32_le 70000 ++ drop 2 (written drafted)))
    × (w'.position ≡ 8)
    × (w'.size ≡ 9)
    × (length w'.buffer ≡ 9)
insert_u32_lem_example = insert_u32_lem 2 70000 drafted (omega arith) (omega arith) (omega arith)

read-write_words_example :
    (ByteOrder.read_2 ByteOrder.read_u16_le (ByteOrder.write_u16_le 0x1234) ≡ 0x1234)
    × (ByteOrder.read_2 ByteOrder.read_u16_be (ByteOrder.write_u16_be 0x1234) ≡ 0x1234)
    × (ByteOrder.read_4 ByteOrder.read_u32_le (ByteOrder.write_u32_le 0x12345678) ≡ 0x12345678)
    × (ByteOrder.read_4 ByteOrder.read_u32_be (ByteOrder.write_u32_be 0x12345678) ≡ 0x12345678)
    × (ByteOrder.read_8 ByteOrder.read_u64_le (ByteOrder.write_u64_le 7) ≡ 7)
    × (ByteOrder.read_8 ByteOrder.read_u64_be (ByteOrder.write_u64_be 7) ≡ 7)
read-write_words_example =
    read-write_words 0x1234 0x12345678 7 (omega arith) (omega arith) (omega arith)

string_equals_ignore_case_iff_example :
    (string_equals_ignore_case (b'T' ∷ b'c' ∷ b'P' ∷ []) (b't' ∷ b'c' ∷ b'p' ∷ []) ≡ true)
    ↔ (map tolower (b'T' ∷ b'c' ∷ b'P' ∷ []) ≡ map tolower (b't' ∷ b'c' ∷ b'p' ∷ []))
string_equals_ignore_case_iff_example =
    string_equals_ignore_case_iff (b'T' ∷ b'c' ∷ b'P' ∷ []) (b't' ∷ b'c' ∷ b'p' ∷ []) (omega arith)
      (omega arith)

string_copy_n_lem_example :
    (dest' : List ℕ) × (string_copy_n (replicate 4 7) (b'a' ∷ b'b' ∷ []) ≡ some (true, dest'))
    × (length dest' ≡ 4)
    × (2 < 4 → take (2 + 1) dest' ≡ (b'a' ∷ b'b' ∷ []) ++ 0 ∷ [])
    × (4 ≤ 2 → take 1 dest' ≡ 0 ∷ [])
string_copy_n_lem_example = string_copy_n_lem (replicate 4 7) (b'a' ∷ b'b' ∷ []) (omega arith)

string_escape_lem_example :
    (dest' : List ℕ) × (string_escape (replicate 4 7) (b'a' ∷ 10 ∷ [])
      ≡ some (ltb (length (StringLaws.escaped (b'a' ∷ 10 ∷ []))) 4, dest'))
    × (length dest' ≡ 4)
    × (length (StringLaws.escaped (b'a' ∷ 10 ∷ [])) < 4
        → take (length (StringLaws.escaped (b'a' ∷ 10 ∷ [])) + 1) dest'
          ≡ StringLaws.escaped (b'a' ∷ 10 ∷ []) ++ 0 ∷ [])
    × (4 ≤ length (StringLaws.escaped (b'a' ∷ 10 ∷ []))
        → dest' ≡ take (4 - 1) (StringLaws.escaped (b'a' ∷ 10 ∷ [])) ++ 0 ∷ [])
string_escape_lem_example = string_escape_lem (replicate 4 7) (b'a' ∷ 10 ∷ []) (omega arith)

-- Runs.
truncated_escape : string_escape (replicate 3 7) (b'a' ∷ 10 ∷ []) ≡ some (false, b'a' ∷ 92 ∷ 0 ∷ [])
unfolding string_escape Strings.escape_loop Strings.escape_char Strings.escape_letter
    Strings.escape_put store
truncated_escape = refl

-- FNV-1a of "a".
hash_of_a : Strings.string_hash (b'a' ∷ []) ≡ 0xE40C292C
unfolding Strings.string_hash
hash_of_a = refl

-- ===== src/Writer/Texts.antt =====
-- What each write of src/common/buffer_writer.cpp appends, texts included.
use tibia_login_orig.Base.{
  ℕ, ◌+◌, ◌-◌, ◌≤◌, ◌<◌, ◌≡◌, refl, sym, ap, ◌∙◌, u16, u32, List, [], ◌∷◌, ◌++◌, append-nil, inl,
  inr, ◌⊎◌, Bool-cases, ltb, length, take, if◌then◌else◌, ◌&&◌, arith,
}
use tibia_login_orig.ByteOrder
use tibia_login_orig.Utf8.Text.{latin1_of, utf8_to_latin1_lem}
use tibia_login_orig.Writer.{
  BufferWriter, can_write, write_u8, write_u16, write_u16_be, write_u32, write_u32_be, write_length,
  write_text, write_string,
}
use tibia_login_orig.Writer.Laws.{IsSound, Appends, put-Appends, then-Appends}

module _ (value : ℕ) (w : BufferWriter) (s : IsSound w) where
  pub write_u8-Appends : Appends w (ByteOrder.write_u8 value) (write_u8 value w)
  unfolding write_u8
  write_u8-Appends = put-Appends (ByteOrder.write_u8 value) w s

  pub write_u16-Appends : Appends w (ByteOrder.write_u16_le value) (write_u16 value w)
  unfolding write_u16
  write_u16-Appends = put-Appends (ByteOrder.write_u16_le value) w s

  pub write_u16_be-Appends : Appends w (ByteOrder.write_u16_be value) (write_u16_be value w)
  unfolding write_u16_be
  write_u16_be-Appends = put-Appends (ByteOrder.write_u16_be value) w s

  pub write_u32-Appends : Appends w (ByteOrder.write_u32_le value) (write_u32 value w)
  unfolding write_u32
  write_u32-Appends = put-Appends (ByteOrder.write_u32_le value) w s

  pub write_u32_be-Appends : Appends w (ByteOrder.write_u32_be value) (write_u32_be value w)
  unfolding write_u32_be
  write_u32_be-Appends = put-Appends (ByteOrder.write_u32_be value) w s

-- The bytes of a length in front of a text.
abbrev pub length_bytes : ℕ → List ℕ
length_bytes n =
    if ltb n 0xFFFF
    then ByteOrder.write_u16_le (u16 n)
    else ByteOrder.write_u16_le 0xFFFF ++ ByteOrder.write_u32_le (u32 n)

write_length-Appends :
    (n : ℕ) (w : BufferWriter) → IsSound w → Appends w (length_bytes n) (write_length n w)
unfolding write_length
write_length-Appends n w s = elim (Bool-cases (ltb n 0xFFFF)) [
  | inl short ↦ rw short (write_u16-Appends (u16 n) w s)
  | inr long ↦ rw long (
      then-Appends w (ByteOrder.write_u16_le 0xFFFF) (ByteOrder.write_u32_le (u32 n))
        (write_u16 0xFFFF w) (write_u32 (u32 n)) s (write_u16-Appends 0xFFFF w s)
        (λ v t. write_u32-Appends (u32 n) v t))
]

write_text-Appends :
    (str : List ℕ) (w : BufferWriter)
    → IsSound w
    → Appends w (latin1_of str) (write_text str (length (latin1_of str)) w)
unfolding write_text
write_text-Appends str w s =
    elim (Bool-cases (ltb 0 (length (latin1_of str)) && can_write w (length (latin1_of str)))) [
      | inl fits ↦
          let room : w.position + length (latin1_of str) ≤ w.size = ground arith in
          let (buffer, result, content, same) =
            utf8_to_latin1_lem w.buffer w.position (w.size - w.position) str (omega arith) in
          record {
            after = record w { buffer = buffer; position = w.position + length (latin1_of str) };
            returns = rw (fits, result) refl;
            size_kept = refl;
            length_kept = same;
            moved = refl;
            appended = λ _. content (omega arith);
          }
      | inr skipped ↦ record {
        after = record w { position = w.position + length (latin1_of str) };
        returns = rw skipped refl;
        size_kept = refl;
        length_kept = refl;
        moved = refl;
        appended = λ h. nothing_written (latin1_of str) refl h (ground arith);
      }
    ]
  where
    nothing_written :
        (t : List ℕ)
        → latin1_of str ≡ t
        → w.position + length (latin1_of str) ≤ w.size
        → (length (latin1_of str) ≡ 0) ⊎ (w.size < w.position + length (latin1_of str))
        → take (w.position + length (latin1_of str)) w.buffer
          ≡ take w.position w.buffer ++ latin1_of str
    nothing_written [] e h d = rw e (
        ap (λ (n : ℕ). take n w.buffer) (omega arith) ∙ sym (append-nil (take w.position w.buffer)))
    nothing_written (c ∷ cs) e h d = absurd (omega (arith, ap length e))

-- A text goes out as its length and its Latin-1 bytes.
abbrev pub string_bytes : List ℕ → List ℕ
string_bytes str = length_bytes (length (latin1_of str)) ++ latin1_of str

pub write_string-Appends :
    (str : List ℕ) (w : BufferWriter)
    → IsSound w
    → Appends w (string_bytes str) (write_string str w)
unfolding write_string
write_string-Appends str w s =
    let (none_stored, counted, _, _) = utf8_to_latin1_lem [] 0 0 str (omega arith) in
    rw counted (
      then-Appends w (length_bytes (length (latin1_of str))) (latin1_of str)
        (write_length (length (latin1_of str)) w) (write_text str (length (latin1_of str))) s
        (write_length-Appends (length (latin1_of str)) w s) (λ v t. write_text-Appends str v t))

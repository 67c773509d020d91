-- ===== src/Reader/Texts.antt =====
-- Numbers and texts that src/common/buffer_reader.cpp reads as src/common/buffer_writer.cpp wrote them.
use tibia_login_orig.Base.{
  ℕ, zero, suc, ◌+◌, ◌-◌, ◌^◌, ◌%◌, ◌≤◌, ◌<◌, ◌≡◌, refl, sym, ap, ◌∙◌, some, List, [], ◌∷◌, ◌++◌,
  append-nil, append_assoc, inl, inr, Bool-cases, le→leb, lt→ltb, ltb→lt, ltb→le, ltb, length, take,
  drop, replicate, length-replicate, if◌then◌else◌, load_fits, store, store_fits, pos, add_int_pos,
  arith, AreBytes, u16, u32,
}
use tibia_login_orig.ByteOrder
use tibia_login_orig.ByteOrder.Laws.{
  read-write_u16_le, read-write_u16_be, read-write_u32_le, read-write_u32_be,
}
use tibia_login_orig.Utf8.Latin1.{utf8_of, latin1_to_utf8_lem}
use tibia_login_orig.Writer.Texts.{length_bytes}
use tibia_login_orig.Reader.{
  BufferReader, read_u8, read_u16, read_u16_be, read_u32, read_u32_be, read_length, read_text,
  read_string, load_at,
}
use tibia_login_orig.Reader.Laws.{Left, Reads, Left-at, step_Left, get-Reads}

module _ (v : ℕ) (rest : List ℕ) (r : BufferReader) where
  pub read_u8-Reads : v < 2 ^ 8 → Left r (ByteOrder.write_u8 v ++ rest) → Reads v rest (read_u8 r)
  unfolding read_u8 ByteOrder.write_u8
  read_u8-Reads h l = rw wrap at (get-Reads 0 ByteOrder.read_1 (v % 256 ∷ []) rest r refl l)
    where
      wrap : v % 256 ≡ v
      wrap = omega arith

  pub read_u16-Reads :
      v < 2 ^ 16 → Left r (ByteOrder.write_u16_le v ++ rest) → Reads v rest (read_u16 r)
  unfolding read_u16
  read_u16-Reads h l = rw (read-write_u16_le v h) at (
      get-Reads 1 (ByteOrder.read_2 ByteOrder.read_u16_le) (ByteOrder.write_u16_le v) rest r
        (unfold ByteOrder.write_u16_le in refl) l)

  pub read_u16_be-Reads :
      v < 2 ^ 16 → Left r (ByteOrder.write_u16_be v ++ rest) → Reads v rest (read_u16_be r)
  unfolding read_u16_be
  read_u16_be-Reads h l = rw (read-write_u16_be v h) at (
      get-Reads 1 (ByteOrder.read_2 ByteOrder.read_u16_be) (ByteOrder.write_u16_be v) rest r
        (unfold ByteOrder.write_u16_be in refl) l)

  pub read_u32-Reads :
      v < 2 ^ 32 → Left r (ByteOrder.write_u32_le v ++ rest) → Reads v rest (read_u32 r)
  unfolding read_u32
  read_u32-Reads h l = rw (read-write_u32_le v h) at (
      get-Reads 3 (ByteOrder.read_4 ByteOrder.read_u32_le) (ByteOrder.write_u32_le v) rest r
        (unfold ByteOrder.write_u32_le in refl) l)

  pub read_u32_be-Reads :
      v < 2 ^ 32 → Left r (ByteOrder.write_u32_be v ++ rest) → Reads v rest (read_u32_be r)
  unfolding read_u32_be
  read_u32_be-Reads h l = rw (read-write_u32_be v h) at (
      get-Reads 3 (ByteOrder.read_4 ByteOrder.read_u32_be) (ByteOrder.write_u32_be v) rest r
        (unfold ByteOrder.write_u32_be in refl) l)

-- The length in front of a text, of up to 2^31 - 1 bytes.
pub read_length-Reads :
    (n : ℕ) (rest : List ℕ) (r : BufferReader)
    → n < 2 ^ 31
    → Left r (length_bytes n ++ rest)
    → Reads (pos n) rest (read_length r)
unfolding read_length
read_length-Reads n rest r h l = elim (Bool-cases (ltb n 0xFFFF)) [
  | inl short ↦
      let below : n < 0xFFFF = ltb→lt n 0xFFFF short in
      let wrap : u16 n ≡ n = omega arith in
      let bytes : length_bytes n ≡ ByteOrder.write_u16_le n = rw (short, wrap) refl in
      let a = read_u16-Reads n rest r (omega arith) (rw bytes at l) in
      record { after = a.after; returns = rw a.returns (ground arith); leaves = a.leaves }
  | inr long ↦
      let above : 0xFFFF ≤ n = ltb→le n 0xFFFF long in
      let wrap : u32 n ≡ n = omega arith in
      let bytes : length_bytes n ++ rest
          ≡ ByteOrder.write_u16_le 0xFFFF ++ (ByteOrder.write_u32_le n ++ rest) =
        rw (long, wrap)
          (append_assoc (ByteOrder.write_u16_le 0xFFFF) (ByteOrder.write_u32_le n) rest) in
      let a =
        read_u16-Reads 0xFFFF (ByteOrder.write_u32_le n ++ rest) r (omega arith) (rw bytes at l) in
      let b = read_u32-Reads n rest a.after (omega arith) a.leaves in
      record {
        after = b.after;
        returns = rw (a.returns, b.returns, lt→ltb n (2 ^ 31) h) refl;
        leaves = b.leaves;
      }
]

load_at-front :
    (front rest : List ℕ) (r : BufferReader) (l : Left r (front ++ rest))
    → load_at r.buffer (pos l.start) (length front) ≡ some front
unfolding load_at
load_at-front [] rest r l = refl
load_at-front (c ∷ cs) rest r l =
    let inside = Left-at (c ∷ cs) rest r l in
    load_fits r.buffer l.start (suc (length cs)) (omega (arith, inside.0, l.fits))
    ∙ ap some inside.1

-- What an array of `capacity` bytes holds of a text: its encoding with zeros behind it, or zeros
-- alone if there is no room for it with a terminator.
abbrev pub terminated : ℕ → List ℕ → List ℕ
terminated capacity t =
    if ltb (length (utf8_of t)) capacity
    then utf8_of t ++ replicate (capacity - length (utf8_of t)) 0
    else replicate capacity 0

pub store_zeros :
    (memory : List ℕ) (n : ℕ)
    → n ≤ length memory
    → store memory n (replicate (length memory - n) 0)
      ≡ some (take n memory ++ replicate (length memory - n) 0)
store_zeros memory n h =
    let size : length (replicate (length memory - n) (zero)) ≡ length memory - n =
      length-replicate (length memory - n) 0 in
    store_fits memory n (replicate (length memory - n) 0) (omega (arith, size))
    ∙ ap (λ t. some (take n memory ++ t))
        (ap (λ t. replicate (length memory - n) 0 ++ t)
            (drop_all (n + length (replicate (length memory - n) 0)) memory (omega (arith, size)))
          ∙ append-nil (replicate (length memory - n) 0))
  where
    drop_all : (k : ℕ) (xs : List ℕ) → length xs ≤ k → drop k xs ≡ []
    drop_all k [] p = elim k as (λ j. drop {A = ℕ} j [] ≡ []) [ zero ↦ refl | suc j ↦ refl ]
    drop_all zero (x ∷ xs) p = absurd (omega arith)
    drop_all (suc k) (x ∷ xs) p = drop_all k xs (omega arith)

-- The end of `read_text`, once the encoding was counted and stored.
clear_rest :
    (dest dest' t : List ℕ)
    → length dest' ≡ length dest
    → (length (utf8_of t) ≤ length dest → take (length (utf8_of t)) dest' ≡ utf8_of t)
    → let n = if ltb (length (utf8_of t)) (length dest) then length (utf8_of t) else 0 in
      store dest' n (replicate (length dest - n) 0) ≡ some (terminated (length dest) t)
clear_rest dest dest' t same content = elim (Bool-cases (ltb (length (utf8_of t)) (length dest))) [
  | inl fits ↦
      let below : length (utf8_of t) < length dest =
        ltb→lt (length (utf8_of t)) (length dest) fits in
      rw fits (
        ap (λ (k : ℕ). store dest' (length (utf8_of t)) (replicate (k - length (utf8_of t)) 0))
          (sym same)
        ∙ store_zeros dest' (length (utf8_of t)) (omega (arith, same))
        ∙ ap
            (λ (k : ℕ).
              some (take (length (utf8_of t)) dest' ++ replicate (k - length (utf8_of t)) 0))
            same
        ∙ ap (λ s. some (s ++ replicate (length dest - length (utf8_of t)) 0))
            (content (omega arith)))
  | inr full ↦ rw full (
      ap (λ (k : ℕ). store dest' 0 (replicate (k - 0) 0)) (sym same)
      ∙ store_zeros dest' 0 (omega arith)
      ∙ ap (λ (k : ℕ). some (replicate k 0)) (omega (arith, same)))
]

read_text-returns :
    (dest t rest : List ℕ) (r : BufferReader)
    → AreBytes t
    → Left r (t ++ rest)
    → read_text dest (pos (length t)) r ≡ some (terminated (length dest) t)
unfolding read_text
read_text-returns dest t rest r b l =
    let inside = Left-at t rest r l in
    let stop : l.start + length t ≤ r.size = inside.0 in
    let (dest', encoded, content, same) =
      latin1_to_utf8_lem dest 0 (length dest) t b (omega arith) in
    rw
      (
        l.positioned,
        add_int_pos l.start (length t) (omega (arith, l.bounded)),
        le→leb (l.start + length t + 0) (r.size + 0) (omega arith),
        load_at-front t rest r l,
        encoded,
      )
      (clear_rest dest dest' t same (λ h. ap (λ (k : ℕ). take k dest') (omega arith) ∙ content h))

-- A text that was written comes back in UTF-8 with zeros behind it, if the array has room for it and
-- a terminator, and otherwise the array is cleared; what follows the text is read next.
pub read_string-Reads :
    (dest t rest : List ℕ) (r : BufferReader)
    → 1 ≤ length dest
    → AreBytes t
    → length t < 2 ^ 31
    → Left r (length_bytes (length t) ++ (t ++ rest))
    → Reads (terminated (length dest) t) rest (read_string dest r)
unfolding read_string
read_string-Reads dest t rest r room b short l =
    let a = read_length-Reads (length t) (t ++ rest) r short l in
    let inside = Left-at t rest a.after a.leaves in
    let start = a.leaves.start in
    record {
      after = record a.after { position = pos (start + length t) };
      returns =
          rw
            (
              a.returns,
              lt→ltb 0 (length dest) room,
              read_text-returns dest t rest a.after b a.leaves,
              a.leaves.positioned,
              add_int_pos start (length t) (omega (arith, inside.0, a.leaves.bounded)),
            )
            refl;
      leaves = step_Left (length t) t rest a.after refl a.leaves;
    }

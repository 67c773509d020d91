-- ===== src/Reader/Hostile.antt =====
-- `read_string` of src/common/buffer_reader.cpp on lengths of 2^31 and more, which the sender chooses.
use tibia_login_orig.Base.{
  ℕ, suc, ◌+◌, ◌-◌, ◌^◌, ◌≤◌, ◌<◌, ◌≡◌, refl, ap, ◌∙◌, Bool, true, false, none, some, List, ◌++◌,
  lt→ltb, le→ltb, length, length-take, length-drop, take, replicate, pos, negsuc, sub_ℕ, lebℤ,
  add_int, add_int_negsuc, arith, ltb, if◌then◌else◌, store,
}
use tibia_login_orig.ByteOrder
use tibia_login_orig.Utf8.{latin1_to_utf8, utf8_loop}
use tibia_login_orig.Reader.{
  BufferReader, read_u8, read_u16, read_length, read_text, read_string, load_at, overflowed,
}
use tibia_login_orig.Reader.Laws.{Left, Reads}
use tibia_login_orig.Reader.Texts.{read_u16-Reads, read_u32-Reads, store_zeros}

-- The escape and the four bytes of a length.
abbrev pub escaped : ℕ → List ℕ → List ℕ
escaped v rest = ByteOrder.write_u16_le 0xFFFF ++ (ByteOrder.write_u32_le v ++ rest)

read_escaped :
    (v : ℕ) (rest : List ℕ) (r : BufferReader)
    → v < 2 ^ 32
    → Left r (escaped v rest)
    → Reads (if ltb v (2 ^ 31) then pos v else negsuc (2 ^ 32 - v - 1)) rest (read_length r)
unfolding read_length
read_escaped v rest r h l =
    let a = read_u16-Reads 0xFFFF (ByteOrder.write_u32_le v ++ rest) r (omega arith) l in
    let b = read_u32-Reads v rest a.after h a.leaves in
    record { after = b.after; returns = rw (a.returns, b.returns) refl; leaves = b.leaves }

-- No text is read for a negative length.
read_text_negative :
    (dest : List ℕ) (n start : ℕ) (r : BufferReader)
    → r.position ≡ pos start
    → start ≤ r.size
    → r.size < 2 ^ 31
    → n < 2 ^ 31
    → read_text dest (negsuc n) r ≡ some (replicate (length dest) 0)
unfolding read_text load_at latin1_to_utf8 utf8_loop
read_text_negative dest n start r e h b small =
    rw (e, add_int_negsuc start n (omega arith) small, back)
      (ap (λ (k : ℕ). store dest k (replicate (length dest - k) 0)) (either (ltb 0 (length dest)))
        ∙ store_zeros dest 0 (omega arith)
        ∙ ap (λ (k : ℕ). some (replicate k 0)) (omega arith))
  where
    back : lebℤ (sub_ℕ start (suc n)) (pos r.size) ≡ true
    back = ground arith

    either : (t : Bool) → ◌≡◌ {A = ℕ} (if t then 0 else 0) 0
    either true = refl
    either false = refl

-- A byte in front of the array is not there.
read_u8_before : (m : ℕ) (r : BufferReader) → r.position ≡ negsuc m → read_u8 r ≡ none
unfolding read_u8 load_at add_int
read_u8_before m r e = rw e (ground arith)

behind_lem : (behind n : ℕ) → behind < n → sub_ℕ behind n ≡ negsuc (n - behind - 1)
behind_lem behind n h = ground arith

-- A length of 2^31 or more is negative as an `int`: the array is cleared, the position moves back by
-- 2^32 - v from behind the length, which is below 2^31, and the reader does not count as overflowed. If that is in
-- front of the buffer, the next byte that is read is undefined behaviour.
pub read_string_rewinds :
    (dest rest : List ℕ) (v : ℕ) (r : BufferReader)
    → 1 ≤ length dest
    → 2 ^ 31 ≤ v
    → v < 2 ^ 32
    → Left r (escaped v rest)
    → (behind : ℕ) × (r' : BufferReader) × (read_string dest r
        ≡ some (replicate (length dest) 0, r'))
      × (behind + length rest ≡ r'.size)
      × (r'.position ≡ sub_ℕ behind (2 ^ 32 - v))
      × (overflowed r' ≡ false)
      × (behind < 2 ^ 32 - v → read_u8 r' ≡ none)
      × (behind < 2 ^ 31)
unfolding read_string
read_string_rewinds dest rest v r room lo hi l =
    let a = read_escaped v rest r hi l in
    let negative : ltb v (2 ^ 31) ≡ false = le→ltb v (2 ^ 31) lo in
    let start = a.leaves.start in
    let back : suc (2 ^ 32 - v - 1) ≡ 2 ^ 32 - v = omega arith in
    let after = record (a.after) { position = sub_ℕ start (2 ^ 32 - v) } in
    (
      start,
      after,
      rw
          (
            a.returns,
            negative,
            lt→ltb 0 (length dest) room,
            read_text_negative dest (2 ^ 32 - v - 1) start a.after a.leaves.positioned
                a.leaves.inside a.leaves.bounded (omega arith),
            a.leaves.positioned,
            add_int_negsuc start (2 ^ 32 - v - 1) (omega (arith, a.leaves.inside, a.leaves.bounded))
                (omega arith),
            back,
          )
          refl,
      omega (
        arith,
        ap length a.leaves.is_left,
        length-drop start (take a.after.size a.after.buffer),
        length-take a.after.size a.after.buffer,
        a.leaves.inside,
        a.leaves.fits,
      ),
      refl,
      ground (arith, a.leaves.inside),
      λ h. read_u8_before (2 ^ 32 - v - start - 1) after (behind_lem start (2 ^ 32 - v) h),
      omega (arith, a.leaves.inside, a.leaves.bounded),
    )

read_u16_before :
    (m : ℕ) (r : BufferReader) → r.position ≡ negsuc m → 2 ≤ r.size → read_u16 r ≡ none
unfolding read_u16 load_at add_int
read_u16_before m r e h = rw e (ground arith)

read_string_before :
    (m : ℕ) (dest : List ℕ) (r : BufferReader)
    → r.position ≡ negsuc m
    → 2 ≤ r.size
    → read_string dest r ≡ none
unfolding read_string read_length
read_string_before m dest r e h = rw (read_u16_before m r e h) refl

-- A text length of 2^31 puts the reader in front of the buffer, where the next text faults.
pub read_string_far :
    (dest dest' rest : List ℕ) (r : BufferReader)
    → 1 ≤ length dest
    → 2 ≤ length rest
    → Left r (escaped (2 ^ 31) rest)
    → (r' : BufferReader) × (read_string dest r ≡ some (replicate (length dest) 0, r'))
      × (read_string dest' r' ≡ none)
read_string_far dest dest' rest r room more l =
    let (behind, r', read, size, position, fine, next, near) =
      read_string_rewinds dest rest (2 ^ 31) r room (omega arith) (omega arith) l in
    (
      r',
      read,
      read_string_before (2 ^ 31 - behind - 1) dest' r' (position ∙ behind_lem behind (2 ^ 31) near)
          (omega (arith, size, more)),
    )

-- ===== src/Utf8/OneSequence.antt =====
-- `utf8_encode_one` and `utf8_decode_one` of src/common/utf8.cpp, one sequence at a time.
use tibia_login_orig.Base.{
  ℕ, ◌+◌, ◌-◌, ◌*◌, ◌/◌, ◌%◌, ◌^◌, ◌≤◌, ◌<◌, ◌≡◌, refl, ap, ap₂, ◌∙◌, inl, inr, lt→ltb, Bool-cases,
  tests, leb→lt, le→leb, bit_and, bit_or, u8, ◌>>>◌, some, List, [], ◌∷◌, ◌++◌, length, leb, pos,
  arith,
}
use native.Mathlib.Nat.{one-le-pow, mod-lt}
use tibia_login_orig.Base.Bits.{or_high_low, and_mask, mask_and}
use tibia_login_orig.Utf8.{utf8_encoded_size, sequence_bytes, utf8_decode_one}
use tibia_login_orig.Utf8.Bytes.{utf8_sequence_size_lem, trailing_range}

-- A marked byte is its mark plus its field.
marked :
    (k mark field mask : ℕ)
    → mask + 1 ≡ 2 ^ k
    → (mark + 1) * 2 ^ k ≤ 256
    → u8 (bit_or (mark * 2 ^ k) (bit_and mask field)) ≡ mark * 2 ^ k + field % 2 ^ k
marked k mark field mask e fits = omega (
  arith,
  ap (bit_or (mark * 2 ^ k)) (mask_and k mask field e),
  or_high_low k mark (field % 2 ^ k) below,
  below,
)
  where
    below : field % 2 ^ k < 2 ^ k
    below = mod-lt field (one-le-pow k 2 (omega arith))

two_bytes : (c : ℕ) → c ≤ 0x7FF → sequence_bytes 2 c ≡ (192 + c / 64) ∷ (128 + c % 64) ∷ []
unfolding sequence_bytes
two_bytes c h =
    ap₂ (λ (a b : ℕ). a ∷ b ∷ []) (marked 5 6 (c >>> 6) 0x1F refl (omega arith) ∙ omega arith)
      (marked 6 2 (c >>> 0) 0x3F refl (omega arith) ∙ omega arith)

three_bytes :
    (c : ℕ)
    → c ≤ 0xFFFF
    → sequence_bytes 3 c ≡ (224 + c / 4096) ∷ (128 + c / 64 % 64) ∷ (128 + c % 64) ∷ []
unfolding sequence_bytes
three_bytes c h =
    ap₂ (λ (a : ℕ) (t : List ℕ). a ∷ t)
      (marked 4 14 (c >>> 12) 0x0F refl (omega arith) ∙ omega arith)
      (ap₂ (λ (a b : ℕ). a ∷ b ∷ []) (marked 6 2 (c >>> 6) 0x3F refl (omega arith) ∙ omega arith)
        (marked 6 2 (c >>> 0) 0x3F refl (omega arith) ∙ omega arith))

four_bytes :
    (c : ℕ)
    → c ≤ 0x10FFFF
    → sequence_bytes 4 c
      ≡ (240 + c / 262144) ∷ (128 + c / 4096 % 64) ∷ (128 + c / 64 % 64) ∷ (128 + c % 64) ∷ []
unfolding sequence_bytes
four_bytes c h =
    ap₂ (λ (s t : List ℕ). s ++ t)
      (ap₂ (λ (a b : ℕ). a ∷ b ∷ []) (marked 3 30 (c >>> 18) 0x07 refl (omega arith) ∙ omega arith)
        (marked 6 2 (c >>> 12) 0x3F refl (omega arith) ∙ omega arith))
      (ap₂ (λ (a b : ℕ). a ∷ b ∷ []) (marked 6 2 (c >>> 6) 0x3F refl (omega arith) ∙ omega arith)
        (marked 6 2 (c >>> 0) 0x3F refl (omega arith) ∙ omega arith))

abbrev pub IsTrailing : ℕ → Type 0
IsTrailing b = (128 ≤ b) × (b < 192)

pub decode_ascii : (a : ℕ) (rest : List ℕ) → a < 128 → utf8_decode_one (a ∷ rest) ≡ some (1, a)
unfolding utf8_decode_one
decode_ascii a rest h = rw (utf8_sequence_size_lem a (omega arith), lt→ltb a 128 h) (ground arith)

pub decode_two :
    (a b : ℕ) (rest : List ℕ)
    → 192 ≤ a
    → a < 224
    → IsTrailing b
    → utf8_decode_one (a ∷ b ∷ rest) ≡ some (2, (a - 192) * 64 + (b - 128))
unfolding utf8_decode_one
decode_two a b rest lo hi t = ground (
  arith,
  utf8_sequence_size_lem a (omega arith),
  trailing_range b t.0 t.1,
  and_mask 5 0x1F a refl,
  and_mask 6 0x3F b refl,
  or_high_low 6 (a - 192) (b - 128) (omega arith),
)

pub decode_three :
    (a b c : ℕ) (rest : List ℕ)
    → 224 ≤ a
    → a < 240
    → IsTrailing b
    → IsTrailing c
    → utf8_decode_one (a ∷ b ∷ c ∷ rest) ≡ some (3, (a - 224) * 4096 + (b - 128) * 64 + (c - 128))
unfolding utf8_decode_one
decode_three a b c rest lo hi tb tc = ground (
  arith,
  utf8_sequence_size_lem a (omega arith),
  trailing_range b tb.0 tb.1,
  trailing_range c tc.0 tc.1,
  and_mask 4 0x0F a refl,
  and_mask 6 0x3F b refl,
  and_mask 6 0x3F c refl,
  or_high_low 12 (a - 224) ((b - 128) * 64) (omega arith),
  or_high_low 6 ((a - 224) * 64 + (b - 128)) (c - 128) (omega arith),
)

pub decode_four :
    (a b c d : ℕ) (rest : List ℕ)
    → 240 ≤ a
    → a < 248
    → IsTrailing b
    → IsTrailing c
    → IsTrailing d
    → utf8_decode_one (a ∷ b ∷ c ∷ d ∷ rest)
      ≡ some (4, (a - 240) * 262144 + (b - 128) * 4096 + (c - 128) * 64 + (d - 128))
unfolding utf8_decode_one
decode_four a b c d rest lo hi tb tc td = ground (
  arith,
  utf8_sequence_size_lem a (omega arith),
  trailing_range b tb.0 tb.1,
  trailing_range c tc.0 tc.1,
  trailing_range d td.0 td.1,
  and_mask 3 0x07 a refl,
  and_mask 6 0x3F b refl,
  and_mask 6 0x3F c refl,
  and_mask 6 0x3F d refl,
  or_high_low 18 (a - 240) ((b - 128) * 4096) (omega arith),
  or_high_low 12 ((a - 240) * 64 + (b - 128)) ((c - 128) * 64) (omega arith),
  or_high_low 6 ((a - 240) * 4096 + (b - 128) * 64 + (c - 128)) (d - 128) (omega arith),
)

abbrev Decodes : ℕ → ℕ → List ℕ → Type 0
Decodes size c rest = utf8_decode_one (sequence_bytes size c ++ rest) ≡ some (size, c)

Decodes-one : (c : ℕ) (rest : List ℕ) → c ≤ 0x7F → Decodes 1 c rest
unfolding sequence_bytes
Decodes-one c rest h = rw (small c h) (decode_ascii c rest (omega arith))
  where
    small : (n : ℕ) → n ≤ 0x7F → n % 256 ≡ n
    small n p = omega arith

Decodes-two : (c : ℕ) (rest : List ℕ) → 0x7F < c → c ≤ 0x7FF → Decodes 2 c rest
Decodes-two c rest lo hi = rw (two_bytes c hi) (
    decode_two (192 + c / 64) (128 + c % 64) rest (omega arith) (omega arith) (omega arith)
    ∙ ap (λ (t : ℕ). some (2, t)) (omega arith))

Decodes-three : (c : ℕ) (rest : List ℕ) → 0x7FF < c → c ≤ 0xFFFF → Decodes 3 c rest
Decodes-three c rest lo hi = rw (three_bytes c hi) (
    decode_three (224 + c / 4096) (128 + c / 64 % 64) (128 + c % 64) rest (omega arith)
      (omega arith) (omega arith) (omega arith)
    ∙ ap (λ (t : ℕ). some (3, t)) (omega arith))

Decodes-four : (c : ℕ) (rest : List ℕ) → 0xFFFF < c → c ≤ 0x10FFFF → Decodes 4 c rest
Decodes-four c rest lo hi = rw (four_bytes c hi) (
    decode_four (240 + c / 262144) (128 + c / 4096 % 64) (128 + c / 64 % 64) (128 + c % 64) rest
      (omega arith) (omega arith) (omega arith) (omega arith) (omega arith)
    ∙ ap (λ (t : ℕ). some (4, t)) (omega arith))

-- Every codepoint of Unicode: the bytes that are stored for it, whatever follows them, are read
-- back as that codepoint, and all of them are consumed.
pub utf8_decode_one-sequence_bytes :
    (c : ℕ) (rest : List ℕ)
    → c ≤ 0x10FFFF
    → utf8_decode_one (sequence_bytes (utf8_encoded_size (pos c)) c ++ rest)
      ≡ some (utf8_encoded_size (pos c), c)
unfolding utf8_encoded_size
utf8_decode_one-sequence_bytes c rest h = elim (Bool-cases (leb c 0x7F)) [
  | inl p ↦ rw p (Decodes-one c rest (omega tests))
  | inr p ↦ elim (Bool-cases (leb c 0x7FF)) [
    | inl q ↦ rw (p, q) (Decodes-two c rest (leb→lt c 0x7F p) (omega tests))
    | inr q ↦ elim (Bool-cases (leb c 0xFFFF)) [
      | inl r ↦ rw (p, q, r) (Decodes-three c rest (leb→lt c 0x7FF q) (omega tests))
      | inr r ↦ rw (p, q, r, le→leb c 0x10FFFF h) (Decodes-four c rest (leb→lt c 0xFFFF r) h)
    ]
  ]
]

-- What a codepoint takes is as many bytes as `utf8_encoded_size` says.
pub length-sequence_bytes :
    (c : ℕ) → length (sequence_bytes (utf8_encoded_size (pos c)) c) ≡ utf8_encoded_size (pos c)
unfolding utf8_encoded_size sequence_bytes
length-sequence_bytes c = ground arith

-- A decoded sequence has one to four bytes, all of them there.
pub utf8_decode_one_bounds :
    (src : List ℕ) (size c : ℕ)
    → utf8_decode_one src ≡ some (size, c)
    → (1 ≤ size) × (size ≤ length src)
unfolding utf8_decode_one
utf8_decode_one_bounds [] size c e = cc
utf8_decode_one_bounds (b ∷ bs) size c e = ground arith

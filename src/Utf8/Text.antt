-- ===== src/Utf8/Text.antt =====
-- `utf8_to_latin1` of src/common/utf8.cpp, against a recursion that says what text it stores.
use tibia_login_orig.Base.{
  ℕ, zero, suc, ◌+◌, ◌≤◌, ◌<◌, ◌≡◌, refl, ap, ap₂, sym, ◌∙◌, inl, inr, Bool-cases, le→leb, ltb→lt,
  ltb→le, append-nil, some, List, [], ◌∷◌, ◌++◌, length, ltb, pos, AreBytes, take, drop,
  length-append, length-drop, append_assoc, arith, store_fits, overwrite, length-overwrite,
  take-overwrite, Option-cases, drop-append,
}
use tibia_login_orig.Utf8.{
  utf8_encoded_size, sequence_bytes, utf8_decode_one, utf8_find_next_leading_byte, latin1_advance,
  latin1_char, latin1_loop, utf8_to_latin1, latin1_to_utf8,
}
use tibia_login_orig.Utf8.OneSequence.{
  utf8_decode_one-sequence_bytes, length-sequence_bytes, utf8_decode_one_bounds,
}
use tibia_login_orig.Utf8.Latin1.{utf8_of, latin1_to_utf8_lem, encoded_size_pos}

-- Each round reads a byte or more.
pub latin1_advance_pos : (b : ℕ) (bs : List ℕ) → 1 ≤ (latin1_advance (b ∷ bs)).0
unfolding latin1_advance utf8_find_next_leading_byte
latin1_advance_pos b bs = elim (Option-cases (utf8_decode_one (b ∷ bs))) [
  | inl e ↦ rw (e, latin1_advance) (omega arith)
  | inr ((size, c), e) ↦ rw (e, latin1_advance) (utf8_decode_one_bounds (b ∷ bs) size c e).0
]

-- The Latin-1 text of a span, for as many rounds.
abbrev pub latin1_text : ℕ → List ℕ → List ℕ
latin1_text zero src = []
latin1_text (suc fuel) [] = []
latin1_text (suc fuel) (b ∷ bs) =
    latin1_char (latin1_advance (b ∷ bs)).1
    ∷ latin1_text fuel (drop (latin1_advance (b ∷ bs)).0 (b ∷ bs))

abbrev pub latin1_of : List ℕ → List ℕ
latin1_of src = latin1_text (suc (length src)) src

-- With fuel above the length, the loop ends; it counts the whole text, and stores it if it fits.
latin1_loop_lem :
    (fuel : ℕ) (dest : List ℕ) (at dest_capacity write_pos : ℕ) (src : List ℕ)
    → length src < fuel
    → at + dest_capacity ≤ length dest
    → (dest' : List ℕ) × (latin1_loop fuel dest at dest_capacity write_pos src
        ≡ some (write_pos + length (latin1_text fuel src), dest'))
      × (write_pos + length (latin1_text fuel src) ≤ dest_capacity
          → take (at + (write_pos + length (latin1_text fuel src))) dest'
            ≡ take (at + write_pos) dest ++ latin1_text fuel src)
      × (length dest' ≡ length dest)
unfolding latin1_loop
latin1_loop_lem zero dest at dest_capacity write_pos src f room = absurd (omega arith)
latin1_loop_lem (suc fuel) dest at dest_capacity write_pos [] f room = (
  dest,
  ap (λ (n : ℕ). some (n, dest)) (omega arith),
  λ h.
      ap (λ (n : ℕ). take (at + n) dest) (omega arith)
      ∙ sym (append-nil (take (at + write_pos) dest)),
  refl,
)
latin1_loop_lem (suc fuel) dest at dest_capacity write_pos (b ∷ bs) f room =
    let rest = drop (latin1_advance (b ∷ bs)).0 (b ∷ bs) in
    let ch = latin1_char (latin1_advance (b ∷ bs)).1 in
    let shorter : length rest < fuel =
      omega (arith, latin1_advance_pos b bs, length-drop (latin1_advance (b ∷ bs)).0 (b ∷ bs)) in
    elim (Bool-cases (ltb write_pos dest_capacity)) [
      | inl fits ↦
          let inside : write_pos < dest_capacity = ltb→lt write_pos dest_capacity fits in
          let stored = overwrite dest (at + write_pos) (ch ∷ []) in
          let same_before : length stored ≡ length dest =
            length-overwrite dest (at + write_pos) (ch ∷ []) (omega arith) in
          let (dest', result, content, same) =
            latin1_loop_lem fuel stored at dest_capacity (write_pos + 1) rest shorter
              (omega arith) in
          (
            dest',
            rw (fits, store_fits dest (at + write_pos) (ch ∷ []) (omega arith))
                (result ∙ ap (λ (n : ℕ). some (n, dest')) (omega arith)),
            λ h.
                ap (λ (n : ℕ). take (at + n) dest') (omega arith)
                ∙ content (omega arith)
                ∙ ap (λ (t : List ℕ). t ++ latin1_text fuel rest)
                    (take-overwrite dest (at + write_pos) (ch ∷ []) (omega arith) (omega arith))
                ∙ append_assoc (take (at + write_pos) dest) (ch ∷ []) (latin1_text fuel rest),
            same ∙ same_before,
          )
      | inr full ↦
          let outside : dest_capacity ≤ write_pos = ltb→le write_pos dest_capacity full in
          let (dest', result, content, same) =
            latin1_loop_lem fuel dest at dest_capacity (write_pos + 1) rest shorter room in
          (
            dest',
            rw full (result ∙ ap (λ (n : ℕ). some (n, dest')) (omega arith)),
            λ h. absurd (omega arith),
            same,
          )
    ]

-- The call ends without a fault; it returns the length of the whole text, keeps the array's length,
-- and stores the text if there is room for it.
pub utf8_to_latin1_lem :
    (dest : List ℕ) (at dest_capacity : ℕ) (src : List ℕ)
    → at + dest_capacity ≤ length dest
    → (dest' : List ℕ) × (utf8_to_latin1 dest at dest_capacity src
        ≡ some (length (latin1_of src), dest'))
      × (length (latin1_of src) ≤ dest_capacity
          → take (at + length (latin1_of src)) dest' ≡ take at dest ++ latin1_of src)
      × (length dest' ≡ length dest)
unfolding utf8_to_latin1
utf8_to_latin1_lem dest at dest_capacity src room =
    let (dest', result, content, same) =
      latin1_loop_lem (suc (length src)) dest at dest_capacity 0 src (omega arith) room in
    (
      dest',
      result ∙ ap (λ (n : ℕ). some (n, dest')) (omega arith),
      λ h.
          ap (λ (n : ℕ). take (at + n) dest') (omega arith)
          ∙ content (omega arith)
          ∙ ap (λ (n : ℕ). take n dest ++ latin1_of src) (omega arith),
      same,
    )

latin1_text_round :
    (fuel : ℕ) (src : List ℕ) {size c : ℕ}
    → utf8_decode_one src ≡ some (size, c)
    → latin1_text (suc fuel) src ≡ latin1_char (pos c) ∷ latin1_text fuel (drop size src)
unfolding latin1_advance
latin1_text_round fuel [] e = absurd (unfold utf8_decode_one in cc e)
latin1_text_round fuel (b ∷ bs) e = rw (e, latin1_advance) refl

-- The text of an encoded Latin-1 text is that text.
latin1_text-utf8_of :
    (fuel : ℕ) (t : List ℕ) → AreBytes t → length t < fuel → latin1_text fuel (utf8_of t) ≡ t
latin1_text-utf8_of zero t b h = absurd (omega arith)
latin1_text-utf8_of (suc fuel) [] b h = refl
latin1_text-utf8_of (suc fuel) (c ∷ cs) b h =
    latin1_text_round fuel (utf8_of (c ∷ cs))
      (utf8_decode_one-sequence_bytes c (utf8_of cs) (omega arith))
    ∙ ap₂ ◌∷◌ (rw (le→leb c 0xFF (omega arith)) refl) (
        ap (latin1_text fuel) (
          drop-append (utf8_encoded_size (pos c)) (sequence_bytes (utf8_encoded_size (pos c)) c)
            (utf8_of cs) (length-sequence_bytes c))
        ∙ latin1_text-utf8_of fuel cs b.1 (omega arith))

length-le-utf8_of : (t : List ℕ) → AreBytes t → length t ≤ length (utf8_of t)
length-le-utf8_of [] b = omega arith
length-le-utf8_of (c ∷ cs) b = omega (
  arith,
  length-append (sequence_bytes (utf8_encoded_size (pos c)) c) (utf8_of cs),
  length-sequence_bytes c,
  encoded_size_pos c b.0,
  length-le-utf8_of cs b.1,
)

pub latin1_of-utf8_of : (t : List ℕ) → AreBytes t → latin1_of (utf8_of t) ≡ t
latin1_of-utf8_of t b =
    latin1_text-utf8_of (suc (length (utf8_of t))) t b (omega (arith, length-le-utf8_of t b))

-- A Latin-1 text that `latin1_to_utf8` puts into an array with room for its encoding, and that
-- `utf8_to_latin1` takes out of it into an array with room for the text, is the text again. Both
-- calls end without a fault, and return the sizes of what they stored.
pub utf8_to_latin1-latin1_to_utf8 :
    (t wide narrow : List ℕ)
    → AreBytes t
    → length (utf8_of t) ≤ length wide
    → length t ≤ length narrow
    → (n : ℕ) × (wide' : List ℕ) × (narrow' : List ℕ) × (latin1_to_utf8 wide 0 (length wide) t
        ≡ some (n, wide'))
      × (utf8_to_latin1 narrow 0 (length narrow) (take n wide') ≡ some (length t, narrow'))
      × (take (length t) narrow' ≡ t)
utf8_to_latin1-latin1_to_utf8 t wide narrow b room room' =
    let (wide', encoded, content, same) =
      latin1_to_utf8_lem wide 0 (length wide) t b (omega arith) in
    let text : latin1_of (take (length (utf8_of t)) wide') ≡ t =
      ap (λ (k : ℕ). latin1_of (take k wide')) (omega arith)
      ∙ ap latin1_of (content room)
      ∙ latin1_of-utf8_of t b in
    let (narrow', decoded, content', same') =
      utf8_to_latin1_lem narrow 0 (length narrow) (take (length (utf8_of t)) wide') (omega arith) in
    (
      length (utf8_of t),
      wide',
      narrow',
      encoded,
      decoded ∙ ap (λ (s : List ℕ). some (length s, narrow')) text,
      ap (λ (s : List ℕ). take (length s) narrow') (sym text)
          ∙ ap (λ (k : ℕ). take k narrow') (omega arith)
          ∙ content' (omega (arith, ap length text))
          ∙ text,
    )

-- ===== src/Utf8/Latin1.antt =====
-- `utf8_to_latin1` and `latin1_to_utf8` of src/common/utf8.cpp, over whole texts.
use tibia_login_orig.Base.{
  ℕ, ◌+◌, ◌-◌, ◌≤◌, ◌<◌, ◌≡◌, refl, ap, sym, ◌∙◌, inl, inr, Bool-cases, lt→ltb, le→leb, leb→le,
  leb→lt, append-nil, some, List, [], ◌∷◌, ◌++◌, length, leb, pos, IsByte, AreBytes, take,
  length-append, append_assoc, arith, store_fits, overwrite, length-overwrite, take-overwrite,
}
use tibia_login_orig.Utf8.{
  utf8_encoded_size, sequence_bytes, utf8_encode_one, utf8_loop, latin1_to_utf8,
}
use tibia_login_orig.Utf8.OneSequence.{length-sequence_bytes}

-- A Latin-1 text in UTF-8.
abbrev pub utf8_of : List ℕ → List ℕ
utf8_of [] = []
utf8_of (b ∷ bs) = sequence_bytes (utf8_encoded_size (pos b)) b ++ utf8_of bs

pub encoded_size_pos : (c : ℕ) → IsByte c → 1 ≤ utf8_encoded_size (pos c)
unfolding utf8_encoded_size
encoded_size_pos c h = ground arith

utf8_encode_one_fits :
    (dest : List ℕ) (at dest_capacity c : ℕ)
    → IsByte c
    → utf8_encoded_size (pos c) ≤ dest_capacity
    → at + dest_capacity ≤ length dest
    → utf8_encode_one dest at dest_capacity (pos c)
      ≡ some (
        utf8_encoded_size (pos c),
        overwrite dest at (sequence_bytes (utf8_encoded_size (pos c)) c),
      )
unfolding utf8_encode_one
utf8_encode_one_fits dest at dest_capacity c b fits room =
    rw
      (
        lt→ltb 0 (utf8_encoded_size (pos c)) (encoded_size_pos c b),
        le→leb (utf8_encoded_size (pos c)) dest_capacity fits,
        store_fits dest at (sequence_bytes (utf8_encoded_size (pos c)) c)
            (omega (arith, length-sequence_bytes c)),
      )
      refl

utf8_encode_one_full :
    (dest : List ℕ) (at dest_capacity c : ℕ)
    → dest_capacity < utf8_encoded_size (pos c)
    → utf8_encode_one dest at dest_capacity (pos c) ≡ some (utf8_encoded_size (pos c), dest)
unfolding utf8_encode_one
utf8_encode_one_full dest at dest_capacity c h = ground arith

-- With room for it, the whole encoding is stored from the offset on, and its size is returned.
utf8_loop_fits :
    (dest : List ℕ) (at dest_capacity write_pos : ℕ) (src : List ℕ)
    → AreBytes src
    → at + dest_capacity ≤ length dest
    → write_pos + length (utf8_of src) ≤ dest_capacity
    → (dest' : List ℕ) × (utf8_loop dest at dest_capacity write_pos src
        ≡ some (write_pos + length (utf8_of src), dest'))
      × (take (at + (write_pos + length (utf8_of src))) dest'
          ≡ take (at + write_pos) dest ++ utf8_of src)
      × (length dest' ≡ length dest)
unfolding utf8_loop
utf8_loop_fits dest at dest_capacity write_pos [] b room h = (
  dest,
  ap (λ (n : ℕ). some (n, dest)) (omega arith),
  ap (λ (n : ℕ). take (at + n) dest) (omega arith) ∙ sym (append-nil (take (at + write_pos) dest)),
  refl,
)
utf8_loop_fits dest at dest_capacity write_pos (c ∷ cs) b room h =
    let size = utf8_encoded_size (pos c) in
    let bytes = sequence_bytes size c in
    let total : length (bytes ++ utf8_of cs) ≡ size + length (utf8_of cs) =
      omega (arith, length-append bytes (utf8_of cs), length-sequence_bytes c) in
    let inside : at + write_pos + length bytes ≤ length dest =
      omega (arith, total, length-sequence_bytes c) in
    let (dest', result, content, same) =
      utf8_loop_fits (overwrite dest (at + write_pos) bytes) at dest_capacity (write_pos + size) cs
        b.1 (omega (arith, length-overwrite dest (at + write_pos) bytes inside))
        (omega (arith, total)) in
    (
      dest',
      rw
          (utf8_encode_one_fits dest (at + write_pos) (dest_capacity - write_pos) c b.0
            (omega (arith, total)) (omega (arith, total)))
          (result ∙ ap (λ (n : ℕ). some (n, dest')) (omega (arith, total))),
      ap (λ (n : ℕ). take (at + n) dest') (omega (arith, total))
          ∙ content
          ∙ ap (λ (t : List ℕ). t ++ utf8_of cs)
              (take-overwrite dest (at + write_pos) bytes (omega (arith, length-sequence_bytes c))
                (omega (arith, total)))
          ∙ append_assoc (take (at + write_pos) dest) bytes (utf8_of cs),
      same ∙ length-overwrite dest (at + write_pos) bytes inside,
    )

-- Whatever the room, nothing outside the capacity is stored, and the full size is returned.
utf8_loop_safe :
    (dest : List ℕ) (at dest_capacity write_pos : ℕ) (src : List ℕ)
    → AreBytes src
    → at + dest_capacity ≤ length dest
    → (dest' : List ℕ) × (utf8_loop dest at dest_capacity write_pos src
        ≡ some (write_pos + length (utf8_of src), dest'))
      × (length dest' ≡ length dest)
unfolding utf8_loop
utf8_loop_safe dest at dest_capacity write_pos [] b room =
    (dest, ap (λ (n : ℕ). some (n, dest)) (omega arith), refl)
utf8_loop_safe dest at dest_capacity write_pos (c ∷ cs) b room =
    let size = utf8_encoded_size (pos c) in
    let bytes = sequence_bytes size c in
    let total : length (bytes ++ utf8_of cs) ≡ size + length (utf8_of cs) =
      omega (arith, length-append bytes (utf8_of cs), length-sequence_bytes c) in
    elim (Bool-cases (leb size (dest_capacity - write_pos))) [
      | inl fits ↦
          let positive : 1 ≤ size = encoded_size_pos c b.0 in
          let enough : size ≤ dest_capacity - write_pos =
            leb→le size (dest_capacity - write_pos) fits in
          let inside : at + write_pos + length bytes ≤ length dest =
            omega (arith, length-sequence_bytes c) in
          let (dest', result, same) =
            utf8_loop_safe (overwrite dest (at + write_pos) bytes) at dest_capacity
              (write_pos + size) cs b.1
              (omega (arith, length-overwrite dest (at + write_pos) bytes inside)) in
          (
            dest',
            rw
                (utf8_encode_one_fits dest (at + write_pos) (dest_capacity - write_pos) c b.0 enough
                  (omega arith))
                (result ∙ ap (λ (n : ℕ). some (n, dest')) (omega (arith, total))),
            same ∙ length-overwrite dest (at + write_pos) bytes inside,
          )
      | inr full ↦
          let (dest', result, same) =
            utf8_loop_safe dest at dest_capacity (write_pos + size) cs b.1 room in
          (
            dest',
            rw
                (utf8_encode_one_full dest (at + write_pos) (dest_capacity - write_pos) c
                  (leb→lt size (dest_capacity - write_pos) full))
                (result ∙ ap (λ (n : ℕ). some (n, dest')) (omega (arith, total))),
            same,
          )
    ]

-- For a destination with the given capacity: the call ends without a fault, returns the size of the
-- whole encoding, keeps the array's length, and stores the encoding if there is room for it.
pub latin1_to_utf8_lem :
    (dest : List ℕ) (at dest_capacity : ℕ) (src : List ℕ)
    → AreBytes src
    → at + dest_capacity ≤ length dest
    → (dest' : List ℕ) × (latin1_to_utf8 dest at dest_capacity src
        ≡ some (length (utf8_of src), dest'))
      × (length (utf8_of src) ≤ dest_capacity
          → take (at + length (utf8_of src)) dest' ≡ take at dest ++ utf8_of src)
      × (length dest' ≡ length dest)
unfolding latin1_to_utf8
latin1_to_utf8_lem dest at dest_capacity src b room =
    elim (Bool-cases (leb (length (utf8_of src)) dest_capacity)) [
      | inl fits ↦
          let (dest', result, content, same) =
            utf8_loop_fits dest at dest_capacity 0 src b room
              (omega (arith, leb→le (length (utf8_of src)) dest_capacity fits)) in
          (
            dest',
            result ∙ ap (λ (n : ℕ). some (n, dest')) (omega arith),
            λ h.
                ap (λ (n : ℕ). take (at + n) dest') (omega arith)
                ∙ content
                ∙ ap (λ (n : ℕ). take n dest ++ utf8_of src) (omega arith),
            same,
          )
      | inr full ↦
          let (dest', result, same) = utf8_loop_safe dest at dest_capacity 0 src b room in
          (
            dest',
            result ∙ ap (λ (n : ℕ). some (n, dest')) (omega arith),
            λ h. absurd (omega (arith, leb→lt (length (utf8_of src)) dest_capacity full)),
            same,
          )
    ]

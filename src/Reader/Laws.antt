-- ===== src/Reader/Laws.antt =====
-- What the operations of src/common/buffer_reader.cpp read, and when they are defined.
use tibia_login_orig.Base.{
  ℕ, suc, ◌+◌, ◌-◌, ◌^◌, ◌≤◌, ◌<◌, ◌≡◌, refl, sym, ap, ◌∙◌, Option, some, List, ◌++◌, le→leb,
  length, length-append, length-take, length-drop, take, drop, take-append, drop-append, drop-drop,
  load_fits, ◌>>=◌, pos, add_int_pos, arith,
}
use tibia_login_orig.Base.Slices.{drop-take, take-take}
use tibia_login_orig.Reader.{BufferReader, get, load_at}

-- `text` is what is left to read: the position is inside the buffer, and the buffer inside its
-- array. Its size leaves room in an `int` for the widest step.
pub record Left (r : BufferReader) (text : List ℕ) : Type 0 where
  pub start : ℕ
  pub positioned : r.position ≡ pos start
  pub inside : start ≤ r.size
  pub fits : r.size ≤ length r.buffer
  pub bounded : r.size < 2 ^ 31
  pub is_left : drop start (take r.size r.buffer) ≡ text

-- `result` is the value and a reader with `rest` left.
pub record Reads {ℓ} {A : Type ℓ} (value : A) (rest : List ℕ) (result : Option (A × BufferReader))
    : Type ℓ where
  pub after : BufferReader
  pub returns : result ≡ some (value, after)
  pub leaves : Left after rest

-- Where the bytes at hand are inside the buffer.
pub Left-at :
    (front rest : List ℕ) (r : BufferReader) (l : Left r (front ++ rest))
    → (l.start + length front ≤ r.size) × (take (length front) (drop l.start r.buffer) ≡ front)
Left-at front rest r l =
    let total : r.size ≡ l.start + (length front + length rest) = omega (
      arith,
      ap length l.is_left,
      length-append front rest,
      length-drop l.start (take r.size r.buffer),
      length-take r.size r.buffer,
      l.inside,
      l.fits,
    ) in
    (
      omega (arith, total),
      sym (
            take-take (length front) (r.size - l.start) (drop l.start r.buffer)
              (omega (arith, total)))
          ∙ ap (take (length front)) (sym (drop-take l.start r.size r.buffer) ∙ l.is_left)
          ∙ take-append (length front) front rest refl,
    )

-- The reader behind the bytes that it has read.
pub step_Left :
    (n : ℕ) (front rest : List ℕ) (r : BufferReader)
    → length front ≡ n
    → (l : Left r (front ++ rest)) → Left (record r { position = pos (l.start + n) }) rest
step_Left n front rest r e l =
    let inside = Left-at front rest r l in
    record {
      start = l.start + n;
      positioned = refl;
      inside = omega (arith, inside.0);
      fits = l.fits;
      bounded = l.bounded;
      is_left =
          sym (drop-drop l.start n (take r.size r.buffer) refl)
          ∙ ap (drop n) l.is_left
          ∙ drop-append n front rest e;
    }

pub get-Reads :
    (n : ℕ) (word : List ℕ → ℕ) (front rest : List ℕ) (r : BufferReader)
    → length front ≡ suc n
    → Left r (front ++ rest)
    → Reads (word front) rest (get (suc n) word r)
unfolding get load_at
get-Reads n word front rest r e l =
    let inside = Left-at front rest r l in
    let stop : l.start + suc n ≤ r.size = omega (arith, inside.0) in
    record {
      after = record r { position = pos (l.start + suc n) };
      returns =
          rw
            (
              l.positioned,
              get,
              add_int_pos l.start (suc n) (omega (arith, l.bounded)),
              le→leb (l.start + suc n + 0) (r.size + 0) (omega arith),
              load_fits r.buffer l.start (suc n) (omega (arith, l.fits)),
            )
            (ap (λ (t : List ℕ). some (word t, record r { position = pos (l.start + suc n) }))
              (ap (λ (k : ℕ). take k (drop l.start r.buffer)) (sym e) ∙ inside.1));
      leaves = step_Left (suc n) front rest r e l;
    }

-- One read behind another.
pub then-Reads {ℓ κ} :
    {A : Type ℓ} {B : Type κ} (value : A) (middle : List ℕ) (value' : B) (rest : List ℕ)
    (result : Option (A × BufferReader)) (next : A × BufferReader → Option (B × BufferReader))
    → Reads value middle result
    → ((r : BufferReader) → Left r middle → Reads value' rest (next (value, r)))
    → Reads value' rest (result >>= next)
then-Reads value middle value' rest result next a step =
    let b = step a.after a.leaves in
    record { after = b.after; returns = rw a.returns b.returns; leaves = b.leaves }

pub return-Reads {ℓ} :
    {A : Type ℓ} (value : A) (rest : List ℕ) (r : BufferReader)
    → Left r rest
    → Reads value rest (some (value, r))
return-Reads value rest r l = record { after = r; returns = refl; leaves = l }

-- ===== src/Writer/Laws.antt =====
-- What the operations of src/common/buffer_writer.cpp append.
use tibia_login_orig.Base.{
  ℕ, ◌+◌, ◌≤◌, ◌≡◌, refl, sym, ap, ◌∙◌, Option, some, List, [], ◌++◌, append-nil, append_assoc, inl,
  inr, Bool-cases, leb→le, leb→lt, leb, length, length-append, take, store_fits, overwrite,
  length-overwrite, take-overwrite, ◌>>=◌, arith,
}
use tibia_login_orig.Writer.{BufferWriter, put}

-- The writable part is inside the array.
abbrev pub IsSound : BufferWriter → Type 0
IsSound w = w.size ≤ length w.buffer

-- What has been written so far.
abbrev pub written : BufferWriter → List ℕ
written w = take w.position w.buffer

-- `result` is a writer, and it has `bytes` behind what `w` had, if they fit: else it is marked as
-- overflowed by its position. The array keeps its length and the writer its size.
pub record Appends (w : BufferWriter) (bytes : List ℕ) (result : Option BufferWriter) : Type 0 where
  pub after : BufferWriter
  pub returns : result ≡ some after
  pub size_kept : after.size ≡ w.size
  pub length_kept : length after.buffer ≡ length w.buffer
  pub moved : after.position ≡ w.position + length bytes
  pub appended : after.position ≤ after.size → written after ≡ written w ++ bytes

pub put-Appends : (bytes : List ℕ) (w : BufferWriter) → IsSound w → Appends w bytes (put bytes w)
unfolding put
put-Appends bytes w s = elim (Bool-cases (leb (w.position + length bytes) w.size)) [
  | inl fits ↦
      let room : w.position + length bytes ≤ w.size =
        leb→le (w.position + length bytes) w.size fits in
      record {
        after = record w {
          buffer = overwrite w.buffer w.position bytes;
          position = w.position + length bytes;
        };
        returns = rw (fits, store_fits w.buffer w.position bytes (omega arith)) refl;
        size_kept = refl;
        length_kept = length-overwrite w.buffer w.position bytes (omega arith);
        moved = refl;
        appended = λ _. take-overwrite w.buffer w.position bytes refl (omega arith);
      }
  | inr full ↦ record {
    after = record w { position = w.position + length bytes };
    returns = rw full refl;
    size_kept = refl;
    length_kept = refl;
    moved = refl;
    appended = λ h. absurd (omega (arith, leb→lt (w.position + length bytes) w.size full));
  }
]

-- The same of two writers: `v` has `bytes` behind what `w` had, if they fit.
pub record Grows (w : BufferWriter) (bytes : List ℕ) (v : BufferWriter) : Type 0 where
  pub size_kept : v.size ≡ w.size
  pub length_kept : length v.buffer ≡ length w.buffer
  pub moved : v.position ≡ w.position + length bytes
  pub appended : v.position ≤ v.size → written v ≡ written w ++ bytes

pub grown :
    (w : BufferWriter) (bytes : List ℕ) (result : Option BufferWriter) (a : Appends w bytes result)
    → Grows w bytes a.after
grown w bytes result a = record {
  size_kept = a.size_kept;
  length_kept = a.length_kept;
  moved = a.moved;
  appended = a.appended;
}

pub both-Grows :
    (w : BufferWriter) (first rest : List ℕ) (v u : BufferWriter)
    → Grows w first v
    → Grows v rest u
    → Grows w (first ++ rest) u
both-Grows w first rest v u a b = record {
  size_kept = b.size_kept ∙ a.size_kept;
  length_kept = b.length_kept ∙ a.length_kept;
  moved = omega (arith, a.moved, b.moved, length-append first rest);
  appended = λ h.
      b.appended h
      ∙ ap (λ (t : List ℕ). t ++ rest)
          (a.appended (omega (arith, a.moved, b.moved, a.size_kept, b.size_kept)))
      ∙ append_assoc (written w) first rest;
}

-- One operation behind another.
pub then-Appends :
    (w : BufferWriter) (first rest : List ℕ) (result : Option BufferWriter)
    (next : BufferWriter → Option BufferWriter)
    → IsSound w
    → Appends w first result
    → ((v : BufferWriter) → IsSound v → Appends v rest (next v))
    → Appends w (first ++ rest) (result >>= next)
then-Appends w first rest result next s a step =
    let b = step a.after (omega (arith, a.size_kept, a.length_kept)) in
    let both =
      both-Grows w first rest a.after b.after (grown w first result a)
        (grown a.after rest (next a.after) b) in
    record {
      after = b.after;
      returns = rw a.returns b.returns;
      size_kept = both.size_kept;
      length_kept = both.length_kept;
      moved = both.moved;
      appended = both.appended;
    }

pub nothing-Grows : (w : BufferWriter) → Grows w [] w
nothing-Grows w = record {
  size_kept = refl;
  length_kept = refl;
  moved = omega arith;
  appended = λ _. sym (append-nil (written w));
}

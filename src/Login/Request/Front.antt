-- ===== src/Login/Request/Front.antt =====
-- The part of a login request that is not encrypted, in src/login/login_handler.cpp.
use tibia_login_orig.Base.{
  ℕ, suc, ◌+◌, ◌≤◌, ◌≡◌, refl, sym, ap, ◌∙◌, some, List, [], ◌∷◌, ◌++◌, length, length-take,
  length-drop, take, drop, take-append-drop, drop-drop, replicate, length-replicate, overwrite,
  store_fits, load_fits, le→leb, pos, add_int_pos, false, not, zero, append-nil, arith,
}
use tibia_login_orig.ByteOrder.{read_u16_le, read_u32_le, read_1, read_2, read_4}
use tibia_login_orig.Reader.{
  BufferReader, read_u8, read_u16, read_u32, read_bytes, get, load_at, overflowed,
}
use tibia_login_orig.Reader.Laws.{Left, Left-at, Reads, get-Reads}
use tibia_login_orig.Login.Request.{read_front}

-- A read of whatever is there: from `k` on in a request, up to `m`.
any-Reads :
    (n k m : ℕ) (word : List ℕ → ℕ) (request : List ℕ) (r : BufferReader)
    → k + suc n ≡ m
    → m ≤ length request
    → Left r (drop k request)
    → Reads (word (take (suc n) (drop k request))) (drop m request) (get (suc n) word r)
any-Reads n k m word request r e enough l =
    let text : List ℕ = drop k request in
    let whole : take (suc n) text ++ drop m request ≡ text =
      ap (λ t. take (suc n) text ++ t) (sym (drop-drop k (suc n) request e))
      ∙ take-append-drop (suc n) text in
    get-Reads n word (take (suc n) text) (drop m request) r
      (omega (arith, length-take (suc n) text, length-drop k request)) (rw whole l)

module _ (k m : ℕ) (request : List ℕ) (r : BufferReader) (enough : m ≤ length request)
    (l : Left r (drop k request)) where
  any_u8 : k + 1 ≡ m → Reads (read_1 (take 1 (drop k request))) (drop m request) (read_u8 r)
  unfolding read_u8
  any_u8 e = any-Reads 0 k m read_1 request r e enough l

  any_u16 :
      k + 2 ≡ m → Reads (read_2 read_u16_le (take 2 (drop k request))) (drop m request) (read_u16 r)
  unfolding read_u16
  any_u16 e = any-Reads 1 k m (read_2 read_u16_le) request r e enough l

  any_u32 :
      k + 4 ≡ m → Reads (read_4 read_u32_le (take 4 (drop k request))) (drop m request) (read_u32 r)
  unfolding read_u32
  any_u32 e = any-Reads 3 k m (read_4 read_u32_le) request r e enough l

-- The bytes that are left fill the array that is read into.
read_bytes_lem :
    (n : ℕ) (text : List ℕ) (r : BufferReader)
    → length text ≡ suc n
    → Left r text
    → (r' : BufferReader) × (read_bytes (replicate (suc n) 0) (suc n) r ≡ some (text, r'))
      × (overflowed r' ≡ false)
unfolding read_bytes load_at
read_bytes_lem n text r e l =
    let (inside, same) = Left-at text [] r (rw (append-nil text) l) in
    let size : length (replicate (suc n) (zero)) ≡ suc n = length-replicate (suc n) 0 in
    let stop : l.start + suc n ≤ r.size = omega (arith, inside, e) in
    let loaded : take (suc n) (drop l.start r.buffer) ≡ text =
      ap (λ k. take k (drop l.start r.buffer)) (sym e) ∙ same in
    let put : overwrite (replicate (suc n) 0) 0 text ≡ text =
      ap (λ t. text ++ t)
        (drop_all (0 + length text) (replicate (suc n) 0) (omega (arith, size, e)))
      ∙ append-nil text in
    (
      record r { position = pos (l.start + suc n) },
      rw
          (
            l.positioned,
            add_int_pos l.start (suc n) (omega (arith, l.bounded)),
            le→leb (l.start + suc n + 0) (r.size + 0) (omega arith),
            load_fits r.buffer l.start (suc n) (omega (arith, l.fits)),
            loaded,
            store_fits (replicate (suc n) 0) 0 text (omega (arith, e, size)),
            put,
          )
          refl,
      ap not (le→leb (l.start + suc n + 0) (r.size + 0) (omega arith)),
    )
  where
    drop_all : (k : ℕ) (xs : List ℕ) → length xs ≤ k → drop k xs ≡ []
    drop_all zero [] h = refl
    drop_all zero (x ∷ xs) h = absurd (omega arith)
    drop_all (suc k) [] h = refl
    drop_all (suc k) (x ∷ xs) h = drop_all k xs (omega arith)

-- The version of the terminal in a request.
abbrev pub version_of : List ℕ → ℕ
version_of request = read_2 read_u16_le (take 2 (drop 3 request))

-- Of 145 bytes the front is read whole: the version, and the last 128 as the asymmetric data.
pub read_front_lem :
    (request : List ℕ) (r : BufferReader)
    → length request ≡ 145
    → Left r request
    → read_front r ≡ some (version_of request, drop 17 request, false)
unfolding read_front
read_front_lem request r e l =
    let a = any_u8 0 1 request r (omega (arith, e)) l refl in
    let b = any_u16 1 3 request a.after (omega (arith, e)) a.leaves refl in
    let c = any_u16 3 5 request b.after (omega (arith, e)) b.leaves refl in
    let d = any_u32 5 9 request c.after (omega (arith, e)) c.leaves refl in
    let f = any_u32 9 13 request d.after (omega (arith, e)) d.leaves refl in
    let g = any_u32 13 17 request f.after (omega (arith, e)) f.leaves refl in
    let (last, read, fine) =
      read_bytes_lem 127 (drop 17 request) g.after (omega (arith, e, length-drop 17 request))
        g.leaves in
    rw (a.returns, b.returns, c.returns, d.returns, f.returns, g.returns, read, fine) refl

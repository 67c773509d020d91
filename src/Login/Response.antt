-- ===== src/Login/Response.antt =====
-- What a client makes of a response of src/login/login_handler.cpp: it decrypts to what was written.
use tibia_login_orig.Base.{
  ℕ, zero, suc, ◌+◌, ◌-◌, ◌%◌, ◌^◌, ◌≤◌, ◌<◌, ◌≡◌, refl, sym, ap, ap₂, ◌∙◌, ◌⊎◌, inl, inr, true,
  false, Option, some, List, [], ◌∷◌, ◌++◌, append_assoc, length, take, drop, length-append,
  drop-drop, IsByte, drop-append, take-append, All-append, AreBytes, Bool-cases, le→ltb, ◌==◌,
  overwrite, store_fits, load_fits, take-overwrite, length-overwrite, ◌>>=◌, u16, arith,
}
use tibia_login_orig.Base.Slices.{drop-take, take-take}
use tibia_login_orig.ByteOrder
use tibia_login_orig.Connection.{Connection, ConnectionState}
use tibia_login_orig.Connection.Life.{is_processing}
use tibia_login_orig.Writer.{BufferWriter, buffer_writer, write_u8, overflowed}
use tibia_login_orig.Writer.Laws.{
  IsSound, Appends, written, Grows, grown, both-Grows, nothing-Grows,
}
use tibia_login_orig.Writer.Texts.{write_u8-Appends, write_u16-Appends}
use tibia_login_orig.Writer.Patches.{rewrite_u16_lem}
use tibia_login_orig.Xtea.{xtea_encrypt, xtea_decrypt}
use tibia_login_orig.Xtea.Laws.{xtea_inverse, length-xtea_encrypt}
use tibia_login_orig.Login.{
  pad, encrypt_response, finish_response, send_xtea_response, prepare_xtea_response, respond,
}

-- A padding to a multiple of eight bytes.
pub record Pads (w : BufferWriter) (size fuel : ℕ) (result : Option (ℕ × BufferWriter))
    : Type 0 where
  pub padding : List ℕ
  pub seed : ℕ
  pub after : BufferWriter
  pub returns : result ≡ some (seed, after)
  pub few : length padding ≤ fuel
  pub whole : (size + length padding) % 8 ≡ 0
  pub are_bytes : AreBytes padding
  pub grows : Grows w padding after

-- A byte in front of the rest of the padding.
pad_more :
    (w : BufferWriter) (size fuel b : ℕ) (a : Appends w (ByteOrder.write_u8 b) (write_u8 b w))
    (next : BufferWriter → Option (ℕ × BufferWriter))
    → Pads a.after (size + 1) fuel (next a.after)
    → Pads w size (suc fuel) (write_u8 b w >>= next)
unfolding ByteOrder.write_u8
pad_more w size fuel b a next p = record {
  padding = b % 256 ∷ p.padding;
  seed = p.seed;
  after = p.after;
  returns = rw a.returns p.returns;
  few = omega (arith, p.few);
  whole = omega (arith, p.whole);
  are_bytes = (omega arith, p.are_bytes);
  grows =
      both-Grows w (b % 256 ∷ []) p.padding a.after p.after
        (grown w (b % 256 ∷ []) (write_u8 b w) a) p.grows;
}

no_padding :
    (size fuel seed : ℕ) (w : BufferWriter)
    → (size % 8 == 0) ≡ true
    → Pads w size fuel (some (seed, w))
no_padding size fuel seed w done = record {
  padding = [];
  seed = seed;
  after = w;
  returns = refl;
  few = omega arith;
  whole = ground arith;
  are_bytes = tt;
  grows = nothing-Grows w;
}

module _ (rand_r : ℕ → ℕ × ℕ) where
  pub pad-Pads :
      (fuel size seed : ℕ) (w : BufferWriter)
      → IsSound w
      → (size % 8 ≡ 0) ⊎ (8 ≤ size % 8 + fuel)
      → Pads w size fuel (pad rand_r (suc fuel) size seed w)
  unfolding pad
  pad-Pads zero size seed w s enough = elim (Bool-cases (size % 8 == 0)) [
    | inl done ↦ rw done (no_padding size 0 seed w done)
    | inr more ↦ absurd (ground arith)
  ]
  pad-Pads (suc fuel) size seed w s enough = elim (Bool-cases (size % 8 == 0)) [
    | inl done ↦ rw done (no_padding size (suc fuel) seed w done)
    | inr more ↦
        let a = write_u8-Appends (rand_r seed).0 w s in
        let left : ((size + 1) % 8 ≡ 0) ⊎ (8 ≤ (size + 1) % 8 + fuel) = ground arith in
        rw more (
          pad_more w size fuel (rand_r seed).0 a (pad rand_r (suc fuel) (size + 1) (rand_r seed).1)
            (pad-Pads fuel (size + 1) (rand_r seed).1 a.after
              (omega (arith, a.size_kept, a.length_kept)) left))
  ]

-- Where a size stood open, and then the size of the data behind it.
headed :
    (whole size : ℕ) (zeros rest : List ℕ)
    → length zeros ≡ 4
    → overwrite
        (overwrite (zeros ++ rest) 0 (ByteOrder.write_u16_le whole))
        2
        (ByteOrder.write_u16_le size)
      ≡ ByteOrder.write_u16_le whole ++ (ByteOrder.write_u16_le size ++ rest)
unfolding ByteOrder.write_u16_le
headed whole size zeros rest e =
    ap (λ t. ByteOrder.write_u16_le whole ++ (ByteOrder.write_u16_le size ++ t))
      (drop-drop 2 2 {m = 4} (zeros ++ rest) (omega arith) ∙ drop-append 4 zeros rest e)

-- A connection that has `bytes` to be written out.
pub record IsWriting (c : Connection) (bytes : List ℕ) : Type 0 where
  pub in_state : c.state ≡ ConnectionState.writing
  pub at_start : c.rw_position ≡ 0
  pub fits : c.rw_size ≤ 2048
  pub whole : length c.buffer ≡ 2048
  pub holds : take c.rw_size c.buffer ≡ bytes

-- The encryption in place of all but the first two bytes.
encrypt_response_lem :
    (key : List ℕ) (w : BufferWriter) (front plain : List ℕ)
    → length front ≡ 2
    → w.position ≤ length w.buffer
    → written w ≡ front ++ plain
    → w.position ≡ 2 + length plain
    → (buffer : List ℕ) × (encrypt_response key w ≡ some (record w { buffer = buffer }))
      × (length buffer ≡ length w.buffer)
      × (take w.position buffer ≡ front ++ xtea_encrypt key plain)
unfolding encrypt_response
encrypt_response_lem key w front plain e fits content size =
    let loaded : take (w.position - 2) (drop 2 w.buffer) ≡ plain =
      sym (drop-take 2 w.position w.buffer) ∙ ap (drop 2) content ∙ drop-append 2 front plain e in
    let same : length (xtea_encrypt key plain) ≡ length plain = length-xtea_encrypt key plain in
    let room : 2 + length (xtea_encrypt key plain) ≤ length w.buffer = omega (arith, same) in
    (
      overwrite w.buffer 2 (xtea_encrypt key plain),
      rw
          (
            load_fits w.buffer 2 (w.position - 2) (omega arith),
            loaded,
            store_fits w.buffer 2 (xtea_encrypt key plain) room,
          )
          refl,
      length-overwrite w.buffer 2 (xtea_encrypt key plain) room,
      take-overwrite w.buffer 2 (xtea_encrypt key plain) (omega (arith, same)) fits
          ∙ ap (λ t. t ++ xtea_encrypt key plain)
              (sym (take-take 2 w.position w.buffer (omega arith))
                ∙ ap (take 2) content
                ∙ take-append 2 front plain e),
    )

finish_response_lem :
    (c : Connection) (w : BufferWriter) (zeros rest : List ℕ) (data_size : ℕ)
    → w.size ≡ 2048
    → length w.buffer ≡ 2048
    → length zeros ≡ 4
    → w.position ≤ 2048
    → w.position ≡ 4 + length rest
    → data_size < 2 ^ 16
    → written w ≡ zeros ++ rest
    → (c' : Connection) × (finish_response data_size c w ≡ some c')
      × IsWriting c' (
          ByteOrder.write_u16_le (w.position - 2)
          ++ xtea_encrypt c.xtea (ByteOrder.write_u16_le data_size ++ rest))
unfolding finish_response
finish_response_lem c w zeros rest data_size size whole four fits position small content =
    let n : u16 (w.position - 2) ≡ w.position - 2 = omega arith in
    let m : u16 data_size ≡ data_size = omega arith in
    let (w1, r1, c1, p1, s1, l1) =
      rewrite_u16_lem 0 (u16 (w.position - 2)) w (omega arith) (omega arith) (omega arith) in
    let (w2, r2, c2, p2, s2, l2) =
      rewrite_u16_lem 2 (u16 data_size) w1 (omega (arith, s1, l1)) (omega (arith, p1, s1))
        (omega (arith, p1)) in
    let plain : List ℕ = ByteOrder.write_u16_le data_size ++ rest in
    let content2 : written w2 ≡ ByteOrder.write_u16_le (w.position - 2) ++ plain =
      c2
      ∙ ap (λ t. overwrite t 2 (ByteOrder.write_u16_le (u16 data_size))) c1
      ∙ ap
          (λ t.
            overwrite (overwrite t 0 (ByteOrder.write_u16_le (u16 (w.position - 2)))) 2
              (ByteOrder.write_u16_le (u16 data_size)))
          content
      ∙ headed (u16 (w.position - 2)) (u16 data_size) zeros rest four
      ∙ ap₂ (λ a b. ByteOrder.write_u16_le a ++ (ByteOrder.write_u16_le b ++ rest)) n m in
    let (buffer, done, same, front) =
      encrypt_response_lem c.xtea w2 (ByteOrder.write_u16_le (w.position - 2)) plain
        (unfold ByteOrder.write_u16_le in refl) (omega (arith, p1, p2, l1, l2)) content2
        (unfold ByteOrder.write_u16_le in omega (arith, p1, p2)) in
    (
      record c {
        buffer = buffer;
        state = ConnectionState.writing;
        rw_size = w2.position;
        rw_position = 0;
      },
      rw (r1, r2, done) refl,
      record {
        in_state = refl;
        at_start = refl;
        fits = omega (arith, p1, p2);
        whole = omega (arith, same, l1, l2);
        holds = front;
      },
    )

-- Both sizes are left open in front of what follows.
abbrev pub zeros : List ℕ
zeros = ByteOrder.write_u16_le 0 ++ ByteOrder.write_u16_le 0

pub prepare_lem :
    (c : Connection)
    → length c.buffer ≡ 2048
    → c.state ≡ ConnectionState.processing
    → (w : BufferWriter) × (prepare_xtea_response c ≡ some (c, w))
      × Grows (buffer_writer c.buffer 2048) zeros w
unfolding prepare_xtea_response
prepare_lem c whole state =
    let start = buffer_writer c.buffer 2048 in
    let a = write_u16-Appends 0 start (omega (arith, whole)) in
    let b = write_u16-Appends 0 a.after (omega (arith, whole, a.size_kept, a.length_kept)) in
    (
      b.after,
      rw (ap is_processing state, a.returns, b.returns) refl,
      both-Grows start (ByteOrder.write_u16_le 0) (ByteOrder.write_u16_le 0) a.after b.after
          (grown start _ _ a) (grown a.after _ _ b),
    )

-- What `c` writes out after a response: its size, and `payload` behind its size and in front of a
-- padding, encrypted.
pub record IsResponse (key payload : List ℕ) (c : Connection) : Type 0 where
  pub cipher : List ℕ
  pub padding : List ℕ
  pub writes : IsWriting c (ByteOrder.write_u16_le (length cipher) ++ cipher)
  pub blocks : length cipher % 8 ≡ 0
  pub little : length cipher < length payload + 10
  pub decrypts :
      xtea_decrypt key cipher ≡ ByteOrder.write_u16_le (length payload) ++ (payload ++ padding)

encrypted :
    (key payload padding : List ℕ) (c : Connection) (size whole : ℕ)
    → size ≡ length payload
    → whole ≡ 2 + (length payload + length padding)
    → whole % 8 ≡ 0
    → length padding ≤ 7
    → AreBytes payload
    → AreBytes padding
    → IsWriting c (
        ByteOrder.write_u16_le whole
        ++ xtea_encrypt key (ByteOrder.write_u16_le size ++ (payload ++ padding)))
    → IsResponse key payload c
encrypted key payload padding c size whole e n blocks few b b' writes =
    let plain : List ℕ = ByteOrder.write_u16_le size ++ (payload ++ padding) in
    let same : length (xtea_encrypt key plain) ≡ length plain = length-xtea_encrypt key plain in
    let count : length plain ≡ whole =
      unfold ByteOrder.write_u16_le in omega (arith, n, length-append payload padding) in
    let header : AreBytes (ByteOrder.write_u16_le size) =
      unfold ByteOrder.write_u16_le in (omega arith, (omega arith, tt)) in
    let bytes : AreBytes plain =
      All-append IsByte (ByteOrder.write_u16_le size) (payload ++ padding) header
        (All-append IsByte payload padding b b') in
    record {
      cipher = xtea_encrypt key plain;
      padding = padding;
      writes = rw (same ∙ count) writes;
      blocks = ap (λ t. t % 8) (same ∙ count) ∙ blocks;
      little = omega (arith, same, count, n, few);
      decrypts =
          (xtea_inverse key plain bytes).0
          ∙ ap (λ t. ByteOrder.write_u16_le t ++ (payload ++ padding)) e;
    }

sends :
    (rand_r : ℕ → ℕ × ℕ) (c c' : Connection) (w : BufferWriter) (seed : ℕ) (after : BufferWriter)
    → c.state ≡ ConnectionState.processing
    → pad rand_r 8 (w.position - 2) c.random_seed w ≡ some (seed, after)
    → overflowed after ≡ false
    → finish_response (w.position - 4) (record c { random_seed = seed }) after ≡ some c'
    → send_xtea_response rand_r c w ≡ some c'
unfolding send_xtea_response
sends rand_r c c' w seed after state padded room done =
    rw (ap is_processing state, padded, room) done

-- The end of a response whose body has been written.
finish_padded :
    (rand_r : ℕ → ℕ × ℕ) (c : Connection) (payload : List ℕ) (w : BufferWriter)
    → Grows (buffer_writer c.buffer 2048) (zeros ++ payload) w
    → length c.buffer ≡ 2048
    → c.state ≡ ConnectionState.processing
    → length payload ≤ 2038
    → AreBytes payload
    → (c' : Connection) × (send_xtea_response rand_r c w ≡ some c') × IsResponse c.xtea payload c'
finish_padded rand_r c payload w a whole state short b =
    let z : length zeros ≡ 4 = unfold ByteOrder.write_u16_le in refl in
    let p : w.position ≡ 4 + length payload =
      omega (arith, a.moved, length-append zeros payload, z) in
    let s : IsSound w = omega (arith, a.size_kept, a.length_kept, whole) in
    let d = pad-Pads rand_r 7 (w.position - 2) c.random_seed w s (omega arith) in
    let g = d.grows in
    let rest : List ℕ = payload ++ d.padding in
    let size : length rest ≡ length payload + length d.padding = length-append payload d.padding in
    let position : d.after.position ≡ 4 + length rest = omega (arith, g.moved, p, size) in
    let fits : d.after.position ≤ 2048 = omega (arith, position, size, d.few, d.whole, p, short) in
    let content : written d.after ≡ zeros ++ rest =
      (both-Grows (buffer_writer c.buffer 2048) (zeros ++ payload) d.padding w d.after a g).appended
        (omega (arith, fits, g.size_kept, a.size_kept))
      ∙ append_assoc zeros payload d.padding in
    let (c', done, writes) =
      finish_response_lem (record c { random_seed = d.seed }) d.after zeros rest (w.position - 4)
        (omega (arith, g.size_kept, a.size_kept))
        (omega (arith, g.length_kept, a.length_kept, whole)) z fits position
        (omega (arith, p, short)) content in
    let room : overflowed d.after ≡ false =
      le→ltb d.after.size d.after.position (omega (arith, fits, g.size_kept, a.size_kept)) in
    (
      c',
      sends rand_r c c' w d.seed d.after state d.returns room done,
      encrypted c.xtea payload d.padding c' (w.position - 4) (d.after.position - 2)
          (omega (arith, p)) (omega (arith, position, size))
          (omega (arith, d.whole, position, size, p)) d.few b d.are_bytes writes,
    )

-- Every response: a body that appends the bytes `payload` is sent if there are at most 2038 of them.
pub respond_lem :
    (rand_r : ℕ → ℕ × ℕ) (body : BufferWriter → Option BufferWriter) (payload : List ℕ)
    (c : Connection)
    → ((w : BufferWriter) → IsSound w → Appends w payload (body w))
    → length c.buffer ≡ 2048
    → c.state ≡ ConnectionState.processing
    → length payload ≤ 2038
    → AreBytes payload
    → (c' : Connection) × (respond rand_r body c ≡ some c') × IsResponse c.xtea payload c'
unfolding respond
respond_lem rand_r body payload c appends whole state short b =
    let start = buffer_writer c.buffer 2048 in
    let (w, prepared, g) = prepare_lem c whole state in
    let a = appends w (omega (arith, g.size_kept, g.length_kept, whole)) in
    let (c', done, response) =
      finish_padded rand_r c payload a.after
        (both-Grows start zeros payload w a.after g (grown w payload (body w) a)) whole state short
        b in
    (c', rw (prepared, a.returns) done, response)

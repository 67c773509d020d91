-- ===== src/Query/Exact.antt =====
-- `WriteExact` and `ReadExact` of src/query/query_client.cpp against a network that delivers bytes in
-- order, in pieces of any size.
use tibia_login_orig.Base.{
  ℕ, zero, suc, ◌+◌, ◌-◌, ◌≤◌, ◌<◌, ◌≡◌, refl, sym, ap, ◌∙◌, ◌⊎◌, inl, inr, none, Bool, true, false,
  Option, some, List, [], ◌∷◌, ◌++◌, append_assoc, append-nil, length, take, drop, length-append,
  length-take, length-drop, take-append-drop, drop-append, drop-drop, overwrite, length-overwrite,
  store_fits, Option-cases, arith,
}
use tibia_login_orig.Base.Slices.{overwrite-overwrite, take-append_past}
use tibia_login_orig.Query.{Network, write_exact, read_exact}

-- What the calls of a network promise. `incoming` is what a socket still has to deliver, and
-- `outgoing` what was written to it.
pub record InOrder {S : Type 0} (net : Network S) : Type 0 where
  pub incoming : ℕ → S → List ℕ
  pub outgoing : ℕ → S → List ℕ
  pub read_gives :
      (fd count : ℕ) (s : S) (bytes : List ℕ)
      → (net.read fd count s).0 ≡ some bytes
      → (length bytes ≤ count) × (incoming fd s ≡ bytes ++ incoming fd (net.read fd count s).1)
  pub write_takes :
      (fd : ℕ) (bytes : List ℕ) (s : S) (n : ℕ)
      → 0 < length bytes
      → (net.write fd bytes s).0 ≡ some n
      → (0 < n) × (outgoing fd (net.write fd bytes s).1 ≡ outgoing fd s ++ take n bytes)

nothing_there : (buffer : List ℕ) (at : ℕ) → buffer ≡ overwrite buffer at []
nothing_there buffer at =
    sym (ap (λ (k : ℕ). take at buffer ++ drop k buffer) (omega arith) ∙ take-append-drop at buffer)

module _ {S : Type 0} (net : Network S) (io : InOrder net) where
  open io use {incoming, outgoing, read_gives, write_takes}

  -- The read of what is missing behind `front` has failed, or has found the end.
  pub record IsCut (fd : ℕ) (buffer : List ℕ) (at size : ℕ) (s : S) (buffer' : List ℕ) (s' : S)
      : Type 0 where
    pub front : List ℕ
    pub before : S
    pub missing : ℕ
    pub some_missing : 0 < missing
    pub counted : length front + missing ≡ size
    pub taken : incoming fd s ≡ front ++ incoming fd before
    pub filled : buffer' ≡ overwrite buffer at front
    pub ended : ((net.read fd missing before).0 ≡ none) ⊎ ((net.read fd missing before).0 ≡ some [])
    pub final : s' ≡ (net.read fd missing before).1

  -- A call of `read_exact` fills the array with the next bytes of the socket, or it is cut short.
  pub data Fills (fd : ℕ) (buffer : List ℕ) (at size : ℕ) (s : S)
      (result : Option (Bool × List ℕ × S)) : Type 0 where
    whole :
        (s' : S)
        → result ≡ some (true, overwrite buffer at (take size (incoming fd s)), s')
        → size ≤ length (incoming fd s)
        → incoming fd s' ≡ drop size (incoming fd s)
        → Fills fd buffer at size s result
    cut_short :
        (buffer' : List ℕ) (s' : S)
        → result ≡ some (false, buffer', s')
        → length buffer' ≡ length buffer
        → IsCut fd buffer at size s buffer' s'
        → Fills fd buffer at size s result

  -- A piece in front of what the rest of the loop reads.
  piece_then :
      (fuel fd : ℕ) (buffer : List ℕ) (at n : ℕ) (s : S) (b : ℕ) (bs : List ℕ)
      → (net.read fd (suc n) s).0 ≡ some (b ∷ bs)
      → at + suc n ≤ length buffer
      → Fills fd
          (overwrite buffer at (b ∷ bs))
          (at + length (b ∷ bs))
          (suc n - length (b ∷ bs))
          (net.read fd (suc n) s).1
          (read_exact net fuel fd
            (overwrite buffer at (b ∷ bs))
            (at + length (b ∷ bs))
            (suc n - length (b ∷ bs))
            (net.read fd (suc n) s).1)
      → Fills fd buffer at (suc n) s (read_exact net (suc fuel) fd buffer at (suc n) s)
  unfolding read_exact
  piece_then fuel fd buffer at n s b bs given room (whole s' run enough left) =
      let (few, delivered) = read_gives fd (suc n) s (b ∷ bs) given in
      let later = incoming fd (net.read fd (suc n) s).1 in
      let content : overwrite (overwrite buffer at (b ∷ bs)) (at + length (b ∷ bs))
            (take (suc n - length (b ∷ bs)) later)
          ≡ overwrite buffer at (take (suc n) (incoming fd s)) =
        overwrite-overwrite buffer at (b ∷ bs) (take (suc n - length (b ∷ bs)) later) refl
          (omega (arith, length-take (suc n - length (b ∷ bs)) later))
        ∙ ap (overwrite buffer at)
            (sym (ap (take (suc n)) delivered ∙ take-append_past (suc n) (b ∷ bs) later few)) in
      whole s'
        (rw (read_exact, given, store_fits buffer at (b ∷ bs) (omega arith)) run
          ∙ ap (λ t. some (true, t, s')) content)
        (omega (arith, ap length delivered, length-append (b ∷ bs) later))
        (left
          ∙ ap (drop (suc n - length (b ∷ bs)))
              (sym (drop-append (length (b ∷ bs)) (b ∷ bs) later refl))
          ∙ drop-drop (length (b ∷ bs)) (suc n - length (b ∷ bs)) {m = suc n} ((b ∷ bs) ++ later)
              (omega arith)
          ∙ ap (drop (suc n)) (sym delivered))
  piece_then fuel fd buffer at n s b bs given room (cut_short buffer' s' run same c) =
      let (few, delivered) = read_gives fd (suc n) s (b ∷ bs) given in
      cut_short buffer' s' (rw (read_exact, given, store_fits buffer at (b ∷ bs) (omega arith)) run)
        (same ∙ length-overwrite buffer at (b ∷ bs) (omega arith))
        (record {
          front = (b ∷ bs) ++ c.front;
          before = c.before;
          missing = c.missing;
          some_missing = c.some_missing;
          counted = omega (arith, c.counted, length-append (b ∷ bs) c.front, few);
          taken =
              delivered
              ∙ ap (λ t. (b ∷ bs) ++ t) c.taken
              ∙ sym (append_assoc (b ∷ bs) c.front (incoming fd c.before));
          filled =
              c.filled
              ∙ overwrite-overwrite buffer at (b ∷ bs) c.front refl
                  (omega (arith, c.counted, room));
          ended = c.ended;
          final = c.final;
        })

  -- `read_exact` into an array with room, whatever the pieces that come: it ends, and it has filled the
  -- place with the next bytes of the socket and taken no more, or a read for the bytes that are missing
  -- has failed or found the end, those in front being in their place.
  pub read_exact-Fills :
      (fuel fd : ℕ) (buffer : List ℕ) (at size : ℕ) (s : S)
      → size ≤ fuel
      → at + size ≤ length buffer
      → Fills fd buffer at size s (read_exact net fuel fd buffer at size s)
  unfolding read_exact
  read_exact-Fills fuel fd buffer at zero s enough room =
      whole s (ap (λ t. some (true, t, s)) (nothing_there buffer at)) (omega arith) refl
  read_exact-Fills zero fd buffer at (suc n) s enough room = absurd (omega arith)
  read_exact-Fills (suc fuel) fd buffer at (suc n) s enough room =
      elim (Option-cases (net.read fd (suc n) s).0) [
        | inl refused ↦
            cut_short buffer (net.read fd (suc n) s).1 (rw (read_exact, refused)) refl (record {
              front = [];
              before = s;
              missing = suc n;
              some_missing = omega arith;
              counted = omega arith;
              taken = refl;
              filled = nothing_there buffer at;
              ended = inl refused;
              final = refl;
            })
        | inr ([], ended) ↦
            cut_short buffer (net.read fd (suc n) s).1 (rw (read_exact, ended)) refl (record {
              front = [];
              before = s;
              missing = suc n;
              some_missing = omega arith;
              counted = omega arith;
              taken = refl;
              filled = nothing_there buffer at;
              ended = inr ended;
              final = refl;
            })
        | inr (b ∷ bs, given) ↦
            let (few, delivered) = read_gives fd (suc n) s (b ∷ bs) given in
            piece_then fuel fd buffer at n s b bs given room (
              read_exact-Fills fuel fd (overwrite buffer at (b ∷ bs)) (at + length (b ∷ bs))
                (suc n - length (b ∷ bs)) (net.read fd (suc n) s).1 (omega arith)
                (omega (arith, length-overwrite buffer at (b ∷ bs) (omega arith))))
      ]

  -- The write of what is left behind `front` has failed.
  pub record IsBroken (fd : ℕ) (bytes : List ℕ) (s s' : S) : Type 0 where
    pub front : List ℕ
    pub rest : List ℕ
    pub before : S
    pub split : bytes ≡ front ++ rest
    pub left : 0 < length rest
    pub taken : outgoing fd before ≡ outgoing fd s ++ front
    pub failed : (net.write fd rest before).0 ≡ none
    pub final : s' ≡ (net.write fd rest before).1

  -- A call of `write_exact` delivers its bytes behind what was written, or fails.
  pub data Delivers (fd : ℕ) (bytes : List ℕ) (s : S) (result : Option (Bool × S)) : Type 0 where
    all_sent :
        (s' : S)
        → result ≡ some (true, s')
        → outgoing fd s' ≡ outgoing fd s ++ bytes
        → Delivers fd bytes s result
    broken :
        (s' : S) → result ≡ some (false, s') → IsBroken fd bytes s s' → Delivers fd bytes s result

  piece_sent :
      (fuel fd b n : ℕ) (bs : List ℕ) (s : S)
      → (net.write fd (b ∷ bs) s).0 ≡ some n
      → Delivers fd
          (drop n (b ∷ bs))
          (net.write fd (b ∷ bs) s).1
          (write_exact net fuel fd (drop n (b ∷ bs)) (net.write fd (b ∷ bs) s).1)
      → Delivers fd (b ∷ bs) s (write_exact net (suc fuel) fd (b ∷ bs) s)
  unfolding write_exact
  piece_sent fuel fd b n bs s given (broken s' run c) =
      let (some_taken, taken) = write_takes fd (b ∷ bs) s n (omega arith) given in
      broken s' (rw (write_exact, given) run) (record {
        front = take n (b ∷ bs) ++ c.front;
        rest = c.rest;
        before = c.before;
        split =
            sym (take-append-drop n (b ∷ bs))
            ∙ ap (λ t. take n (b ∷ bs) ++ t) c.split
            ∙ sym (append_assoc (take n (b ∷ bs)) c.front c.rest);
        left = c.left;
        taken =
            c.taken
            ∙ ap (λ t. t ++ c.front) taken
            ∙ append_assoc (outgoing fd s) (take n (b ∷ bs)) c.front;
        failed = c.failed;
        final = c.final;
      })
  piece_sent fuel fd b n bs s given (all_sent s' run delivered) =
      let (some_taken, taken) = write_takes fd (b ∷ bs) s n (omega arith) given in
      all_sent s' (rw (write_exact, given) run) (
        delivered
        ∙ ap (λ t. t ++ drop n (b ∷ bs)) taken
        ∙ append_assoc (outgoing fd s) (take n (b ∷ bs)) (drop n (b ∷ bs))
        ∙ ap (λ t. outgoing fd s ++ t) (take-append-drop n (b ∷ bs)))

  -- `write_exact`, whatever the pieces that go out: it ends, and all its bytes were written in their
  -- order, or a write of those that are left has failed, those in front being written.
  pub write_exact-Delivers :
      (fuel fd : ℕ) (bytes : List ℕ) (s : S)
      → length bytes ≤ fuel
      → Delivers fd bytes s (write_exact net fuel fd bytes s)
  unfolding write_exact
  write_exact-Delivers fuel fd [] s enough = all_sent s refl (sym (append-nil (outgoing fd s)))
  write_exact-Delivers zero fd (b ∷ bs) s enough = absurd (omega arith)
  write_exact-Delivers (suc fuel) fd (b ∷ bs) s enough =
      elim (Option-cases (net.write fd (b ∷ bs) s).0) [
        | inl refused ↦ broken (net.write fd (b ∷ bs) s).1 (rw (write_exact, refused)) (record {
          front = [];
          rest = b ∷ bs;
          before = s;
          split = refl;
          left = omega arith;
          taken = sym (append-nil (outgoing fd s));
          failed = refused;
          final = refl;
        })
        | inr (n, given) ↦
            let (some_taken, taken) = write_takes fd (b ∷ bs) s n (omega arith) given in
            piece_sent fuel fd b n bs s given (
              write_exact-Delivers fuel fd (drop n (b ∷ bs)) (net.write fd (b ∷ bs) s).1
                (omega (arith, length-drop n (b ∷ bs))))
      ]

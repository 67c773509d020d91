-- ===== src/Query/Client/Laws.antt =====
-- A query ends: the attempts of src/query/query_client.cpp stay inside their buffers, and an answer that
-- has not failed comes with the payload of a response left to read.
use tibia_login_orig.Base.{
  false, Option-cases, ℕ, zero, suc, ◌+◌, ◌^◌, ◌≤◌, ◌<◌, ◌≡◌, refl, ◌⊎◌, inl, inr, true, Option,
  some, List, [], ◌∷◌, length, take, replicate, length-take, leb, leb→le, le→leb, lt→leb, ◌==◌,
  overwrite, length-overwrite, Bool-cases, ◌>>=◌, ℤ, pos, negsuc, arith,
}
use tibia_login_orig.ByteOrder
use tibia_login_orig.Reader.{buffer_reader, read_u8}
use tibia_login_orig.Reader.Laws.{Left, Reads, get-Reads}
use tibia_login_orig.Query.{
  failed, query_status, Network, QueryClient, is_connected, Answer, query_failed, read_exact,
  disconnect,
}
use tibia_login_orig.Query.Exact.{InOrder, Fills, whole, cut_short, read_exact-Fills}
use tibia_login_orig.Query.Client.{
  Attempt, finished, retry, give_up, try_again, read_payload, read_extended, read_response,
  short_size, extended_size,
}

-- An answer of a query whose buffer has `size` bytes.
abbrev pub IsFine : ℕ → Answer → Type 0
IsFine size answer =
    (answer.status ≡ failed)
    ⊎ ((rest : List ℕ) × Left answer.reader rest
        × (length rest < size)
        × (is_connected answer.client ≡ true))

abbrev pub Progresses : ℕ → Attempt → Type 0
Progresses size (finished answer) = IsFine size answer
Progresses size (retry client) = is_connected client ≡ false

-- The status in front of a payload.
first_byte :
    (b n : ℕ) (bs : List ℕ)
    → suc n ≤ length (b ∷ bs)
    → suc n < 2 ^ 31
    → Reads b (take n bs) (read_u8 (buffer_reader (b ∷ bs) (suc n)))
unfolding read_u8
first_byte b n bs h small =
    get-Reads 0 ByteOrder.read_1 (b ∷ []) (take n bs) (buffer_reader (b ∷ bs) (suc n)) refl
      (record {
        start = 0;
        positioned = refl;
        inside = omega arith;
        fits = h;
        bounded = small;
        is_left = refl;
      })

module _ {S : Type 0} (net : Network S) where
  -- `result` is defined, and `P` holds of it.
  abbrev pub Ends : {A : Type 0} → (A → Type 0) → Option (A × S) → Type 0
  Ends {A} P result = (a : A) × (s' : S) × (result ≡ some (a, s')) × P a

  pub give_up-Ends :
      (size : ℕ) (client : QueryClient) (s : S) → Ends (Progresses size) (give_up net client s)
  give_up-Ends size client s = (
    finished (query_failed (disconnect net client s).0),
    (disconnect net client s).1,
    refl,
    inl refl,
  )

  disconnected : (client : QueryClient) (s : S) → is_connected (disconnect net client s).0 ≡ false
  unfolding disconnect
  disconnected client s = elim (Option-cases client.socket) [
    | inl off ↦ rw (off, disconnect, off) refl
    | inr (fd, on) ↦ rw (on, disconnect) refl
  ]

  pub try_again-Ends :
      (size : ℕ) (client : QueryClient) (s : S) → Ends (Progresses size) (try_again net client s)
  try_again-Ends size client s =
      (retry (disconnect net client s).0, (disconnect net client s).1, refl, disconnected client s)

  answered :
      (n size : ℕ) (buffer : List ℕ) (client : QueryClient) (s : S)
      → suc n ≤ size
      → size ≤ length buffer
      → size < 2 ^ 31
      → is_connected client ≡ true
      → Ends (Progresses size) (
          read_u8 (buffer_reader buffer (suc n)) >>= (λ (status, reader). some (
            finished (record { status = query_status status; reader = reader; client = client }),
            s,
          )))
  answered n size [] client s fits room small on = absurd (omega arith)
  answered n size (b ∷ bs) client s fits room small on =
      let a = first_byte b n bs (omega arith) (omega arith) in
      (
        finished (record { status = query_status b; reader = a.after; client = client }),
        s,
        rw a.returns refl,
        inr (take n bs, a.leaves, omega (arith, length-take n bs), on),
      )

module _ {S : Type 0} (net : Network S) (io : InOrder net) where
  payload_filled :
      (fd n : ℕ) (buffer : List ℕ) (size : ℕ) (client : QueryClient) (s : S)
      → suc n ≤ size
      → size ≤ length buffer
      → size < 2 ^ 31
      → is_connected client ≡ true
      → Fills net io fd buffer 0 (suc n) s (read_exact net (suc n) fd buffer 0 (suc n) s)
      → Ends net (Progresses size) (read_payload net fd buffer size (pos (suc n)) client s)
  unfolding read_payload
  payload_filled fd n buffer size client s fits room small on (cut_short buffer' s' run same cut) =
      rw (lt→leb (suc n + 0) 0 (omega arith), le→leb (suc n + 0) (size + 0) (omega arith), run)
        (give_up-Ends net size client s')
  payload_filled fd n buffer size client s fits room small on (whole s' run enough left) =
      rw (lt→leb (suc n + 0) 0 (omega arith), le→leb (suc n + 0) (size + 0) (omega arith), run)
        (answered net n size (overwrite buffer 0 (take (suc n) (io.incoming fd s))) client s' fits
          (omega (
            arith,
            length-overwrite buffer 0 (take (suc n) (io.incoming fd s))
                (omega (arith, length-take (suc n) (io.incoming fd s))),
          ))
          small on)

  read_payload-Ends :
      (fd : ℕ) (buffer : List ℕ) (size : ℕ) (response_size : ℤ) (client : QueryClient) (s : S)
      → size ≤ length buffer
      → size < 2 ^ 31
      → is_connected client ≡ true
      → Ends net (Progresses size) (read_payload net fd buffer size response_size client s)
  unfolding read_payload
  read_payload-Ends fd buffer size (negsuc n) client s room small on =
      rw (le→leb 0 (0 + suc n) (omega arith)) (give_up-Ends net size client s)
  read_payload-Ends fd buffer size (pos zero) client s room small on =
      give_up-Ends net size client s
  read_payload-Ends fd buffer size (pos (suc n)) client s room small on =
      elim (Bool-cases (leb (suc n + 0) (size + 0))) [
        | inr large ↦
            rw (lt→leb (suc n + 0) 0 (omega arith), large) (give_up-Ends net size client s)
        | inl fits ↦
            let below : suc n ≤ size = omega (arith, leb→le _ _ fits) in
            payload_filled fd n buffer size client s below room small on
              (read_exact-Fills net io (suc n) fd buffer 0 (suc n) s (omega arith) (omega arith))
      ]

  extended_filled :
      (fd : ℕ) (help buffer : List ℕ) (size : ℕ) (client : QueryClient) (s : S)
      → size ≤ length buffer
      → size < 2 ^ 31
      → is_connected client ≡ true
      → Fills net io fd help 0 4 s (read_exact net 4 fd help 0 4 s)
      → Ends net (Progresses size) (read_extended net fd help buffer size client s)
  unfolding read_extended
  extended_filled fd help buffer size client s room small on (cut_short help' s' run same cut) =
      rw run (give_up-Ends net size client s')
  extended_filled fd help buffer size client s room small on (whole s' run enough left) = rw run (
      read_payload-Ends fd buffer size
        (extended_size (overwrite help 0 (take 4 (io.incoming fd s)))) client s' room small on)

  response_filled :
      (fd : ℕ) (buffer : List ℕ) (size : ℕ) (client : QueryClient) (s : S)
      → size ≤ length buffer
      → size < 2 ^ 31
      → is_connected client ≡ true
      → Fills net io fd (replicate 4 0) 0 2 s (read_exact net 2 fd (replicate 4 0) 0 2 s)
      → Ends net (Progresses size) (read_response net fd buffer size client s)
  unfolding read_response
  response_filled fd buffer size client s room small on (cut_short help s' run same cut) =
      rw run (try_again-Ends net size client s')
  response_filled fd buffer size client s room small on (whole s' run enough left) =
      let help = overwrite (replicate 4 0) 0 (take 2 (io.incoming fd s)) in
      elim (Bool-cases (short_size help == 0xFFFF)) [
        | inl escaped ↦
            rw (run, escaped)
              (extended_filled fd help buffer size client s' room small on (
                read_exact-Fills net io 4 fd help 0 4 s' (omega arith) (
                  omega (
                    arith,
                    length-overwrite (replicate 4 0) 0 (take 2 (io.incoming fd s))
                        (omega (arith, length-take 2 (io.incoming fd s))),
                  ))))
        | inr short ↦
            rw (run, short)
              (read_payload-Ends fd buffer size (pos (short_size help)) client s' room small on)
      ]

  pub read_response-Ends :
      (fd : ℕ) (buffer : List ℕ) (size : ℕ) (client : QueryClient) (s : S)
      → size ≤ length buffer
      → size < 2 ^ 31
      → is_connected client ≡ true
      → Ends net (Progresses size) (read_response net fd buffer size client s)
  read_response-Ends fd buffer size client s room small on =
      response_filled fd buffer size client s room small on
        (read_exact-Fills net io 2 fd (replicate 4 0) 0 2 s (omega arith) (omega arith))

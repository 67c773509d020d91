-- ===== src/Connection/Input.antt =====
-- The input of a connection of src/network/server.cpp, round by round.
use tibia_login_orig.Base.{
  ℕ, zero, suc, ◌+◌, ◌-◌, ◌≤◌, ◌<◌, ◌≡◌, refl, ap, ◌∙◌, inl, inr, Bool, true, false, not, none,
  some, [], ◌∷◌, length, get_or, ltb, ltb→lt, ◌==◌, ◌||◌, if◌then◌else◌, overwrite, store_fits,
  length-overwrite, arith, Bool-cases,
}
use tibia_login_orig.ByteOrder.{read_u16_le}
use tibia_login_orig.Connection.{
  is_reading, Connection, ConnectionState, Received, Progress, bytes, again, broken, stop, more,
  close_connection, read_size, after_read, read_round, read_loop, has_socket,
  check_connection_input,
}

-- A connection that waits for the rest of a length or of a payload.
pub record IsReading (c : Connection) : Type 0 where
  pub whole : length c.buffer ≡ 2048
  pub bounded : c.rw_size ≤ 2048
  pub waits : c.rw_position < read_size c
  pub in_state : c.state ≡ ConnectionState.reading

-- How the input leaves a connection: still reading, closed, or with a whole payload.
pub data Settled (c : Connection) : Type 0 where
  waiting : IsReading c → Settled c
  closed : c.socket ≡ none → c.state ≡ ConnectionState.reading → length c.buffer ≡ 2048 → Settled c
  complete :
      c.state ≡ ConnectionState.processing
      → length c.buffer ≡ 2048
      → 0 < c.rw_size
      → c.rw_size ≤ 2048
      → c.rw_position ≡ c.rw_size
      → Settled c

-- The bytes that can still come.
pub remaining : Connection → ℕ
remaining c = if ltb 0 c.rw_size then c.rw_size - c.rw_position else 2050 - c.rw_position

-- `read` gives no more bytes than it is asked for.
unfoldable pub Within : ℕ → Received → Type 0
Within count (bytes bs) = length bs ≤ count
Within count again = Unit
Within count broken = Unit

-- What a round leads to.
Advances : ℕ → Progress → Type 0
Advances before (stop c) = Settled c
Advances before (more c) = IsReading c × (remaining c < before)

after_read-Advances :
    (c : Connection) (before : ℕ)
    → length c.buffer ≡ 2048
    → c.rw_size ≤ 2048
    → c.state ≡ ConnectionState.reading
    → c.rw_position ≤ read_size c
    → remaining c < before
    → (p : Progress) × (after_read c ≡ some p) × Advances before p
unfolding after_read remaining Advances
after_read-Advances c before whole bounded state position less =
    elim (Bool-cases (ltb c.rw_position (read_size c))) [
      | inl h ↦ (
        more c,
        rw h,
        (record { whole = whole; bounded = bounded; waits = ltb→lt _ _ h; in_state = state }, less),
      )
      | inr full ↦ elim (Bool-cases (ltb 0 c.rw_size)) [
        | inl h ↦ (
          stop (record c { state = ConnectionState.processing }),
          rw (full, h),
          complete refl whole (ltb→lt _ _ h) bounded (filled h full),
        )
        | inr h ↦ header_read h full
      ]
    ]
  where
    filled :
        ltb 0 c.rw_size ≡ true → ltb c.rw_position (read_size c) ≡ false → c.rw_position ≡ c.rw_size
    filled h full = ground arith

    header_read :
        ltb 0 c.rw_size ≡ false
        → ltb c.rw_position (read_size c) ≡ false
        → (p : Progress) × (after_read c ≡ some p) × Advances before p
    header_read h full =
        let at_two : (c.rw_position == 2) ≡ true = ground arith in
        let payload = read_u16_le (get_or c.buffer 0 0) (get_or c.buffer 1 0) in
        elim (Bool-cases (payload == 0 || ltb 2048 payload)) [
          | inl bad ↦
              (stop (close_connection c), rw (full, h, at_two, bad), closed refl state whole)
          | inr good ↦ (
            more (record c { rw_size = payload; rw_position = 0 }),
            rw (full, h, at_two, good),
            (
              record {
                whole = whole;
                bounded = ground arith;
                waits = ground arith;
                in_state = state;
              },
              ground arith,
            ),
          )
        ]

read_round-Advances :
    (c : Connection) (received : Received)
    → IsReading c
    → Within (read_size c - c.rw_position) received
    → (p : Progress) × (read_round c received ≡ some p) × Advances (remaining c) p
unfolding read_round Advances Within remaining
read_round-Advances c again h few = (stop c, refl, waiting h)
read_round-Advances c broken h few =
    (stop (close_connection c), refl, closed refl h.in_state h.whole)
read_round-Advances c (bytes []) h few =
    (stop (close_connection c), refl, closed refl h.in_state h.whole)
read_round-Advances c (bytes (b ∷ bs)) h few =
    let fits : c.rw_position + length (b ∷ bs) ≤ length c.buffer =
      ground (arith, h.whole, h.bounded) in
    let (p, done, advances) =
      after_read-Advances
        (record c {
          buffer = overwrite c.buffer c.rw_position (b ∷ bs);
          rw_position = c.rw_position + length (b ∷ bs);
        })
        (remaining c) (length-overwrite c.buffer c.rw_position (b ∷ bs) fits ∙ h.whole) h.bounded
        h.in_state (ground (arith, h.waits, few)) (ground (arith, h.waits, few)) in
    (p, rw (store_fits c.buffer c.rw_position (b ∷ bs) fits, done), advances)

module _ (Stream : Type 0) (receive : ℕ → Stream → Received × Stream)
    (few : (count : ℕ) (stream : Stream) → Within count (receive count stream).0) where
  -- The loop ends, and how it leaves the connection.
  abbrev Ends : ℕ → Connection → Stream → Type 0
  Ends fuel c stream =
      (c' : Connection) × (stream' : Stream) × (read_loop Stream receive fuel c stream
        ≡ some (c', stream'))
      × Settled c'

  round-Ends :
      (fuel : ℕ) (c : Connection) (stream : Stream) (p : Progress) (before : ℕ)
      → before < suc fuel
      → ((c' : Connection) (stream' : Stream)
          → IsReading c'
          → remaining c' < fuel
          → Ends fuel c' stream')
      → read_round c (receive (read_size c - c.rw_position) stream).0 ≡ some p
      → Advances before p
      → Ends (suc fuel) c stream
  unfolding read_loop Advances
  round-Ends fuel c stream (stop c') before enough next round settled =
      (c', (receive (read_size c - c.rw_position) stream).1, rw round, settled)
  round-Ends fuel c stream (more c') before enough next round (reads, less) =
      let (c'', stream'', run, settled) =
        next c' (receive (read_size c - c.rw_position) stream).1 reads (omega arith) in
      (c'', stream'', rw (round, run), settled)

  read_loop-Ends :
      (fuel : ℕ) (c : Connection) (stream : Stream)
      → IsReading c
      → remaining c < fuel
      → Ends fuel c stream
  read_loop-Ends zero c stream h enough = absurd (omega arith)
  read_loop-Ends (suc fuel) c stream h enough =
      let (p, round, advances) =
        read_round-Advances c (receive (read_size c - c.rw_position) stream).0 h
          (few (read_size c - c.rw_position) stream) in
      round-Ends fuel c stream p (remaining c) enough (read_loop-Ends fuel) round advances

  -- On events of a connection that waits for input, over any socket that gives no more bytes than it
  -- is asked for, `check_connection_input` ends and writes nothing outside the buffer. It leaves the
  -- connection waiting, closed, or in processing with a whole payload of 1 to 2048 bytes.
  pub check_connection_input-Settled :
      (pollin : Bool) (c : Connection) (stream : Stream)
      → IsReading c
      → (c' : Connection) × (stream' : Stream) × (check_connection_input Stream receive pollin c
            stream
          ≡ some (c', stream'))
        × Settled c'
  unfolding check_connection_input remaining
  check_connection_input-Settled pollin c stream h =
      elim (Bool-cases (not (has_socket c) || not pollin)) [
        | inl idle ↦ (c, stream, rw idle, waiting h)
        | inr busy ↦
            let (c', stream', run, settled) =
              read_loop-Ends 2051 c stream h (ground (arith, h.bounded)) in
            (c', stream', rw (busy, ap is_reading h.in_state) run, settled)
      ]
